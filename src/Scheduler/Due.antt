-- ===== src/Scheduler/Due.antt =====
-- A poll of `enqueue_scheduled` leaves no scheduler due, so that it can be repeated.
use searchcar_desktop.Base.{
  ℕ, ◌≤◌, ◌≡◌, refl, ap, ◌∙◌, inl, inr, Bool, true, false, ◌&&◌, not, List, [], ◌∷◌, arith, All,
  any, Bool-cases,
}
use searchcar_desktop.Store.{Db, SchedulerSetting}
use searchcar_desktop.Queue.Rows.{owner_active}
use searchcar_desktop.Queue.Detach.{is_empty}
use searchcar_desktop.Queue.Enqueue.{insert_run}
use searchcar_desktop.Scheduler.Settings.{enabled_setting}
use searchcar_desktop.Scheduler.Poll.{
  enqueue_scheduled, poll_settings, poll_if, run_due, due_project_ids, rescheduled,
}
use searchcar_desktop.Scheduler.Branches.{time_is_up, poll_setting-elim, poll_setting-quiet}

-- the poll acts on the scheduler
unfoldable pub due : ℕ → Db → SchedulerSetting → Bool
due now db s = enabled_setting db s && (not s.paused && time_is_up now s.next_run_at)

abbrev pub HasInterval : SchedulerSetting → Type 0
HasInterval s = 1 ≤ s.interval_minutes

rescheduled-due :
    (now : ℕ) (db : Db) (s : SchedulerSetting)
    → HasInterval s
    → due now db (rescheduled now s) ≡ false
unfolding due
rescheduled-due now db s h = ground (arith, h)

run_due-due :
    (now created : ℕ) (first db : Db) (s : SchedulerSetting)
    → HasInterval s
    → due now first (run_due now created s db).0 ≡ false
unfolding run_due due
run_due-due now created first db s h = elim (Bool-cases (is_empty (due_project_ids db s))) [
  | inl e ↦ rw e refl
  | inr e ↦ rw e (ground (arith, h))
]

poll_if-due :
    (can_run : Bool) (now created : ℕ) (first : Db) (s : SchedulerSetting) (db : Db)
    → HasInterval s
    → due now first (poll_if can_run now created first s db).0 ≡ false
unfolding poll_if due
poll_if-due can_run now created first s db h = elim (Bool-cases (enabled_setting first s)) [
  | inl e ↦ rw e (
      poll_setting-elim (λ o. due now first o.0 ≡ false) can_run now created s db
        (λ q. ground (arith, q)) (rescheduled-due now first s h)
        (run_due-due now created first db s h))
  | inr e ↦ rw e (ground (arith, e))
]

run_due-users :
    (now created : ℕ) (s : SchedulerSetting) (db : Db)
    → (run_due now created s db).1.users ≡ db.users
unfolding run_due insert_run
run_due-users now created s db = ground arith

-- the poll leaves the users alone
poll_if-users :
    (can_run : Bool) (now created : ℕ) (first : Db) (s : SchedulerSetting) (db : Db)
    → (poll_if can_run now created first s db).1.users ≡ db.users
unfolding poll_if
poll_if-users can_run now created first s db = elim (Bool-cases (enabled_setting first s)) [
  | inl e ↦ rw e (
      poll_setting-elim (λ o. o.1.users ≡ db.users) can_run now created s db (λ _. refl) refl
        (run_due-users now created s db))
  | inr e ↦ rw e refl
]

poll_settings-users :
    (can_run : Bool) (now created : ℕ) (first : Db) (ss : List SchedulerSetting) (db : Db)
    → (poll_settings can_run now created first ss db).1.users ≡ db.users
unfolding poll_settings
poll_settings-users can_run now created first [] db = refl
poll_settings-users can_run now created first (s ∷ ss) db =
    poll_settings-users can_run now created first ss (poll_if can_run now created first s db).1
    ∙ poll_if-users can_run now created first s db

poll_settings-due :
    (can_run : Bool) (now created : ℕ) (first : Db) (ss : List SchedulerSetting) (db : Db)
    → All HasInterval ss
    → any (due now first) (poll_settings can_run now created first ss db).0 ≡ false
unfolding poll_settings
poll_settings-due can_run now created first [] db h = refl
poll_settings-due can_run now created first (s ∷ ss) db h = ground (
  arith,
  poll_if-due can_run now created first s db h.0,
  poll_settings-due can_run now created first ss (poll_if can_run now created first s db).1 h.1,
)

same_users-due :
    (now : ℕ) (db db' : Db) (ss : List SchedulerSetting)
    → db'.users ≡ db.users
    → any (due now db') ss ≡ any (due now db) ss
unfolding due
same_users-due now db db' [] e = refl
same_users-due now db db' (s ∷ ss) e =
    ground (arith, ap (λ u. owner_active u s.user_id) e, same_users-due now db db' ss e)

-- Where every scheduler has a positive interval, none is due after a poll outside maintenance, so
-- none can be run twice at one time.
pub enqueue_scheduled-due :
    (can_run : Bool) (now created : ℕ) (db : Db)
    → All HasInterval db.settings
    → let db' = enqueue_scheduled false can_run now created db in
      any (due now db') db'.settings ≡ false
unfolding enqueue_scheduled
enqueue_scheduled-due can_run now created db h =
    let o = poll_settings can_run now created db db.settings db in
    same_users-due now db (enqueue_scheduled false can_run now created db) o.0
      (poll_settings-users can_run now created db db.settings db)
    ∙ poll_settings-due can_run now created db db.settings db h

-- a scheduler that is not due is left alone
poll_if-quiet :
    (can_run : Bool) (now created : ℕ) (first : Db) (s : SchedulerSetting) (db : Db)
    → due now first s ≡ false
    → poll_if can_run now created first s db ≡ (s, db)
unfolding poll_if due
poll_if-quiet can_run now created first s db h = elim (Bool-cases (enabled_setting first s)) [
  | inl e ↦ rw e (poll_setting-quiet can_run now created s db (ground (arith, e)))
  | inr e ↦ rw e refl
]

poll_settings-quiet :
    (can_run : Bool) (now created : ℕ) (first : Db) (ss : List SchedulerSetting) (db : Db)
    → any (due now first) ss ≡ false
    → poll_settings can_run now created first ss db ≡ (ss, db)
unfolding poll_settings
poll_settings-quiet can_run now created first [] db h = refl
poll_settings-quiet can_run now created first (s ∷ ss) db h =
    rw (poll_if-quiet can_run now created first s db (ground arith))
      (rw (poll_settings-quiet can_run now created first ss db (ground arith)) refl)

-- So a second poll at the same time changes nothing.
pub enqueue_scheduled-again :
    (can_run m can_run_again : Bool) (now created created_again : ℕ) (db : Db)
    → All HasInterval db.settings
    → let db' = enqueue_scheduled false can_run now created db in
      enqueue_scheduled m can_run_again now created_again db' ≡ db'
unfolding enqueue_scheduled
enqueue_scheduled-again can_run true can_run_again now created created_again db h = refl
enqueue_scheduled-again can_run false can_run_again now created created_again db h =
    let db' = enqueue_scheduled false can_run now created db in
    ap (λ (o : List SchedulerSetting × Db). record o.1 { settings = o.0 })
      (poll_settings-quiet can_run_again now created_again db' db'.settings db'
        (enqueue_scheduled-due can_run now created db h))
