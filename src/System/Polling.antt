-- ===== src/System/Polling.antt =====
-- The scheduler's transactions keep the invariant of scan_runs.
use searchcar_desktop.Base.{
  ℕ, refl, inl, inr, Bool, true, false, List, [], ◌∷◌, arith, any, if◌then◌else◌, Bool-cases,
}
use searchcar_desktop.Store.{Db, Payload, Kind, SchedulerSetting}
use searchcar_desktop.Queue.Invariant.{IsValid}
use searchcar_desktop.Queue.Counting.{same-IsValid}
use searchcar_desktop.Queue.Detach.{is_empty}
use searchcar_desktop.Queue.Enqueue.{owned_unfinished, insert_run}
use searchcar_desktop.Scheduler.Settings.{
  prepare_overdue_scheduler_catch_up, toggle_all_schedulers, enabled_setting,
}
use searchcar_desktop.Scheduler.Poll.{
  enqueue_scheduled, poll_settings, poll_if, run_due, due_project_ids, automatic_payload,
}
use searchcar_desktop.Scheduler.Branches.{poll_setting-elim}
use searchcar_desktop.System.Exclusive.{insert_run-IsValid}

insert_if-IsValid :
    (busy : Bool) (payload : Payload) (owner created : ℕ) (db : Db)
    → IsValid db
    → IsValid (if busy then db else insert_run Kind.projects payload owner created db)
insert_if-IsValid true payload owner created db v = v
insert_if-IsValid false payload owner created db v =
    insert_run-IsValid Kind.projects payload owner created db v

run_due-IsValid :
    (now created : ℕ) (s : SchedulerSetting) (db : Db)
    → IsValid db
    → IsValid (run_due now created s db).1
unfolding run_due
run_due-IsValid now created s db v = elim (Bool-cases (is_empty (due_project_ids db s))) [
  | inl e ↦ rw e v
  | inr e ↦ rw e (
      insert_if-IsValid (any (owned_unfinished s.user_id) db.scan_runs)
        (automatic_payload (due_project_ids db s)) s.user_id created db v)
]

poll_if-IsValid :
    (can_run : Bool) (now created : ℕ) (start : Db) (s : SchedulerSetting) (db : Db)
    → IsValid db
    → IsValid (poll_if can_run now created start s db).1
unfolding poll_if
poll_if-IsValid can_run now created start s db v = elim (Bool-cases (enabled_setting start s)) [
  | inl e ↦ rw e (
      poll_setting-elim (λ o. IsValid o.1) can_run now created s db (λ _. v) v
        (run_due-IsValid now created s db v))
  | inr e ↦ rw e v
]

poll_settings-IsValid :
    (can_run : Bool) (now created : ℕ) (start : Db) (ss : List SchedulerSetting) (db : Db)
    → IsValid db
    → IsValid (poll_settings can_run now created start ss db).1
unfolding poll_settings
poll_settings-IsValid can_run now created start [] db v = v
poll_settings-IsValid can_run now created start (s ∷ ss) db v =
    poll_settings-IsValid can_run now created start ss (poll_if can_run now created start s db).1
      (poll_if-IsValid can_run now created start s db v)

pub poll-IsValid :
    (m can_run : Bool) (now created : ℕ) (db : Db)
    → IsValid db
    → IsValid (enqueue_scheduled m can_run now created db)
unfolding enqueue_scheduled
poll-IsValid true can_run now created db v = v
poll-IsValid false can_run now created db v =
    same-IsValid (poll_settings can_run now created db db.settings db).1
      (enqueue_scheduled false can_run now created db) refl refl
      (poll_settings-IsValid can_run now created db db.settings db v)

pub catch_up-IsValid :
    (now : ℕ) (forced : List ℕ) (db : Db)
    → IsValid db
    → IsValid (prepare_overdue_scheduler_catch_up now forced db).1
unfolding prepare_overdue_scheduler_catch_up
catch_up-IsValid now forced db v =
    same-IsValid db (prepare_overdue_scheduler_catch_up now forced db).1 refl refl v

pub toggle-IsValid : (now : ℕ) (db : Db) → IsValid db → IsValid (toggle_all_schedulers now db).1
unfolding toggle_all_schedulers
toggle-IsValid now db v =
    same-IsValid db (toggle_all_schedulers now db).1 (ground arith) (ground arith) v
