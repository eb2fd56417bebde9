-- ===== src/Scheduler/Owners.antt =====
-- A poll of `enqueue_scheduled` adds at most one run of an owner, and only for an idle owner.
use searchcar_desktop.Base.{
  ℕ, ◌+◌, ◌≡◌, ◌⊎◌, refl, inl, inr, Bool, true, false, List, [], ◌∷◌, ◌++◌, arith, any, count_by,
  Bool-cases, if◌then◌else◌,
}
use searchcar_desktop.Store.{Db, ScanRun, SchedulerSetting, Kind}
use searchcar_desktop.Queue.Detach.{is_empty}
use searchcar_desktop.Queue.Enqueue.{insert_run, owned_unfinished, new_run}
use searchcar_desktop.Scheduler.Settings.{enabled_setting}
use searchcar_desktop.Scheduler.Poll.{
  enqueue_scheduled, poll_settings, poll_if, run_due, due_project_ids, automatic_payload,
}
use searchcar_desktop.Scheduler.Branches.{poll_setting-elim}

abbrev pub unfinished_of : ℕ → Db → ℕ
unfinished_of owner db = count_by (owned_unfinished owner) db.scan_runs

-- the number of unfinished runs of an owner: as before, or the first one
abbrev pub Grown : ℕ → ℕ → Type 0
Grown before after = (after ≡ before) ⊎ ((before ≡ 0) × (after ≡ 1))

Grown-trans : (a b c : ℕ) → Grown a b → Grown b c → Grown a c
Grown-trans a b c (inl p) (inl q) = inl (omega (arith, p, q))
Grown-trans a b c (inl p) (inr q) = inr (omega (arith, p, q.0), q.1)
Grown-trans a b c (inr p) (inl q) = inr (p.0, omega (arith, p.1, q))
Grown-trans a b c (inr p) (inr q) = absurd (omega (arith, p.1, q.0))

count_append :
    (p : ScanRun → Bool) (rs : List ScanRun) (new : ScanRun)
    → count_by p (rs ++ new ∷ []) ≡ count_by p rs + (if p new then 1 else 0)
count_append p [] new = omega arith
count_append p (r ∷ rs) new = omega (arith, count_append p rs new)

none-count : (p : ScanRun → Bool) (rs : List ScanRun) → any p rs ≡ false → count_by p rs ≡ 0
none-count p [] h = refl
none-count p (r ∷ rs) h = ground (arith, none-count p rs)

inserted-Grown :
    (id owner created o : ℕ) (ids : List ℕ) (rs : List ScanRun)
    → any (owned_unfinished owner) rs ≡ false
    → Grown (count_by (owned_unfinished o) rs) (
        count_by
          (owned_unfinished o)
          (rs ++ new_run id Kind.projects (automatic_payload ids) owner created ∷ []))
inserted-Grown id owner created o ids rs h = ground (
  arith,
  count_append (owned_unfinished o) rs
      (new_run id Kind.projects (automatic_payload ids) owner created),
  none-count (owned_unfinished o) rs,
)

run_due-Grown :
    (o now created : ℕ) (s : SchedulerSetting) (db : Db)
    → Grown (unfinished_of o db) (unfinished_of o (run_due now created s db).1)
unfolding run_due insert_run
run_due-Grown o now created s db = elim (Bool-cases (is_empty (due_project_ids db s))) [
  | inl e ↦ rw e (inl refl)
  | inr e ↦ rw e (elim (Bool-cases (any (owned_unfinished s.user_id) db.scan_runs)) [
    | inl b ↦ rw b (inl refl)
    | inr b ↦
        rw b (inserted-Grown db.next_id s.user_id created o (due_project_ids db s) db.scan_runs b)
  ])
]

poll_if-Grown :
    (o : ℕ) (can_run : Bool) (now created : ℕ) (first : Db) (s : SchedulerSetting) (db : Db)
    → Grown (unfinished_of o db) (unfinished_of o (poll_if can_run now created first s db).1)
unfolding poll_if
poll_if-Grown o can_run now created first s db = elim (Bool-cases (enabled_setting first s)) [
  | inl e ↦ rw e (
      poll_setting-elim (λ r. Grown (unfinished_of o db) (unfinished_of o r.1)) can_run now created
        s db (λ _. inl refl) (inl refl) (run_due-Grown o now created s db))
  | inr e ↦ rw e (inl refl)
]

poll_settings-Grown :
    (o : ℕ) (can_run : Bool) (now created : ℕ) (first : Db) (ss : List SchedulerSetting) (db : Db)
    → Grown (unfinished_of o db) (unfinished_of o (poll_settings can_run now created first ss db).1)
unfolding poll_settings
poll_settings-Grown o can_run now created first [] db = inl refl
poll_settings-Grown o can_run now created first (s ∷ ss) db =
    let next = (poll_if can_run now created first s db).1 in
    Grown-trans (unfinished_of o db) (unfinished_of o next)
      (unfinished_of o (poll_settings can_run now created first ss next).1)
      (poll_if-Grown o can_run now created first s db)
      (poll_settings-Grown o can_run now created first ss next)

-- However many schedulers a user has, a poll leaves the number of the user's unfinished runs as it
-- was, or takes it from none to one.
pub enqueue_scheduled-Grown :
    (owner : ℕ) (m can_run : Bool) (now created : ℕ) (db : Db)
    → Grown
        (unfinished_of owner db)
        (unfinished_of owner (enqueue_scheduled m can_run now created db))
unfolding enqueue_scheduled
enqueue_scheduled-Grown owner true can_run now created db = inl refl
enqueue_scheduled-Grown owner false can_run now created db =
    poll_settings-Grown owner can_run now created db db.settings db
