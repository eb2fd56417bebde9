-- ===== src/System/Disjoint.antt =====
-- What the transactions that add runs do to tables in which no two unfinished runs of one owner
-- hold a project or a car in common.
use searchcar_desktop.Base.{
  ℕ, String, ◌≡◌, refl, inl, inr, Bool, true, false, Option, none, some, List, [], ◌∷◌, arith, All,
  any, Bool-cases, ◌&&◌, not, contains,
}
use searchcar_desktop.Store.{Db, ScanRun, Payload, Kind, SchedulerSetting, is_projects, is_manual}
use searchcar_desktop.Queue.Detach.{is_empty}
use searchcar_desktop.Queue.Enqueue.{
  EnqueueReply, enqueue, merge_row, merged, new_run, enqueue_merged, owned_unfinished, conflict,
}
use searchcar_desktop.Scheduler.Settings.{enabled_setting}
use searchcar_desktop.Scheduler.Poll.{
  enqueue_scheduled, poll_settings, poll_if, run_due, due_project_ids, automatic_payload,
}
use searchcar_desktop.Scheduler.Branches.{poll_setting-elim}
use searchcar_desktop.System.Conflicts.{
  conflicting, Apart, Disjoint, Narrows, Disjoint-map, Disjoint-append, overlaps_sym,
  contains-select,
}

merge_row-Narrows :
    (owner : ℕ) (requested : List ℕ) (now : ℕ) (r : ScanRun)
    → Narrows r (merge_row owner requested now r)
unfolding merge_row
merge_row-Narrows owner requested now r = record {
  owner = ground arith;
  unfinished = λ h. ground arith;
  held = λ p h.
      ground (arith, contains-select (λ x. not (contains requested x)) r.payload.project_ids p);
  cars = ground arith;
}

merged-Disjoint :
    (kind : Kind) (payload : Payload) (owner now : ℕ) (rs : List ScanRun)
    → Disjoint rs
    → Disjoint (merged kind payload owner now rs)
merged-Disjoint kind payload owner now rs h =
    elim (Bool-cases (is_projects kind && is_manual payload.trigger)) [
      | inl e ↦ rw e (
          Disjoint-map (merge_row owner payload.project_ids now)
            (merge_row-Narrows owner payload.project_ids now) rs h)
      | inr e ↦ rw e h
    ]

-- the run that `enqueue` adds when its last loop finds no conflict
conflict-Apart :
    (id : ℕ) (kind : Kind) (payload : Payload) (owner created : ℕ) (rs : List ScanRun)
    → conflict owner payload rs ≡ none
    → All (λ r. Apart r (new_run id kind payload owner created)) rs
unfolding conflict conflicting
conflict-Apart id kind payload owner created [] h = tt
conflict-Apart id kind payload owner created (r ∷ rs) h = (
  ground (
    arith,
    overlaps_sym payload.project_ids r.payload.project_ids,
    overlaps_sym payload.car_ids r.payload.car_ids,
  ),
  conflict-Apart id kind payload owner created rs (ground arith),
)

enqueue_merged-Disjoint :
    (o : Option EnqueueReply) (kind : Kind) (payload : Payload) (owner created : ℕ) (a b : Db)
    → conflict owner payload a.scan_runs ≡ o
    → Disjoint a.scan_runs
    → Disjoint b.scan_runs
    → Disjoint (enqueue_merged o kind payload owner created a b).1.scan_runs
unfolding enqueue_merged
enqueue_merged-Disjoint none kind payload owner created a b e ha hb =
    Disjoint-append a.scan_runs (new_run a.next_id kind payload owner created)
      (conflict-Apart a.next_id kind payload owner created a.scan_runs e) ha
enqueue_merged-Disjoint (some r) kind payload owner created a b e ha hb = hb

-- A request adds no run that is in conflict with another.
pub enqueue-Disjoint :
    (m : Bool) (refusal : Option String) (kind : Kind) (payload : Payload) (owner now created : ℕ)
    (db : Db)
    → Disjoint db.scan_runs
    → Disjoint (enqueue m refusal kind payload owner now created db).1.scan_runs
unfolding enqueue
enqueue-Disjoint true refusal kind payload owner now created db h = h
enqueue-Disjoint false (some code) kind payload owner now created db h = h
enqueue-Disjoint false none kind payload owner now created db h =
    let rows = merged kind payload owner now db.scan_runs in
    enqueue_merged-Disjoint (conflict owner payload rows) kind payload owner created
      (record db { scan_runs = rows }) db refl
      (merged-Disjoint kind payload owner now db.scan_runs h) h

-- the run that the poll adds for an owner without unfinished runs
idle-Apart :
    (id : ℕ) (kind : Kind) (payload : Payload) (owner created : ℕ) (rs : List ScanRun)
    → any (owned_unfinished owner) rs ≡ false
    → All (λ r. Apart r (new_run id kind payload owner created)) rs
unfolding conflicting
idle-Apart id kind payload owner created [] h = tt
idle-Apart id kind payload owner created (r ∷ rs) h =
    (ground arith, idle-Apart id kind payload owner created rs (ground arith))

run_due-Disjoint :
    (now created : ℕ) (s : SchedulerSetting) (db : Db)
    → Disjoint db.scan_runs
    → Disjoint (run_due now created s db).1.scan_runs
unfolding run_due
run_due-Disjoint now created s db h = elim (Bool-cases (is_empty (due_project_ids db s))) [
  | inl e ↦ rw e h
  | inr e ↦ rw e (elim (Bool-cases (any (owned_unfinished s.user_id) db.scan_runs)) [
    | inl b ↦ rw b h
    | inr b ↦ rw b (
        Disjoint-append db.scan_runs
          (new_run db.next_id Kind.projects (automatic_payload (due_project_ids db s)) s.user_id
            created)
          (idle-Apart db.next_id Kind.projects (automatic_payload (due_project_ids db s)) s.user_id
            created db.scan_runs b)
          h)
  ])
]

poll_if-Disjoint :
    (can_run : Bool) (now created : ℕ) (first : Db) (s : SchedulerSetting) (db : Db)
    → Disjoint db.scan_runs
    → Disjoint (poll_if can_run now created first s db).1.scan_runs
unfolding poll_if
poll_if-Disjoint can_run now created first s db h = elim (Bool-cases (enabled_setting first s)) [
  | inl e ↦ rw e (
      poll_setting-elim (λ o. Disjoint o.1.scan_runs) can_run now created s db (λ _. h) h
        (run_due-Disjoint now created s db h))
  | inr e ↦ rw e h
]

poll_settings-Disjoint :
    (can_run : Bool) (now created : ℕ) (first : Db) (ss : List SchedulerSetting) (db : Db)
    → Disjoint db.scan_runs
    → Disjoint (poll_settings can_run now created first ss db).1.scan_runs
unfolding poll_settings
poll_settings-Disjoint can_run now created first [] db h = h
poll_settings-Disjoint can_run now created first (s ∷ ss) db h =
    poll_settings-Disjoint can_run now created first ss (poll_if can_run now created first s db).1
      (poll_if-Disjoint can_run now created first s db h)

-- The poll adds no run that is in conflict with another.
pub poll-Disjoint :
    (m can_run : Bool) (now created : ℕ) (db : Db)
    → Disjoint db.scan_runs
    → Disjoint (enqueue_scheduled m can_run now created db).scan_runs
unfolding enqueue_scheduled
poll-Disjoint true can_run now created db h = h
poll-Disjoint false can_run now created db h =
    poll_settings-Disjoint can_run now created db db.settings db h

-- From tables in which no two unfinished runs of one owner hold a project or a car in common, a
-- request of a user and a poll of the schedulers, which are what adds runs, lead to such tables.
pub added-Disjoint :
    (m can_run : Bool) (refusal : Option String) (kind : Kind) (payload : Payload)
    (owner now created : ℕ) (db : Db)
    → Disjoint db.scan_runs
    → Disjoint (enqueue m refusal kind payload owner now created db).1.scan_runs
      × Disjoint (enqueue_scheduled m can_run now created db).scan_runs
added-Disjoint m can_run refusal kind payload owner now created db h = (
  enqueue-Disjoint m refusal kind payload owner now created db h,
  poll-Disjoint m can_run now created db h,
)
