-- ===== src/System/Steps.antt =====
-- Every transaction of the queue and the scheduler takes the rows of scan_runs further.
use mathlib.Core.Path.{subst}
use searchcar_desktop.Base.{
  ℕ, String, ◌≡◌, refl, sym, ◌∙◌, inl, inr, Bool, true, false, Option, none, some, List, [], ◌∷◌,
  map, arith, find_by, length, ◌&&◌, ◌==◌, any, Bool-cases, Option-cases, if◌then◌else◌,
}
use searchcar_desktop.Store.{
  Db, ScanRun, Payload, Kind, RunStatus, SchedulerSetting, is_projects, is_manual,
}
use searchcar_desktop.Queue.Rows.{find_run, save_run, ids}
use searchcar_desktop.Queue.Invariant.{Unique}
use searchcar_desktop.Queue.Counting.{write}
use searchcar_desktop.Queue.Claim.{claim_next_job, claim_row, next_row}
use searchcar_desktop.Queue.Stop.{cancel_scan, cancel_by_status, user_cancelled, user_requested}
use searchcar_desktop.Queue.Enqueue.{
  EnqueueReply, enqueue, insert_run, merge_row, merged, new_run, enqueue_merged, owned_unfinished,
}
use searchcar_desktop.Queue.Detach.{is_empty}
use searchcar_desktop.Scheduler.Settings.{enabled_setting}
use searchcar_desktop.Scheduler.Poll.{
  enqueue_scheduled, poll_settings, poll_if, run_due, due_project_ids, automatic_payload,
}
use searchcar_desktop.Scheduler.Branches.{poll_setting-elim}
use searchcar_desktop.Queue.Counting.{find_run-id}
use searchcar_desktop.System.Evolution.{
  Follows, Evolves, Evolves-refl, Evolves-trans, map-Evolves, append-Evolves, write-Evolves,
}
use searchcar_desktop.System.Updates.{claim_row-Follows, merge_row-Follows}

-- the rows before and after
abbrev pub Moves : Db → Db → Type 0
Moves db db' = Evolves db.scan_runs db'.scan_runs

-- the same, without new rows
abbrev pub Keeps : Db → Db → Type 0
Keeps db db' = Moves db db' × (length db'.scan_runs ≡ length db.scan_runs)

pub Keeps-refl : (db : Db) → Keeps db db
Keeps-refl db = (Evolves-refl db.scan_runs, refl)

pub same-Keeps : (db db' : Db) → db'.scan_runs ≡ db.scan_runs → Keeps db db'
same-Keeps db db' e = rw e (Keeps-refl db)

length-map : (f : ScanRun → ScanRun) (rs : List ScanRun) → length (map f rs) ≡ length rs
length-map f [] = refl
length-map f (r ∷ rs) = cc (length-map f rs)

pub map-Keeps :
    (f : ScanRun → ScanRun)
    → ((r : ScanRun) → Follows r (f r))
    → (rs : List ScanRun) → Evolves rs (map f rs) × (length (map f rs) ≡ length rs)
map-Keeps f h rs = (map-Evolves f h rs, length-map f rs)

pub write-Keeps :
    (old job : ScanRun) (db db' : Db)
    → Unique (ids db.scan_runs)
    → find_by (λ r. r.id == job.id) db.scan_runs ≡ some old
    → Follows old job
    → db'.scan_runs ≡ map (write job) db.scan_runs
    → Keeps db db'
write-Keeps old job db db' u found f e =
    rw e (write-Evolves old job db.scan_runs u found f, length-map (write job) db.scan_runs)

pub claim-Keeps :
    (m : Bool) (now : ℕ) (w : String) (db : Db) → Keeps db (claim_next_job m now w db).1
unfolding claim_next_job
claim-Keeps true now w db = Keeps-refl db
claim-Keeps false now w db = elim (Option-cases (next_row db)) [
  | inl e ↦ rw e (Keeps-refl db)
  | inr (r, e) ↦ rw e (map-Keeps (claim_row r.id now w) (claim_row-Follows r.id now w) db.scan_runs)
]

-- a session that has found a row writes it back
pub save-Keeps :
    (id : ℕ) (db : Db) (old job : ScanRun)
    → Unique (ids db.scan_runs)
    → find_run id db ≡ some old
    → Follows old job
    → Keeps db (save_run job db)
save-Keeps id db old job u found f =
    write-Keeps old job db (save_run job db) u
      (subst (λ (k : ℕ). find_by (λ r. r.id == k) db.scan_runs ≡ some old)
        (sym (find_run-id id db.scan_runs old found) ∙ sym f.id) found)
      f refl

cancel_by_status-Keeps :
    (s : RunStatus) (id : ℕ) (r : ScanRun) (now : ℕ) (db : Db)
    → Unique (ids db.scan_runs)
    → find_run id db ≡ some r
    → r.status ≡ s
    → Keeps db (cancel_by_status s r now db).1
unfolding cancel_by_status
cancel_by_status-Keeps RunStatus.queued id r now db u found e =
    save-Keeps id db r (user_cancelled now r) u found (ground (arith, e))
cancel_by_status-Keeps RunStatus.running id r now db u found e =
    save-Keeps id db r (user_requested now r) u found (ground (arith, e))
cancel_by_status-Keeps _ id r now db u found e = Keeps-refl db

pub cancel-Keeps :
    (id user now : ℕ) (db : Db)
    → Unique (ids db.scan_runs)
    → Keeps db (cancel_scan id user now db).1
unfolding cancel_scan
cancel-Keeps id user now db u = elim (Option-cases (find_run id db)) [
  | inl e ↦ rw e (Keeps-refl db)
  | inr (r, e) ↦ rw e (elim (Bool-cases (r.owner_id == user)) [
    | inl own ↦ rw own (cancel_by_status-Keeps r.status id r now db u e refl)
    | inr other ↦ rw other (Keeps-refl db)
  ])
]

insert_run-Moves :
    (kind : Kind) (payload : Payload) (owner created : ℕ) (db : Db)
    → Moves db (insert_run kind payload owner created db)
unfolding insert_run
insert_run-Moves kind payload owner created db =
    append-Evolves db.scan_runs db.scan_runs (new_run db.next_id kind payload owner created ∷ [])
      (Evolves-refl db.scan_runs)

pub merged-Evolves :
    (kind : Kind) (payload : Payload) (owner now : ℕ) (rs : List ScanRun)
    → Evolves rs (merged kind payload owner now rs)
merged-Evolves kind payload owner now rs =
    elim (Bool-cases (is_projects kind && is_manual payload.trigger)) [
      | inl e ↦ rw e (
          map-Evolves (merge_row owner payload.project_ids now)
            (merge_row-Follows owner payload.project_ids now) rs)
      | inr e ↦ rw e (Evolves-refl rs)
    ]

enqueue_merged-Moves :
    (o : Option EnqueueReply) (kind : Kind) (payload : Payload) (owner created : ℕ) (a b : Db)
    → Moves b a
    → Moves b (enqueue_merged o kind payload owner created a b).1
unfolding enqueue_merged
enqueue_merged-Moves none kind payload owner created a b h =
    Evolves-trans b.scan_runs a.scan_runs (insert_run kind payload owner created a).scan_runs h
      (insert_run-Moves kind payload owner created a)
enqueue_merged-Moves (some r) kind payload owner created a b h = Evolves-refl b.scan_runs

pub enqueue-Moves :
    (m : Bool) (refusal : Option String) (kind : Kind) (payload : Payload) (owner now created : ℕ)
    (db : Db)
    → Moves db (enqueue m refusal kind payload owner now created db).1
unfolding enqueue
enqueue-Moves true refusal kind payload owner now created db = Evolves-refl db.scan_runs
enqueue-Moves false (some code) kind payload owner now created db = Evolves-refl db.scan_runs
enqueue-Moves false none kind payload owner now created db =
    enqueue_merged-Moves _ kind payload owner created _ db
      (merged-Evolves kind payload owner now db.scan_runs)

run_due-Moves :
    (now created : ℕ) (s : SchedulerSetting) (db : Db) → Moves db (run_due now created s db).1
unfolding run_due
run_due-Moves now created s db = elim (Bool-cases (is_empty (due_project_ids db s))) [
  | inl e ↦ rw e (Evolves-refl db.scan_runs)
  | inr e ↦ rw e (insert_if (any (owned_unfinished s.user_id) db.scan_runs))
]
  where
    insert_if :
        (busy : Bool)
        → Moves db (
            if busy
            then db
            else insert_run Kind.projects
                (automatic_payload (due_project_ids db s))
                s.user_id
                created
                db)
    insert_if true = Evolves-refl db.scan_runs
    insert_if false =
        insert_run-Moves Kind.projects (automatic_payload (due_project_ids db s)) s.user_id created
          db

poll_if-Moves :
    (can_run : Bool) (now created : ℕ) (start : Db) (s : SchedulerSetting) (db : Db)
    → Moves db (poll_if can_run now created start s db).1
unfolding poll_if
poll_if-Moves can_run now created start s db = elim (Bool-cases (enabled_setting start s)) [
  | inl e ↦ rw e (
      poll_setting-elim (λ o. Moves db o.1) can_run now created s db
        (λ _. (Evolves-refl db.scan_runs)) (Evolves-refl db.scan_runs)
        (run_due-Moves now created s db))
  | inr e ↦ rw e (Evolves-refl db.scan_runs)
]

poll_settings-Moves :
    (can_run : Bool) (now created : ℕ) (start : Db) (ss : List SchedulerSetting) (db : Db)
    → Moves db (poll_settings can_run now created start ss db).1
unfolding poll_settings
poll_settings-Moves can_run now created start [] db = Evolves-refl db.scan_runs
poll_settings-Moves can_run now created start (s ∷ ss) db =
    let next = (poll_if can_run now created start s db).1 in
    Evolves-trans db.scan_runs next.scan_runs
      (poll_settings can_run now created start ss next).1.scan_runs
      (poll_if-Moves can_run now created start s db)
      (poll_settings-Moves can_run now created start ss next)

pub poll-Moves :
    (m can_run : Bool) (now created : ℕ) (db : Db)
    → Moves db (enqueue_scheduled m can_run now created db)
unfolding enqueue_scheduled
poll-Moves true can_run now created db = Evolves-refl db.scan_runs
poll-Moves false can_run now created db = poll_settings-Moves can_run now created db db.settings db
