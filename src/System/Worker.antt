-- ===== src/System/Worker.antt =====
-- The start of a job and its cancellation check keep the invariant of scan_runs.
use mathlib.Core.Path.{subst}
use searchcar_desktop.Base.{
  ℕ, ◌≡◌, refl, sym, ◌∙◌, inl, inr, Bool, true, false, some, List, [], ◌∷◌, map, arith, find_by,
  ◌==◌, if◌then◌else◌, Bool-cases, Option-cases,
}
use searchcar_desktop.Store.{Db, ScanRun, RunStatus, is_active, is_running, is_pending}
use searchcar_desktop.Queue.Rows.{find_run, save_run, owner_active}
use searchcar_desktop.Queue.Invariant.{IsValid}
use searchcar_desktop.Queue.Counting.{write-IsValid, write}
use searchcar_desktop.Worker.Lifecycle.{
  Check, add_parts, start_job, raise_if_cancelled, started_run, inactive_run, stop_requested,
  add_part, job_projects,
}
use searchcar_desktop.System.Events.{held, active_job, running_job}
use searchcar_desktop.Queue.Counting.{find_run-id}

-- the head of a job keeps scan_runs but for the job's row
pub add_parts-runs :
    (run owner : ℕ) (ps : List ℕ) (db : Db)
    → ((add_parts run owner ps db).scan_runs ≡ db.scan_runs)
      × ((add_parts run owner ps db).next_id ≡ db.next_id)
unfolding add_parts
add_parts-runs run owner [] db = (refl, refl)
add_parts-runs run owner (p ∷ ps) db =
    let ih = add_parts-runs run owner ps (add_part run owner p db) in
    (ih.0 ∙ (ground arith), ih.1 ∙ (ground arith))

-- the worker holds a job: the row under the id, on which a test holds
pub held-IsValid :
    (test : ScanRun → Bool) (step : ScanRun → Db → Db) (id : ℕ) (db : Db)
    → ((job : ScanRun) → find_run id db ≡ some job → test job ≡ true → IsValid (step job db))
    → IsValid db
    → IsValid (held test step id db)
unfolding held
held-IsValid test step id db keep v = elim (Option-cases (find_run id db)) [
  | inl e ↦ rw (e, held) v
  | inr (job, e) ↦
      rw (e, held) (elim (Bool-cases (test job)) [ inl t ↦ rw t (keep job e t) | inr t ↦ rw t v ])
]

-- the row that the worker has found is the one that it writes back
pub found_again :
    (id : ℕ) (db : Db) (job new : ScanRun)
    → find_run id db ≡ some job
    → new.id ≡ job.id
    → find_by (λ r. r.id == new.id) db.scan_runs ≡ some job
found_again id db job new found e =
    subst (λ (k : ℕ). find_by (λ r. r.id == k) db.scan_runs ≡ some job)
      (sym (find_run-id id db.scan_runs job found) ∙ sym e) found

-- An active job that is written back under its id keeps the invariant, whatever it has become.
pub held_write-IsValid :
    (id : ℕ) (db db' : Db) (job new : ScanRun)
    → find_run id db ≡ some job
    → is_active job.status ≡ true
    → new.id ≡ job.id
    → db'.scan_runs ≡ map (write new) db.scan_runs
    → db'.next_id ≡ db.next_id
    → IsValid db
    → IsValid db'
held_write-IsValid id db db' job new found act e runs n v =
    write-IsValid job new db db' (found_again id db job new found e) (λ h. act) runs n v

running-active : (job : ScanRun) → is_running job.status ≡ true → is_active job.status ≡ true
running-active job h = ground arith

pub running-pending : (job : ScanRun) → is_running job.status ≡ true → is_pending job.status ≡ true
running-pending job h = ground arith

pub start-IsValid :
    (id now : ℕ) (db : Db)
    → IsValid db
    → IsValid (held running_job (λ _ d. (start_job id now d).1) id db)
unfolding start_job
start-IsValid id now db v =
    held-IsValid running_job (λ _ d. (start_job id now d).1) id db
      (λ job found run. rw found (
        rw (running-pending job run) (elim (Bool-cases (owner_active db.users job.owner_id)) [
          | inl o ↦
              let a =
                add_parts-runs job.id job.owner_id (job_projects job.payload)
                  (save_run (started_run now job) db) in
              rw o (
                held_write-IsValid id db _ job (started_run now job) found (running-active job run)
                  refl a.0 a.1 v)
          | inr o ↦ rw o (
              held_write-IsValid id db _ job (inactive_run now job) found (running-active job run)
                refl refl refl v)
        ])))
      v

pub check-IsValid :
    (id now : ℕ) (db : Db)
    → IsValid db
    → IsValid (held active_job (λ _ d. (raise_if_cancelled id now d).1) id db)
unfolding raise_if_cancelled
check-IsValid id now db v =
    held-IsValid active_job (λ _ d. (raise_if_cancelled id now d).1) id db
      (λ job found act.
        rw found
          (checked job found act (stop_requested job.status) (owner_active db.users job.owner_id)))
      v
  where
    checked :
        (job : ScanRun)
        → find_run id db ≡ some job
        → is_active job.status ≡ true
        → (stop owned : Bool)
        → IsValid
            (if◌then◌else◌ {A = Check × Db} stop
              (Check.scan_cancelled, db)
              (if owned
                then (Check.go_on, save_run (record job { heartbeat_at = some now }) db)
                else (
                  Check.scan_cancelled,
                  save_run
                      (record job { status = RunStatus.cancel_requested; heartbeat_at = some now })
                      db,
                ))).1
    checked job found act true owned = v
    checked job found act false true =
        held_write-IsValid id db _ job (record job { heartbeat_at = some now }) found act refl refl
          refl v
    checked job found act false false =
        held_write-IsValid id db _ job
          (record job { status = RunStatus.cancel_requested; heartbeat_at = some now }) found act
          refl refl refl v
