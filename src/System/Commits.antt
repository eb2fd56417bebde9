-- ===== src/System/Commits.antt =====
-- Each transaction of the worker on its job takes the rows of scan_runs further.
use searchcar_desktop.Base.{
  ℕ, ◌≡◌, refl, ap, inl, inr, Bool, true, false, Option, some, List, map, arith, ◌==◌, select,
  Bool-cases, if◌then◌else◌,
}
use searchcar_desktop.Store.{
  Payload, Db, ScanRun, RunStatus, ReportItem, FailureDetail, Text, ProjectScanRun, is_active,
  is_running, is_terminal, is_sleep,
}
use searchcar_desktop.Queue.Rows.{ids, owner_active, save_run}
use searchcar_desktop.Queue.Invariant.{Unique}
use searchcar_desktop.Queue.Counting.{write}
use searchcar_desktop.Worker.Lifecycle.{
  start_job, raise_if_cancelled, started_run, inactive_run, stop_requested, job_projects, add_parts,
}
use searchcar_desktop.Worker.Outcomes.{
  publish_live_results, cancelled_run, cancelled_part, completed_run, failed_run, put_statuses,
  cancelled_outcome, completed_outcome, failed_outcome, save_outcome, finish_cancelled_job,
  complete_job, fail_job,
}
use searchcar_desktop.Worker.Rescheduling.{record_completed_run}
use searchcar_desktop.System.Events.{held, recall, active_job, running_job}
use searchcar_desktop.System.Evolution.{Follows, Follows-trans}
use searchcar_desktop.System.Steps.{Keeps, Keeps-refl, save-Keeps}
use searchcar_desktop.System.Worker.{add_parts-runs, running-pending}
use searchcar_desktop.System.Outcomes.{
  cancelled_outcome-Kept, completed_outcome-Kept, failed_outcome-Kept,
}
use searchcar_desktop.System.Ends.{
  held-Keeps, held_write-Keeps, end-Follows, final_status-terminal, reanchor-Alike,
  record_completed-Alike, Alike-trans,
}

started_run-Follows :
    (now : ℕ) (job : ScanRun) → is_running job.status ≡ true → Follows job (started_run now job)
started_run-Follows now job h = ground (arith, h)

inactive_run-Follows :
    (now : ℕ) (job : ScanRun) → is_running job.status ≡ true → Follows job (inactive_run now job)
inactive_run-Follows now job h = ground (arith, h)

pub start-Keeps :
    (id now : ℕ) (db : Db)
    → Unique (ids db.scan_runs)
    → Keeps db (held running_job (λ _ d. (start_job id now d).1) id db)
unfolding start_job
start-Keeps id now db u =
    held-Keeps running_job (λ _ d. (start_job id now d).1) id db
      (λ job found run. rw found (
        rw (running-pending job run) (elim (Bool-cases (owner_active db.users job.owner_id)) [
          | inl o ↦ rw o (
              held_write-Keeps id db
                (add_parts job.id job.owner_id (job_projects job.payload)
                  (save_run (started_run now job) db))
                job (started_run now job) u found (started_run-Follows now job run)
                (add_parts-runs job.id job.owner_id (job_projects job.payload)
                  (save_run (started_run now job) db)).0)
          | inr o ↦ rw o (
              save-Keeps id db job (inactive_run now job) u found
                (inactive_run-Follows now job run))
        ])))

-- what the check makes of a job that goes on, and of one whose owner is inactive
abbrev beaten : ℕ → ScanRun → ScanRun
beaten now job = record job { heartbeat_at = some now }

abbrev requested : ℕ → ScanRun → ScanRun
requested now job = record job { status = RunStatus.cancel_requested; heartbeat_at = some now }

beaten-Follows :
    (now : ℕ) (job : ScanRun) → is_active job.status ≡ true → Follows job (beaten now job)
beaten-Follows now job h = ground (arith, h)

requested-Follows :
    (now : ℕ) (job : ScanRun) → is_active job.status ≡ true → Follows job (requested now job)
requested-Follows now job h = ground (arith, h)

pub check-Keeps :
    (id now : ℕ) (db : Db)
    → Unique (ids db.scan_runs)
    → Keeps db (held active_job (λ _ d. (raise_if_cancelled id now d).1) id db)
unfolding raise_if_cancelled
check-Keeps id now db u =
    held-Keeps active_job (λ _ d. (raise_if_cancelled id now d).1) id db
      (λ job found act. rw found (elim (Bool-cases (stop_requested job.status)) [
        | inl s ↦ rw s (Keeps-refl db)
        | inr s ↦ rw s (elim (Bool-cases (owner_active db.users job.owner_id)) [
          | inl o ↦
              rw o (save-Keeps id db job (beaten now job) u found (beaten-Follows now job act))
          | inr o ↦
              rw o
                (save-Keeps id db job (requested now job) u found (requested-Follows now job act))
        ])
      ]))

recall-Follows :
    (seen : Payload) (job : ScanRun) → is_active job.status ≡ true → Follows job (recall seen job)
recall-Follows seen job h = ground (arith, h)

-- from the row as the session has it
pub recalled-Follows :
    (seen : Payload) (job new : ScanRun)
    → is_active job.status ≡ true
    → Follows (recall seen job) new
    → Follows job new
recalled-Follows seen job new h f = Follows-trans (recall-Follows seen job h) f

module _ (upper : ℕ → List ℕ) (is_space : ℕ → Bool) where
  published-Follows :
      (report : List ReportItem) (details : List FailureDetail) (failed : ℕ)
      (statuses : List (ℕ × Option RunStatus)) (current : Option ℕ) (job : ScanRun)
      → is_active job.status ≡ true
      → Follows job (publish_live_results upper is_space report details failed statuses current job)
  unfolding publish_live_results
  published-Follows report details failed statuses current job h = ground (arith, h)

  pub publish-Keeps :
      (id : ℕ) (seen : Payload) (report : List ReportItem) (details : List FailureDetail)
      (failed : ℕ) (statuses : List (ℕ × Option RunStatus)) (current : Option ℕ) (db : Db)
      → Unique (ids db.scan_runs)
      → Keeps db (
          held active_job
            (λ job d.
              save_run
                (publish_live_results upper is_space report details failed statuses current
                  (recall seen job))
                d)
            id
            db)
  publish-Keeps id seen report details failed statuses current db u =
      held-Keeps active_job
        (λ job d.
          save_run
            (publish_live_results upper is_space report details failed statuses current
              (recall seen job))
            d)
        id db
        (λ job found act.
          save-Keeps id db job
            (publish_live_results upper is_space report details failed statuses current
              (recall seen job))
            u found
            (recalled-Follows seen job _ act
              (published-Follows report details failed statuses current (recall seen job) act)))

  -- an end of a job, in terms of the row and the tables that it commits
  outcome-Keeps :
      (end : ScanRun → Db → ScanRun × Db)
      → ((job : ScanRun) (db : Db) → (end job db).1.scan_runs ≡ db.scan_runs)
      → ((job : ScanRun) (db : Db) → is_active job.status ≡ true → Follows job (end job db).0)
      → (id : ℕ) (db : Db) → Unique (ids db.scan_runs)
      → Keeps db (held active_job (λ job d. save_outcome (end job d)) id db)
  outcome-Keeps end kept follows id db u =
      held-Keeps active_job (λ job d. save_outcome (end job d)) id db
        (λ job found act.
          held_write-Keeps id db (save_outcome (end job db)) job (end job db).0 u found
            (follows job db act) (ap (map (write (end job db).0)) (kept job db)))

  cancelled_outcome-Follows :
      (now : ℕ) (report : List ReportItem) (failures : List Text) (details : List FailureDetail)
      (job : ScanRun) (db : Db)
      → is_active job.status ≡ true
      → Follows job (cancelled_outcome upper is_space now report failures details job db).0
  unfolding cancelled_outcome
  cancelled_outcome-Follows now report failures details job db act =
      let slept = is_sleep job.payload.cancellation_reason in
      let parts = map (cancelled_part job.id slept) db.project_runs in
      let statuses =
        put_statuses (select (λ (p : ProjectScanRun). p.scan_run_id == job.id) parts)
          job.payload.project_statuses in
      let run = cancelled_run upper is_space now slept statuses report failures details job in
      end-Follows job run _ act refl refl refl refl (ends slept)
        (reanchor-Alike now run (record db { project_runs = parts }))
    where
      ends :
          (slept : Bool)
          → is_terminal (if slept then RunStatus.interrupted_sleep else RunStatus.cancelled) ≡ true
      ends true = refl
      ends false = refl

  completed_outcome-Follows :
      (now : ℕ) (report : List ReportItem) (failures : List Text) (details : List FailureDetail)
      (successes : ℕ) (job : ScanRun) (db : Db)
      → is_active job.status ≡ true
      → Follows job
          (completed_outcome upper is_space now report failures details successes job db).0
  unfolding completed_outcome
  completed_outcome-Follows now report failures details successes job db act =
      let run = completed_run upper is_space now report failures details successes job in
      let o = record_completed_run now run db in
      end-Follows job run _ act refl refl refl refl (final_status-terminal failures successes)
        (Alike-trans run o.0 _ (record_completed-Alike now run db) (reanchor-Alike now o.0 o.1))

  failed_outcome-Follows :
      (now : ℕ) (report : List ReportItem) (details : List FailureDetail) (message : Text)
      (detail : FailureDetail) (job : ScanRun) (db : Db)
      → is_active job.status ≡ true
      → Follows job (failed_outcome upper is_space now report details message detail job db).0
  unfolding failed_outcome
  failed_outcome-Follows now report details message detail job db act =
      let run = failed_run upper is_space now report details message detail job in
      end-Follows job run _ act refl refl refl refl refl (reanchor-Alike now run db)

  pub finish_cancelled-Keeps :
      (id now : ℕ) (seen : Payload) (report : List ReportItem) (failures : List Text)
      (details : List FailureDetail) (db : Db)
      → Unique (ids db.scan_runs)
      → Keeps db (
          held active_job
            (λ job d.
              finish_cancelled_job upper is_space now report failures details (recall seen job) d)
            id
            db)
  unfolding finish_cancelled_job
  finish_cancelled-Keeps id now seen report failures details db u =
      outcome-Keeps
        (λ job d. cancelled_outcome upper is_space now report failures details (recall seen job) d)
        (λ job d.
          (cancelled_outcome-Kept upper is_space now report failures details (recall seen job)
            d).0.1)
        (λ job d act.
          recalled-Follows seen job _ act
            (cancelled_outcome-Follows now report failures details (recall seen job) d act))
        id db u

  pub complete-Keeps :
      (id now : ℕ) (seen : Payload) (report : List ReportItem) (failures : List Text)
      (details : List FailureDetail) (successes : ℕ) (db : Db)
      → Unique (ids db.scan_runs)
      → Keeps db (
          held active_job
            (λ job d.
              complete_job upper is_space now report failures details successes (recall seen job) d)
            id
            db)
  unfolding complete_job
  complete-Keeps id now seen report failures details successes db u =
      outcome-Keeps
        (λ job d.
          completed_outcome upper is_space now report failures details successes (recall seen job)
            d)
        (λ job d.
          (completed_outcome-Kept upper is_space now report failures details successes
            (recall seen job) d).0.1)
        (λ job d act.
          recalled-Follows seen job _ act (
            completed_outcome-Follows now report failures details successes (recall seen job) d
              act))
        id db u

  pub fail-Keeps :
      (id now : ℕ) (seen : Payload) (report : List ReportItem) (details : List FailureDetail)
      (message : Text) (detail : FailureDetail) (db : Db)
      → Unique (ids db.scan_runs)
      → Keeps db (
          held active_job
            (λ job d. fail_job upper is_space now report details message detail (recall seen job) d)
            id
            db)
  unfolding fail_job
  fail-Keeps id now seen report details message detail db u =
      outcome-Keeps
        (λ job d.
          failed_outcome upper is_space now report details message detail (recall seen job) d)
        (λ job d.
          (failed_outcome-Kept upper is_space now report details message detail (recall seen job)
            d).0.1)
        (λ job d act.
          recalled-Follows seen job _ act
            (failed_outcome-Follows now report details message detail (recall seen job) d act))
        id db u
