-- ===== src/System/Outcomes.antt =====
-- The publication and the ends of a job keep the invariant of scan_runs.
use searchcar_desktop.Base.{
  ℕ, ◌≡◌, refl, ◌∙◌, ap, inl, inr, Bool, true, false, Option, none, some, List, map, ◌==◌, select,
  if◌then◌else◌, Bool-cases,
}
use searchcar_desktop.Store.{
  Payload, Db, ScanRun, RunStatus, SchedulerSetting, ReportItem, FailureDetail, Text,
  ProjectScanRun, is_terminal, is_sleep,
}
use searchcar_desktop.Queue.Rows.{save_run}
use searchcar_desktop.Queue.Invariant.{IsValid}
use searchcar_desktop.Queue.Counting.{write}
use searchcar_desktop.Worker.Rescheduling.{
  setting_of, reanchored, reanchor_with, reanchor_scheduler, completes, record_with,
  record_completed_run,
}
use searchcar_desktop.Worker.Outcomes.{
  publish_live_results, finish_cancelled_job, complete_job, fail_job, final_status, cancelled_run,
  cancelled_part, completed_run, failed_run, put_statuses, cancelled_outcome, completed_outcome,
  failed_outcome, save_outcome,
}
use searchcar_desktop.System.Events.{held, recall, active_job}
use searchcar_desktop.System.Worker.{held-IsValid, held_write-IsValid}

-- moving the timer of the scheduler leaves the runs alone, and the id and status of the job
abbrev pub Kept : ScanRun → Db → ScanRun × Db → Type 0
Kept job db (job', db') =
    (job'.id ≡ job.id)
    × (job'.status ≡ job.status)
    × (db'.scan_runs ≡ db.scan_runs)
    × (db'.next_id ≡ db.next_id)

-- the part of it that the commit of a job needs
abbrev pub KeptRow : ScanRun → Db → ScanRun × Db → Type 0
KeptRow job db (job', db') =
    (job'.id ≡ job.id) × (db'.scan_runs ≡ db.scan_runs) × (db'.next_id ≡ db.next_id)

pub reanchor-Kept :
    (now : ℕ) (job : ScanRun) (db : Db) → Kept job db (reanchor_scheduler now job db)
unfolding reanchor_scheduler
reanchor-Kept now job db = elim (Bool-cases (reanchored job)) [
  | inl e ↦ rw e (with_setting (setting_of job.owner_id db))
  | inr e ↦ rw e (refl, refl, refl, refl)
]
  where
    with_setting : (o : Option SchedulerSetting) → Kept job db (reanchor_with o now job db)
    with_setting none = (refl, refl, refl, refl)
    with_setting (some s) = (refl, refl, refl, refl)

pub record_completed-Kept :
    (now : ℕ) (job : ScanRun) (db : Db) → Kept job db (record_completed_run now job db)
unfolding record_completed_run
record_completed-Kept now job db = elim (Bool-cases (completes job)) [
  | inl e ↦ rw e (with_setting (setting_of job.owner_id db))
  | inr e ↦ rw e (refl, refl, refl, refl)
]
  where
    with_setting : (o : Option SchedulerSetting) → Kept job db (record_with o now job db)
    with_setting none = (refl, refl, refl, refl)
    with_setting (some s) = (refl, refl, refl, refl)

module _ (upper : ℕ → List ℕ) (is_space : ℕ → Bool) where
  pub publish-IsValid :
      (id : ℕ) (seen : Payload) (report : List ReportItem) (details : List FailureDetail)
      (failed : ℕ) (statuses : List (ℕ × Option RunStatus)) (current : Option ℕ) (db : Db)
      → IsValid db
      → IsValid (
          held active_job
            (λ job d.
              save_run
                (publish_live_results upper is_space report details failed statuses current
                  (recall seen job))
                d)
            id
            db)
  unfolding publish_live_results
  publish-IsValid id seen report details failed statuses current db v =
      held-IsValid active_job
        (λ job d.
          save_run
            (publish_live_results upper is_space report details failed statuses current
              (recall seen job))
            d)
        id db
        (λ job found act.
          held_write-IsValid id db _ job
            (publish_live_results upper is_space report details failed statuses current
              (recall seen job))
            found act refl refl refl v)
        v

  -- an end of a job, in terms of the row and the tables that it commits
  outcome-IsValid :
      (end : ScanRun → Db → ScanRun × Db)
      → ((job : ScanRun) (db : Db) → KeptRow job db (end job db))
      → (id : ℕ) (db : Db) → IsValid db
      → IsValid (held active_job (λ job d. save_outcome (end job d)) id db)
  outcome-IsValid end kept id db v =
      held-IsValid active_job (λ job d. save_outcome (end job d)) id db
        (λ job found act.
          let k = kept job db in
          held_write-IsValid id db (save_outcome (end job db)) job (end job db).0 found act k.0
            (ap (map (write (end job db).0)) k.1) k.2 v)
        v

  pub cancelled_outcome-Kept :
      (now : ℕ) (report : List ReportItem) (failures : List Text) (details : List FailureDetail)
      (job : ScanRun) (db : Db)
      → let o = cancelled_outcome upper is_space now report failures details job db in
        KeptRow job db o × (is_terminal (o.0).status ≡ true)
  unfolding cancelled_outcome
  cancelled_outcome-Kept now report failures details job db =
      let slept = is_sleep job.payload.cancellation_reason in
      let parts = map (cancelled_part job.id slept) db.project_runs in
      let statuses =
        put_statuses (select (λ (p : ProjectScanRun). p.scan_run_id == job.id) parts)
          job.payload.project_statuses in
      let run = cancelled_run upper is_space now slept statuses report failures details job in
      let k = reanchor-Kept now run (record db { project_runs = parts }) in
      ((k.0, k.2, k.3), rw k.1 (ends slept))
    where
      ends :
          (slept : Bool)
          → is_terminal (if slept then RunStatus.interrupted_sleep else RunStatus.cancelled) ≡ true
      ends true = refl
      ends false = refl

  pub completed_outcome-Kept :
      (now : ℕ) (report : List ReportItem) (failures : List Text) (details : List FailureDetail)
      (successes : ℕ) (job : ScanRun) (db : Db)
      → let o = completed_outcome upper is_space now report failures details successes job db in
        KeptRow job db o × ((o.0).status ≡ final_status failures successes)
  unfolding completed_outcome
  completed_outcome-Kept now report failures details successes job db =
      let run = completed_run upper is_space now report failures details successes job in
      let r = record_completed-Kept now run db in
      let o = record_completed_run now run db in
      let k = reanchor-Kept now o.0 o.1 in ((k.0 ∙ r.0, k.2 ∙ r.2, k.3 ∙ r.3), k.1 ∙ r.1)

  pub failed_outcome-Kept :
      (now : ℕ) (report : List ReportItem) (details : List FailureDetail) (message : Text)
      (detail : FailureDetail) (job : ScanRun) (db : Db)
      → let o = failed_outcome upper is_space now report details message detail job db in
        KeptRow job db o × ((o.0).status ≡ RunStatus.failed)
  unfolding failed_outcome
  failed_outcome-Kept now report details message detail job db =
      let k =
        reanchor-Kept now (failed_run upper is_space now report details message detail job) db in
      ((k.0, k.2, k.3), k.1)

  pub finish_cancelled-IsValid :
      (id now : ℕ) (seen : Payload) (report : List ReportItem) (failures : List Text)
      (details : List FailureDetail) (db : Db)
      → IsValid db
      → IsValid (
          held active_job
            (λ job d.
              finish_cancelled_job upper is_space now report failures details (recall seen job) d)
            id
            db)
  unfolding finish_cancelled_job
  finish_cancelled-IsValid id now seen report failures details db v =
      outcome-IsValid
        (λ job d. cancelled_outcome upper is_space now report failures details (recall seen job) d)
        (λ job d. (cancelled_outcome-Kept now report failures details (recall seen job) d).0) id db
        v

  pub complete-IsValid :
      (id now : ℕ) (seen : Payload) (report : List ReportItem) (failures : List Text)
      (details : List FailureDetail) (successes : ℕ) (db : Db)
      → IsValid db
      → IsValid (
          held active_job
            (λ job d.
              complete_job upper is_space now report failures details successes (recall seen job) d)
            id
            db)
  unfolding complete_job
  complete-IsValid id now seen report failures details successes db v =
      outcome-IsValid
        (λ job d.
          completed_outcome upper is_space now report failures details successes (recall seen job)
            d)
        (λ job d.
          (completed_outcome-Kept now report failures details successes (recall seen job) d).0)
        id db v

  pub fail-IsValid :
      (id now : ℕ) (seen : Payload) (report : List ReportItem) (details : List FailureDetail)
      (message : Text) (detail : FailureDetail) (db : Db)
      → IsValid db
      → IsValid (
          held active_job
            (λ job d. fail_job upper is_space now report details message detail (recall seen job) d)
            id
            db)
  unfolding fail_job
  fail-IsValid id now seen report details message detail db v =
      outcome-IsValid
        (λ job d.
          failed_outcome upper is_space now report details message detail (recall seen job) d)
        (λ job d. (failed_outcome-Kept now report details message detail (recall seen job) d).0) id
        db v
