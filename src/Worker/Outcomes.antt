-- ===== src/Worker/Outcomes.antt =====
-- What the worker of backend/app/worker.py publishes of a job, and the three ends of a job.
-- Each writer of a payload copies the dict and removes no key, so `{**payload, **job.payload}`
-- and `job.payload or payload` are the payload of the job.
use searchcar_desktop.Base.{
  ℕ, ◌+◌, Bool, true, false, ◌&&◌, Option, none, some, List, [], ◌∷◌, ◌++◌, map, if◌then◌else◌,
  ◌==◌, select, count_by, length, text, join_lines, is_blank, is_some,
}
use searchcar_desktop.Store.{
  Db, ScanRun, ProjectScanRun, Payload, Summary, ReportItem, FailureDetail, RunStatus, Change,
  InterruptionReason, Text, opt_pending, is_sleep,
}
use searchcar_desktop.Queue.Rows.{save_run}
use searchcar_desktop.Report.Dedupe.{dedupe_report}
use searchcar_desktop.Worker.Rescheduling.{reanchor_scheduler, record_completed_run}

abbrev is_new : Change → Bool
is_new Change.new_listing = true
is_new _ = false

abbrev is_price_change : Change → Bool
is_price_change Change.price_drop = true
is_price_change Change.price_increase = true
is_price_change _ = false

-- the counts that every end of a job stores beside its report
unfoldable pub summary_of : List ReportItem → ℕ → Summary
summary_of report failed = record {
  changed = length report;
  new_items = count_by (λ i. is_new i.change) report;
  price_changes = count_by (λ i. is_price_change i.change) report;
  failed = failed;
}

-- `"\n".join(failures)`, None if that is empty
abbrev pub joined : List Text → Option Text
joined failures = let t = join_lines failures in if is_blank t then none else some t

-- the commit of the job beside the other tables
abbrev pub save_outcome : ScanRun × Db → Db
save_outcome (job, db) = save_run job db

-- `project_statuses[str(project_id)] = status`
unfoldable pub put_status :
    ℕ → Option RunStatus → List (ℕ × Option RunStatus) → List (ℕ × Option RunStatus)
put_status p s [] = (p, s) ∷ []
put_status p s ((q, t) ∷ rest) = if p == q then (p, s) ∷ rest else (q, t) ∷ put_status p s rest

unfoldable pub put_statuses :
    List ProjectScanRun → List (ℕ × Option RunStatus) → List (ℕ × Option RunStatus)
unfolding put_status
put_statuses [] statuses = statuses
put_statuses (r ∷ rs) statuses = put_statuses rs (put_status r.project_id r.status statuses)

-- SUCCEEDED, PARTIAL or FAILED
abbrev pub final_status : List Text → ℕ → RunStatus
final_status [] successes = RunStatus.succeeded
final_status (_ ∷ _) successes = if successes == 0 then RunStatus.failed else RunStatus.partial

abbrev pub cancelled_part : ℕ → Bool → ProjectScanRun → ProjectScanRun
cancelled_part run slept p =
    if p.scan_run_id == run && opt_pending p.status
    then record p {
      status = some (if slept then RunStatus.interrupted_sleep else RunStatus.cancelled);
      error_code = if slept then some "SYSTEM_SLEEP" else none;
    }
    else p

module _ (upper : ℕ → List ℕ) (is_space : ℕ → Bool) where
  abbrev pub deduped : List ReportItem → List ReportItem
  deduped report = dedupe_report upper is_space report

  -- `_publish_live_results`
  unfoldable pub publish_live_results :
      List ReportItem
      → List FailureDetail
      → ℕ
      → List (ℕ × Option RunStatus)
      → Option ℕ
      → ScanRun
      → ScanRun
  unfolding dedupe_report summary_of
  publish_live_results report details failed statuses current job = record job {
    payload = record (job.payload) {
      current_project_id = current;
      project_statuses = statuses;
      report = deduped report;
      failures = details;
      summary = some (summary_of (deduped report) failed);
    };
  }

  abbrev pub cancelled_payload :
      ℕ
      → Bool
      → List (ℕ × Option RunStatus)
      → List ReportItem
      → List FailureDetail
      → ℕ
      → Payload
      → Payload
  cancelled_payload now slept statuses report details failed p = record p {
    current_project_id = none;
    project_statuses = statuses;
    interrupted_at = if slept then some now else p.interrupted_at;
    interruption_reason = if slept then some InterruptionReason.slept else p.interruption_reason;
    partial_report = if slept then true else p.partial_report;
    cancelled_at = if slept then p.cancelled_at else some now;
    report = deduped report;
    failures = details;
    summary = some (summary_of (deduped report) failed);
  }

  abbrev pub cancelled_run :
      ℕ
      → Bool
      → List (ℕ × Option RunStatus)
      → List ReportItem
      → List Text
      → List FailureDetail
      → ScanRun
      → ScanRun
  cancelled_run now slept statuses report failures details job = record job {
    status = if slept then RunStatus.interrupted_sleep else RunStatus.cancelled;
    finished_at = some now;
    heartbeat_at = some now;
    error =
        if is_some (joined failures)
        then joined failures
        else if slept
        then some (text "Computer entered sleep before the scan finished")
        else none;
    payload = cancelled_payload now slept statuses report details (length failures) job.payload;
  }

  -- what `_finish_cancelled_job` makes of the job and of the other tables
  unfoldable pub cancelled_outcome :
      ℕ → List ReportItem → List Text → List FailureDetail → ScanRun → Db → ScanRun × Db
  unfolding dedupe_report summary_of put_statuses reanchor_scheduler
  cancelled_outcome now report failures details job db =
      let slept = is_sleep job.payload.cancellation_reason in
      let parts = map (cancelled_part job.id slept) db.project_runs in
      let statuses =
        put_statuses (select (λ p. p.scan_run_id == job.id) parts) job.payload.project_statuses in
      reanchor_scheduler now (cancelled_run now slept statuses report failures details job)
        (record db { project_runs = parts })

  -- `_finish_cancelled_job`
  unfoldable pub finish_cancelled_job :
      ℕ → List ReportItem → List Text → List FailureDetail → ScanRun → Db → Db
  unfolding cancelled_outcome
  finish_cancelled_job now report failures details job db =
      save_outcome (cancelled_outcome now report failures details job db)

  abbrev pub completed_run :
      ℕ → List ReportItem → List Text → List FailureDetail → ℕ → ScanRun → ScanRun
  completed_run now report failures details successes job = record job {
    progress = 100;
    error = joined failures;
    status = final_status failures successes;
    finished_at = some now;
    heartbeat_at = some now;
    payload = record (job.payload) {
      report = deduped report;
      failures = details;
      summary = some (summary_of (deduped report) (length failures));
    };
  }

  unfoldable pub completed_outcome :
      ℕ → List ReportItem → List Text → List FailureDetail → ℕ → ScanRun → Db → ScanRun × Db
  unfolding dedupe_report summary_of record_completed_run reanchor_scheduler
  completed_outcome now report failures details successes job db =
      let (recorded, db') =
        record_completed_run now (completed_run now report failures details successes job) db in
      reanchor_scheduler now recorded db'

  -- the normal end of `process_job`, after its last cancellation check
  unfoldable pub complete_job :
      ℕ → List ReportItem → List Text → List FailureDetail → ℕ → ScanRun → Db → Db
  unfolding completed_outcome
  complete_job now report failures details successes job db =
      save_outcome (completed_outcome now report failures details successes job db)

  abbrev pub failed_run :
      ℕ → List ReportItem → List FailureDetail → Text → FailureDetail → ScanRun → ScanRun
  failed_run now report details message detail job = record job {
    status = RunStatus.failed;
    finished_at = some now;
    heartbeat_at = some now;
    error = some message;
    payload = record (job.payload) {
      report = deduped report;
      failures = details ++ detail ∷ [];
      summary = some (summary_of (deduped report) (length details + 1));
    };
  }

  unfoldable pub failed_outcome :
      ℕ → List ReportItem → List FailureDetail → Text → FailureDetail → ScanRun → Db → ScanRun × Db
  unfolding dedupe_report summary_of reanchor_scheduler
  failed_outcome now report details message detail job db =
      reanchor_scheduler now (failed_run now report details message detail job) db

  -- the `except Exception` of `process_job`; `message` and `detail` describe the exception
  unfoldable pub fail_job :
      ℕ → List ReportItem → List FailureDetail → Text → FailureDetail → ScanRun → Db → Db
  unfolding failed_outcome
  fail_job now report details message detail job db =
      save_outcome (failed_outcome now report details message detail job db)
