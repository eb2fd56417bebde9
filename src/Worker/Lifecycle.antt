-- ===== src/Worker/Lifecycle.antt =====
-- How `process_job` of backend/app/worker.py starts a job, and the cancellation check between its
-- steps. Each writer of a payload copies the dict and removes no key, so `job.payload or payload` is
-- the payload of the job.
use searchcar_desktop.Base.{
  ℕ, suc, ◌+◌, Bool, true, false, ◌&&◌, not, Option, none, some, List, [], ◌∷◌, ◌++◌, if◌then◌else◌,
  ◌==◌, any, or_else, or_some, unique_onto,
}
use searchcar_desktop.Store.{
  Db, ScanRun, ProjectScanRun, Payload, RunStatus, CancellationReason, is_queued, is_pending,
}
use searchcar_desktop.Queue.Rows.{owner_active, find_run, save_run}
use searchcar_desktop.Queue.Detach.{is_empty}

-- `_owned_project(db, project_id, owner_id)` is not None
abbrev pub owned_project : Db → ℕ → ℕ → Bool
owned_project db owner id = any (λ p. p.id == id && p.owner_id == owner) db.projects

-- the projects that the job scans
unfoldable pub job_projects : Payload → List ℕ
job_projects p = elim p.project_id [
  | none ↦ unique_onto [] p.project_ids
  | some id ↦ if not (id == 0) && is_empty p.car_ids then id ∷ [] else unique_onto [] p.project_ids
]

abbrev pub queued_part : ℕ → ℕ → ℕ → ProjectScanRun
queued_part id run project = record {
  id = id;
  scan_run_id = run;
  project_id = project;
  status = some RunStatus.queued;
  error_code = none;
}

-- a queued project run, if the project is the owner's
abbrev pub add_part : ℕ → ℕ → ℕ → Db → Db
add_part run owner p db =
    if owned_project db owner p
    then record db {
      project_runs = db.project_runs ++ queued_part db.next_project_run_id run p ∷ [];
      next_project_run_id = suc db.next_project_run_id;
    }
    else db

unfoldable pub add_parts : ℕ → ℕ → List ℕ → Db → Db
add_parts run owner [] db = db
add_parts run owner (p ∷ ps) db = add_parts run owner ps (add_part run owner p db)

pub data Start : Type 0 where
  not_started owner_inactive started : Start

abbrev pub inactive_run : ℕ → ScanRun → ScanRun
inactive_run now job = record job {
  status = RunStatus.cancelled;
  finished_at = some now;
  heartbeat_at = some now;
  payload = record (job.payload) {
    cancelled_at = some now;
    cancellation_reason = some CancellationReason.account_inactive;
  };
}

abbrev pub started_run : ℕ → ScanRun → ScanRun
started_run now job = record job {
  status = RunStatus.running;
  attempt_count =
      if is_queued job.status then some (or_else job.attempt_count 0 + 1) else job.attempt_count;
  started_at = or_some job.started_at now;
  heartbeat_at = some now;
}

unfoldable pub start_found : Option ScanRun → ℕ → Db → Start × Db
start_found none now db = (not_started, db)
start_found (some job) now db =
    if not (is_pending job.status)
    then (not_started, db)
    else if not (owner_active db.users job.owner_id)
    then (owner_inactive, save_run (inactive_run now job) db)
    else (
      started,
      add_parts job.id job.owner_id (job_projects job.payload) (save_run (started_run now job) db),
    )

-- the head of `process_job`
unfoldable pub start_job : ℕ → ℕ → Db → Start × Db
unfolding start_found add_parts job_projects
start_job id now db = start_found (find_run id db) now db

pub data Check : Type 0 where
  go_on scan_cancelled row_missing : Check

abbrev pub stop_requested : RunStatus → Bool
stop_requested RunStatus.cancel_requested = true
stop_requested RunStatus.cancelled = true
stop_requested _ = false

unfoldable pub check_found : Option ScanRun → ℕ → Db → Check × Db
check_found none now db = (row_missing, db)
check_found (some job) now db =
    if stop_requested job.status
    then (scan_cancelled, db)
    else if owner_active db.users job.owner_id
    then (go_on, save_run (record job { heartbeat_at = some now }) db)
    else (
      scan_cancelled,
      save_run (record job { status = RunStatus.cancel_requested; heartbeat_at = some now }) db,
    )

-- `_raise_if_cancelled`, which refreshes the job first
unfoldable pub raise_if_cancelled : ℕ → ℕ → Db → Check × Db
unfolding check_found
raise_if_cancelled id now db = check_found (find_run id db) now db
