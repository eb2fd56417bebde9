-- ===== src/Queue/Detach.antt =====
-- `detach_project_from_active_jobs` of backend/app/job_queue.py.
pub mod Gone
use searchcar_desktop.Base.{
  ℕ, Bool, true, false, ◌&&◌, none, some, List, [], ◌∷◌, not, if◌then◌else◌, ◌==◌, or_some, opt_eq,
  select, contains,
}
use searchcar_desktop.Store.{
  Db, ScanRun, Payload, RunStatus, CancellationReason, is_queued, is_unfinished, is_projects,
}
use searchcar_desktop.Queue.Rows.{update_runs, ids, no_changes}

-- the jobs that the loop does not skip
unfoldable pub concerns : ℕ → ℕ → ScanRun → Bool
concerns owner project r =
    r.owner_id == owner
    && is_projects r.kind
    && is_unfinished r.status
    && contains r.payload.project_ids project

unfoldable pub without : ℕ → List ℕ → List ℕ
without project xs = select (λ x. not (x == project)) xs

abbrev pub is_empty : List ℕ → Bool
is_empty [] = true
is_empty (_ ∷ _) = false

abbrev withdrawn : ℕ → List ℕ → Payload → Payload
withdrawn now remaining p = record p {
  project_ids = remaining;
  cancellation_reason = some CancellationReason.project_deleted;
  cancellation_requested_at = some now;
}

-- the body of the loop, once the project is known to be in the payload
unfoldable pub detach_row : ℕ → ℕ → ScanRun → ScanRun
unfolding without
detach_row project now r =
    let remaining = without project r.payload.project_ids in
    if not (is_empty remaining) && not (opt_eq r.payload.current_project_id (some project))
    then record r { payload = record (r.payload) { project_ids = remaining } }
    else if is_queued r.status
    then record r {
      status = RunStatus.cancelled;
      finished_at = some now;
      heartbeat_at = some now;
      worker_id = none;
      payload = record (withdrawn now remaining r.payload) {
        cancelled_at = some now;
        current_project_id = none;
        summary = or_some r.payload.summary no_changes;
      };
    }
    else record r {
      status = RunStatus.cancel_requested;
      payload = withdrawn now remaining r.payload;
    }

unfoldable pub detach_if : ℕ → ℕ → ℕ → ScanRun → ScanRun
unfolding concerns detach_row
detach_if owner project now r = if concerns owner project r then detach_row project now r else r

-- the affected ids come in the order of the table, as the query has no ORDER BY
unfoldable pub detach_project_from_active_jobs : ℕ → ℕ → ℕ → Db → List ℕ × Db
unfolding detach_if concerns
detach_project_from_active_jobs owner project now db = (
  ids (select (concerns owner project) db.scan_runs),
  update_runs (detach_if owner project now) db,
)
