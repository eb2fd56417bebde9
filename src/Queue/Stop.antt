-- ===== src/Queue/Stop.antt =====
-- `recover_interrupted_jobs`, `request_shutdown_cancellation` and `request_sleep_interruption`
-- of backend/app/job_queue.py, and `cancel_scan` of backend/app/main.py.
pub mod Recovery
pub mod Shutdown
pub mod Sleep
pub mod Cancel
use searchcar_desktop.Base.{
  ℕ, Bool, ◌&&◌, ◌||◌, Option, none, some, List, [], ◌∷◌, ◌++◌, if◌then◌else◌, ◌==◌, not, or_some,
  select, contains, text,
}
use searchcar_desktop.Store.{
  Db, ScanRun, Payload, RunStatus, InterruptionReason, CancellationReason, is_active, is_queued,
  is_running, is_pending, is_automatic,
}
use searchcar_desktop.Queue.Rows.{
  update_runs, find_run, save_run, row_active, ids, order_by_id, no_changes, close_project_runs,
}

unfoldable pub recover_row : InterruptionReason → ℕ → ScanRun → ScanRun
recover_row reason now r =
    if is_active r.status
    then record r {
      status = RunStatus.interrupted;
      payload = record (r.payload) {
        current_project_id = none;
        interrupted_at = some now;
        interruption_reason = some reason;
      };
      error = or_some r.error (text "Application stopped before the scan finished");
      finished_at = some now;
      heartbeat_at = some now;
      worker_id = none;
    }
    else r

-- the ids of the rows that a test selects, ORDER BY id
abbrev pub selected_ids : (ScanRun → Bool) → Db → List ℕ
selected_ids p db = ids (order_by_id (select p db.scan_runs))

unfoldable pub recover_interrupted_jobs : InterruptionReason → ℕ → Db → List ℕ × Db
unfolding recover_row order_by_id
recover_interrupted_jobs reason now db =
    let recovered = selected_ids row_active db in
    (
      recovered,
      close_project_runs recovered RunStatus.interrupted (λ code. or_some code "APP_INTERRUPTED")
          (update_runs (recover_row reason now) db),
    )

abbrev pub row_pending : ScanRun → Bool
row_pending r = is_pending r.status

abbrev pub row_queued : ScanRun → Bool
row_queued r = is_queued r.status

abbrev pub row_running : ScanRun → Bool
row_running r = is_running r.status

abbrev shutdown_payload : ℕ → Payload → Payload
shutdown_payload now p = record p {
  shutdown_requested_at = some now;
  cancellation_reason = some CancellationReason.application_shutdown;
}

unfoldable pub shutdown_row : ℕ → ScanRun → ScanRun
shutdown_row now r =
    if is_queued r.status
    then record r {
      status = RunStatus.cancelled;
      payload = shutdown_payload now r.payload;
      finished_at = some now;
      heartbeat_at = some now;
      worker_id = none;
    }
    else if is_running r.status
    then record r {
      status = RunStatus.cancel_requested;
      payload = shutdown_payload now r.payload;
      heartbeat_at = some now;
    }
    else r

-- the two lists of the result: cancelled, cancel_requested
unfoldable pub request_shutdown_cancellation : ℕ → Db → List ℕ × List ℕ × Db
unfolding shutdown_row order_by_id
request_shutdown_cancellation now db =
    let cancelled_ids = selected_ids row_queued db in
    (
      cancelled_ids,
      selected_ids row_running db,
      close_project_runs cancelled_ids RunStatus.cancelled (λ _. none)
          (update_runs (shutdown_row now) db),
    )

unfoldable pub sleep_row : ℕ → ScanRun → ScanRun
sleep_row now r =
    if is_running r.status
    then record r {
      status = RunStatus.cancel_requested;
      heartbeat_at = some now;
      payload = record (r.payload) {
        cancellation_reason = some CancellationReason.system_sleep;
        cancellation_requested_at = some now;
      };
    }
    else r

abbrev pub row_automatic : ScanRun → Bool
row_automatic r = is_automatic r.payload.trigger || r.payload.scheduled

-- the owners of automatic runs, each appended once
unfoldable pub catch_up_owners : List ℕ → List ScanRun → List ℕ
catch_up_owners owners [] = owners
catch_up_owners owners (r ∷ rs) =
    catch_up_owners
      (if row_automatic r && not (contains owners r.owner_id)
        then owners ++ r.owner_id ∷ []
        else owners)
      rs

-- the two lists of the result: cancel_requested, catch_up_owner_ids
unfoldable pub request_sleep_interruption : ℕ → Db → List ℕ × List ℕ × Db
unfolding sleep_row order_by_id catch_up_owners
request_sleep_interruption now db = (
  selected_ids row_running db,
  catch_up_owners [] (order_by_id (select row_running db.scan_runs)),
  update_runs (sleep_row now) db,
)

pub data CancelReply : Type 0 where
  cancel_status : ℕ → RunStatus → CancelReply
  scan_not_found : CancelReply
  scan_already_finished : CancelReply

abbrev pub user_cancelled : ℕ → ScanRun → ScanRun
user_cancelled now r = record r {
  status = RunStatus.cancelled;
  finished_at = some now;
  payload = record (r.payload) {
    cancellation_requested_at = some now;
    cancelled_at = some now;
    current_project_id = none;
    summary = or_some r.payload.summary no_changes;
  };
}

abbrev pub user_requested : ℕ → ScanRun → ScanRun
user_requested now r = record r {
  status = RunStatus.cancel_requested;
  payload = record (r.payload) { cancellation_requested_at = some now };
}

-- the rest of the handler, by the status of the run that was found
unfoldable pub cancel_by_status : RunStatus → ScanRun → ℕ → Db → CancelReply × Db
cancel_by_status RunStatus.cancelled r now db = (cancel_status r.id RunStatus.cancelled, db)
cancel_by_status RunStatus.cancel_requested r now db =
    (cancel_status r.id RunStatus.cancel_requested, db)
cancel_by_status RunStatus.queued r now db =
    (cancel_status r.id RunStatus.cancelled, save_run (user_cancelled now r) db)
cancel_by_status RunStatus.running r now db =
    (cancel_status r.id RunStatus.cancel_requested, save_run (user_requested now r) db)
cancel_by_status _ r now db = (scan_already_finished, db)

unfoldable pub cancel_found : Option ScanRun → ℕ → ℕ → Db → CancelReply × Db
unfolding cancel_by_status
cancel_found none user now db = (scan_not_found, db)
cancel_found (some r) user now db =
    if r.owner_id == user then cancel_by_status r.status r now db else (scan_not_found, db)

-- `user` is the caller, whose runs alone are found; the audit entry is left out
unfoldable pub cancel_scan : ℕ → ℕ → ℕ → Db → CancelReply × Db
unfolding cancel_found
cancel_scan id user now db = cancel_found (find_run id db) user now db
