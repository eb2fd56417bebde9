-- ===== src/Store.antt =====
-- The tables that the scan queue, the scheduler and the worker share (backend/app/models.py), and
-- the JSON payload of a scan run, whose keys are written by job_queue.py, main.py and worker.py.
-- Timestamps are microseconds since the epoch; `isoformat` of one is kept as that number.
mod Status
pub use Status.*
use searchcar_desktop.Base.{ℕ, String, Bool, false, Option, none, List, []}

abbrev pub Text : Type 0
Text = List ℕ

-- One row of a report: the keys that reporting.py and worker.py read or write. The other keys
-- (title, prices, the list of changed fields) ride along unread. A text is its code points; an
-- absent text, None and "" are read alike, and are the empty text.
pub record ReportItem : Type 0 where
  pub change : Change
  pub registration_number : Text
  pub car_id : Option ℕ
  pub encar_id : Text
  pub project_id : Option ℕ
  pub project_name : Text
  pub updated_at : Option ℕ
  pub project_ids : List ℕ
  pub project_names : List Text
  pub encar_ids : List Text

pub record FailureDetail : Type 0 where
  pub scope : Scope
  pub project_id : Option ℕ
  pub car_id : Option ℕ
  pub encar_id : Option String
  pub code : String

pub record Summary : Type 0 where
  pub changed : ℕ
  pub new_items : ℕ
  pub price_changes : ℕ
  pub failed : ℕ

-- A key that is absent and a key that holds None are read alike, both are `none`.
pub record Payload : Type 0 where
  pub project_ids : List ℕ
  pub car_ids : List ℕ
  pub project_id : Option ℕ
  pub current_project_id : Option ℕ
  pub project_statuses : List (ℕ × Option RunStatus)
  pub trigger : Option Trigger
  pub scheduled : Bool
  pub cancellation_reason : Option CancellationReason
  pub cancellation_requested_at : Option ℕ
  pub cancelled_at : Option ℕ
  pub shutdown_requested_at : Option ℕ
  pub interrupted_at : Option ℕ
  pub interruption_reason : Option InterruptionReason
  pub partial_report : Bool
  pub scheduler_reanchored_at : Option ℕ
  pub scheduler_last_completed_run_at : Option ℕ
  pub scheduler_next_run_at : Option ℕ
  pub report : List ReportItem
  pub failures : List FailureDetail
  pub summary : Option Summary

pub record User : Type 0 where
  pub id : ℕ
  pub active : Bool  -- status == "ACTIVE"

-- `updated_at`, a stamp that no operation reads, is left out.
pub record ScanRun : Type 0 where
  pub id : ℕ
  pub owner_id : ℕ
  pub kind : Kind
  pub status : RunStatus
  pub progress : ℕ
  pub payload : Payload
  pub error : Option Text
  pub worker_id : Option String
  pub attempt_count : Option ℕ
  pub started_at : Option ℕ
  pub heartbeat_at : Option ℕ
  pub finished_at : Option ℕ
  pub created_at : ℕ

pub record ProjectScanRun : Type 0 where
  pub id : ℕ
  pub scan_run_id : ℕ
  pub project_id : ℕ
  pub status : Option RunStatus
  pub error_code : Option String

pub record Project : Type 0 where
  pub id : ℕ
  pub owner_id : ℕ
  pub auto_update : Bool

pub record SchedulerSetting : Type 0 where
  pub id : ℕ
  pub user_id : ℕ
  pub enabled : Bool
  pub paused : Bool
  pub interval_minutes : ℕ
  pub next_run_at : Option ℕ
  pub last_completed_run_at : Option ℕ

pub record ScheduledProject : Type 0 where
  pub scheduler_id : ℕ
  pub project_id : ℕ

pub record Db : Type 0 where
  pub users : List User
  pub projects : List Project
  pub scan_runs : List ScanRun
  pub project_runs : List ProjectScanRun
  pub settings : List SchedulerSetting
  pub scheduled_projects : List ScheduledProject
  pub next_id : ℕ  -- the key that the next inserted scan run gets
  pub next_project_run_id : ℕ  -- and the next inserted project run

-- `{}`
abbrev pub empty_payload : Payload
empty_payload = record {
  project_ids = [];
  car_ids = [];
  project_id = none;
  current_project_id = none;
  project_statuses = [];
  trigger = none;
  scheduled = false;
  cancellation_reason = none;
  cancellation_requested_at = none;
  cancelled_at = none;
  shutdown_requested_at = none;
  interrupted_at = none;
  interruption_reason = none;
  partial_report = false;
  scheduler_reanchored_at = none;
  scheduler_last_completed_run_at = none;
  scheduler_next_run_at = none;
  report = [];
  failures = [];
  summary = none;
}
