-- ===== src/Store/Status.antt =====
-- The string constants that the tables hold, and the tests on them.
use searchcar_desktop.Base.{Bool, true, false, Option, none, some, String}

-- the statuses of a scan run and of a project's part of it
pub data RunStatus : Type 0 where
  queued running cancel_requested : RunStatus
  succeeded partial failed cancelled interrupted interrupted_sleep : RunStatus

pub data Kind : Type 0 where
  projects : Kind
  other_kind : String → Kind

pub data Trigger : Type 0 where
  manual automatic : Trigger

pub data CancellationReason : Type 0 where
  project_deleted application_shutdown system_sleep account_inactive : CancellationReason
  merged_into_manual_run : CancellationReason
  other_reason : String → CancellationReason

pub data InterruptionReason : Type 0 where
  application_restarted slept : InterruptionReason
  other_interruption : String → InterruptionReason

pub data Change : Type 0 where
  new_listing price_drop price_increase material_update sold relisted : Change
  not_found_in_search manual_refresh : Change
  other_change : String → Change

pub data Scope : Type 0 where
  project_scope search_car missing_car car_scope run_scope : Scope

-- status in ACTIVE_SCAN_STATUSES
abbrev pub is_active : RunStatus → Bool
is_active running = true
is_active cancel_requested = true
is_active _ = false

-- status in TERMINAL_SCAN_STATUSES
abbrev pub is_terminal : RunStatus → Bool
is_terminal queued = false
is_terminal running = false
is_terminal cancel_requested = false
is_terminal _ = true

abbrev pub is_queued : RunStatus → Bool
is_queued queued = true
is_queued _ = false

abbrev pub is_running : RunStatus → Bool
is_running running = true
is_running _ = false

abbrev pub is_succeeded : RunStatus → Bool
is_succeeded succeeded = true
is_succeeded _ = false

-- status in ("QUEUED", "RUNNING")
abbrev pub is_pending : RunStatus → Bool
is_pending queued = true
is_pending running = true
is_pending _ = false

-- status in ("QUEUED", "RUNNING", "CANCEL_REQUESTED")
abbrev pub is_unfinished : RunStatus → Bool
is_unfinished queued = true
is_unfinished running = true
is_unfinished cancel_requested = true
is_unfinished _ = false

-- the same test on a nullable column
abbrev pub opt_pending : Option RunStatus → Bool
opt_pending none = false
opt_pending (some s) = is_pending s

abbrev pub is_projects : Kind → Bool
is_projects projects = true
is_projects (other_kind _) = false

abbrev pub is_manual : Option Trigger → Bool
is_manual (some manual) = true
is_manual _ = false

abbrev pub is_automatic : Option Trigger → Bool
is_automatic (some automatic) = true
is_automatic _ = false

abbrev pub is_sleep : Option CancellationReason → Bool
is_sleep (some system_sleep) = true
is_sleep _ = false
