-- ===== src/Tests/Samples.antt =====
-- Tables with two users, a queue of three runs and a scheduler, and a report of five rows.
use searchcar_desktop.Base.{
  ℕ, Bool, true, false, none, some, List, [], ◌∷◌, text, if◌then◌else◌, ◌-◌, ◌==◌, ◌&&◌, leb,
}
use searchcar_desktop.Store.{
  ScanRun, Payload, Kind, Trigger, RunStatus, Db, SchedulerSetting, ReportItem, Change,
  empty_payload, Text,
}

abbrev pub sample_run : ℕ → ℕ → RunStatus → Payload → ℕ → ScanRun
sample_run id owner status payload created = record {
  id = id;
  owner_id = owner;
  kind = Kind.projects;
  status = status;
  progress = 0;
  payload = payload;
  error = none;
  worker_id = none;
  attempt_count = some 0;
  started_at = none;
  heartbeat_at = none;
  finished_at = none;
  created_at = created;
}

abbrev pub manual_payload : List ℕ → Payload
manual_payload ids = record empty_payload { project_ids = ids; trigger = some Trigger.manual }

abbrev pub auto_payload : List ℕ → Payload
auto_payload ids = record empty_payload {
  project_ids = ids;
  trigger = some Trigger.automatic;
  scheduled = true;
}

-- run 2 is queued first, run 3 belongs to an inactive user
abbrev pub waiting : ScanRun
waiting = sample_run 2 1 RunStatus.queued (auto_payload (10 ∷ 11 ∷ [])) 50

abbrev pub sample_setting : SchedulerSetting
sample_setting = record {
  id = 7;
  user_id = 1;
  enabled = true;
  paused = false;
  interval_minutes = 180;
  next_run_at = some 100;
  last_completed_run_at = none;
}

abbrev pub sample_db : Db
sample_db = record {
  users = (record { id = 1; active = true }) ∷ (record { id = 2; active = false }) ∷ [];
  projects =
      (record { id = 10; owner_id = 1; auto_update = true })
      ∷ (record { id = 11; owner_id = 1; auto_update = true })
      ∷ [];
  scan_runs =
      sample_run 1 1 RunStatus.succeeded empty_payload 10
      ∷ sample_run 3 2 RunStatus.queued empty_payload 40
      ∷ waiting
      ∷ sample_run 4 1 RunStatus.queued (manual_payload (12 ∷ [])) 60
      ∷ [];
  project_runs = [];
  settings = sample_setting ∷ [];
  scheduled_projects =
      (record { scheduler_id = 7; project_id = 10 })
      ∷ (record { scheduler_id = 7; project_id = 11 })
      ∷ [];
  next_id = 5;
  next_project_run_id = 1;
}

-- Unicode's tables on ASCII
abbrev pub ascii_upper : ℕ → List ℕ
ascii_upper c = (if leb b'a' c && leb c b'z' then c - 32 else c) ∷ []

abbrev pub ascii_space : ℕ → Bool
ascii_space c = c == b' '

abbrev pub row : Change → Text → ℕ → ℕ → ReportItem
row change plate car at = record {
  change = change;
  registration_number = plate;
  car_id = some car;
  encar_id = text "e";
  project_id = some 10;
  project_name = text "SUV";
  updated_at = some at;
  project_ids = [];
  project_names = [];
  encar_ids = [];
}

-- rows 1 and 3 are one vehicle under two spellings of its plate
abbrev pub sample_report : List ReportItem
sample_report =
    row Change.price_drop (text "12ga 3456") 1 30
    ∷ row Change.material_update (text "") 2 20
    ∷ row Change.new_listing (text "12GA3456") 3 40
    ∷ row Change.relisted (text "") 4 10
    ∷ []
