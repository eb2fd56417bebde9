-- ===== src/Worker/Rescheduling.antt =====
-- `_reanchor_scheduler_after_manual_projects` and `_record_completed_scheduler_run` of
-- backend/app/worker.py: a finished run moves the timer of its owner's scheduler.
use searchcar_desktop.Base.{
  ℕ, ◌+◌, Bool, ◌&&◌, ◌||◌, Option, none, some, if◌then◌else◌, ◌==◌, find_by, is_some,
}
use searchcar_desktop.Store.{
  Db, ScanRun, SchedulerSetting, is_projects, is_manual, is_automatic, is_succeeded,
}
use searchcar_desktop.Scheduler.Settings.{minutes, has_projects, update_settings}

-- the enabled setting of the owner, if it schedules some project
unfoldable pub setting_of : ℕ → Db → Option SchedulerSetting
setting_of owner db = elim (find_by (λ s. s.user_id == owner && s.enabled) db.settings) [
  | none ↦ none
  | some s ↦ if has_projects db s then some s else none
]

abbrev pub next_after : ℕ → SchedulerSetting → ℕ
next_after finished s = finished + minutes s.interval_minutes

abbrev pub replace_setting : SchedulerSetting → Db → Db
replace_setting t db = update_settings (λ s. if s.id == t.id then t else s) db

abbrev pub reanchored : ScanRun → Bool
reanchored job = is_projects job.kind && (is_manual job.payload.trigger && is_some job.started_at)

unfoldable pub reanchor_with : Option SchedulerSetting → ℕ → ScanRun → Db → ScanRun × Db
reanchor_with none finished job db = (job, db)
reanchor_with (some s) finished job db = (
  record job {
    payload = record (job.payload) {
      scheduler_reanchored_at = some finished;
      scheduler_next_run_at = some (next_after finished s);
    };
  },
  replace_setting (record s { next_run_at = some (next_after finished s) }) db,
)

unfoldable pub reanchor_scheduler : ℕ → ScanRun → Db → ScanRun × Db
unfolding setting_of reanchor_with
reanchor_scheduler finished job db =
    if reanchored job then reanchor_with (setting_of job.owner_id db) finished job db else (job, db)

abbrev pub completes : ScanRun → Bool
completes job =
    is_succeeded job.status
    && (is_projects job.kind
        && (is_manual job.payload.trigger
            || (is_automatic job.payload.trigger || job.payload.scheduled)))

unfoldable pub record_with : Option SchedulerSetting → ℕ → ScanRun → Db → ScanRun × Db
record_with none finished job db = (job, db)
record_with (some s) finished job db = (
  record job {
    payload = record (job.payload) {
      scheduler_last_completed_run_at = some finished;
      scheduler_next_run_at = some (next_after finished s);
    };
  },
  replace_setting
      (record s {
        last_completed_run_at = some finished;
        next_run_at = some (next_after finished s);
      })
      db,
)

unfoldable pub record_completed_run : ℕ → ScanRun → Db → ScanRun × Db
unfolding setting_of record_with
record_completed_run finished job db =
    if completes job then record_with (setting_of job.owner_id db) finished job db else (job, db)
