-- ===== src/Scheduler/Settings.antt =====
-- backend/app/desktop_scheduler.py.
use searchcar_desktop.Base.{
  ℕ, ◌+◌, ◌*◌, Bool, true, false, ◌&&◌, ◌||◌, not, Option, none, some, List, [], ◌∷◌, map,
  if◌then◌else◌, leb, ◌==◌, any, all, select, contains, is_some, or_some,
}
use searchcar_desktop.Store.{Db, SchedulerSetting}
use searchcar_desktop.Queue.Rows.{owner_active}

-- timedelta(minutes=...)
abbrev pub minutes : ℕ → ℕ
minutes n = n * 60_000_000

abbrev pub update_settings : (SchedulerSetting → SchedulerSetting) → Db → Db
update_settings f db = record db { settings = map f db.settings }

-- the WHERE clause that the tray and the poll share
abbrev pub enabled_setting : Db → SchedulerSetting → Bool
enabled_setting db s = s.enabled && owner_active db.users s.user_id

abbrev pub has_projects : Db → SchedulerSetting → Bool
has_projects db s = any (λ p. p.scheduler_id == s.id) db.scheduled_projects

-- membership in `_configured_settings(db)`
unfoldable pub configured : Db → SchedulerSetting → Bool
configured db s = enabled_setting db s && has_projects db s

abbrev pub configured_settings : Db → List SchedulerSetting
configured_settings db = select (configured db) db.settings

-- completed_at + interval <= now, false if no run was completed
abbrev pub interval_over : SchedulerSetting → ℕ → Option ℕ → Bool
interval_over s now none = false
interval_over s now (some completed) = leb (completed + minutes s.interval_minutes) now

unfoldable pub scheduler_is_overdue : ℕ → SchedulerSetting → Bool
scheduler_is_overdue now s = elim s.next_run_at [
  | some t ↦ leb t now
  | none ↦ interval_over s now s.last_completed_run_at
]

unfoldable pub scheduler_is_overdue_after_resume : ℕ → SchedulerSetting → Bool
unfolding scheduler_is_overdue
scheduler_is_overdue_after_resume now s =
    if is_some s.last_completed_run_at
    then interval_over s now s.last_completed_run_at
    else scheduler_is_overdue now s

-- the rows that the catch-up loop does not skip
unfoldable pub catches_up : ℕ → List ℕ → Db → SchedulerSetting → Bool
unfolding configured scheduler_is_overdue_after_resume
catches_up now forced db s =
    configured db s
    && not (
        s.paused
        || (not (contains forced s.user_id) && not (scheduler_is_overdue_after_resume now s)))

unfoldable pub catch_up_row : ℕ → List ℕ → Db → SchedulerSetting → SchedulerSetting
unfolding catches_up
catch_up_row now forced db s =
    if catches_up now forced db s then record s { next_run_at = some now } else s

unfoldable pub prepare_overdue_scheduler_catch_up : ℕ → List ℕ → Db → List ℕ × Db
unfolding catch_up_row
prepare_overdue_scheduler_catch_up now forced db = (
  map (λ s. s.id) (select (catches_up now forced db) db.settings),
  update_settings (catch_up_row now forced db) db,
)

pub record TrayStatus : Type 0 where
  pub enabled : Bool
  pub paused : Bool
  pub next_run_at : Option ℕ

abbrev min_of : Option ℕ → Option ℕ → Option ℕ
min_of none b = b
min_of (some a) none = some a
min_of (some a) (some b) = some (if leb a b then a else b)

-- min(next_runs), None if there is none
unfoldable pub earliest : List SchedulerSetting → Option ℕ
earliest [] = none
earliest (s ∷ ss) = min_of s.next_run_at (earliest ss)

abbrev pub some_setting : List SchedulerSetting → Bool
some_setting [] = false
some_setting (_ ∷ _) = true

unfoldable pub tray_scheduler_status : Db → TrayStatus
unfolding configured earliest
tray_scheduler_status db =
    let settings = configured_settings db in
    record {
      enabled = some_setting settings;
      paused = some_setting settings && all (λ s. s.paused) settings;
      next_run_at = earliest settings;
    }

unfoldable pub toggle_row : Bool → ℕ → Db → SchedulerSetting → SchedulerSetting
unfolding configured
toggle_row pause now db s =
    if configured db s
    then record s {
      paused = pause;
      next_run_at = if pause then s.next_run_at else or_some s.next_run_at now;
    }
    else s

abbrev pub any_running : List SchedulerSetting → Bool
any_running settings = any (λ s. not s.paused) settings

unfoldable pub toggle_all_schedulers : ℕ → Db → TrayStatus × Db
unfolding tray_scheduler_status toggle_row
toggle_all_schedulers now db =
    let settings = configured_settings db in
    let toggled = update_settings (toggle_row (any_running settings) now db) db in
    if some_setting settings
    then (tray_scheduler_status toggled, toggled)
    else (record { enabled = false; paused = false; next_run_at = none }, db)
