-- ===== src/Scheduler/Poll.antt =====
-- `enqueue_scheduled` of backend/app/worker.py: on each poll the worker queues a run for every
-- enabled scheduler that is due, unless its owner has unfinished work.
use searchcar_desktop.Base.{
  ℕ, ◌+◌, Bool, true, false, ◌&&◌, none, some, List, [], ◌∷◌, map, if◌then◌else◌, ltb, ◌==◌, any,
  select,
}
use searchcar_desktop.Store.{
  Db, Kind, Trigger, SchedulerSetting, ScheduledProject, Payload, empty_payload,
}
use searchcar_desktop.Queue.Enqueue.{owned_unfinished, insert_run}
use searchcar_desktop.Queue.Detach.{is_empty}
use searchcar_desktop.Scheduler.Settings.{minutes, enabled_setting}

-- JOIN projects, with the owner and auto_update
abbrev updatable : Db → SchedulerSetting → ScheduledProject → Bool
updatable db s p =
    p.scheduler_id == s.id
    && any (λ q. q.id == p.project_id && (q.owner_id == s.user_id && q.auto_update)) db.projects

unfoldable pub due_project_ids : Db → SchedulerSetting → List ℕ
due_project_ids db s = map (λ p. p.project_id) (select (updatable db s) db.scheduled_projects)

abbrev pub automatic_payload : List ℕ → Payload
automatic_payload ids = record empty_payload {
  project_ids = ids;
  scheduled = true;
  trigger = some Trigger.automatic;
}

-- the next regular time of a scheduler
abbrev pub rescheduled : ℕ → SchedulerSetting → SchedulerSetting
rescheduled now s = record s { next_run_at = some (now + minutes s.interval_minutes) }

-- the rest of the loop's body for a setting that is due
unfoldable pub run_due : ℕ → ℕ → SchedulerSetting → Db → SchedulerSetting × Db
unfolding due_project_ids insert_run
run_due now created s db =
    let ids = due_project_ids db s in
    if is_empty ids then (record s { enabled = false; next_run_at = none }, db) else (
      rescheduled now s,
      if any (owned_unfinished s.user_id) db.scan_runs
          then db
          else insert_run Kind.projects (automatic_payload ids) s.user_id created db,
    )

-- the body of the loop
unfoldable pub poll_setting : Bool → ℕ → ℕ → SchedulerSetting → Db → SchedulerSetting × Db
unfolding run_due
poll_setting can_run now created s db = if s.paused then (s, db) else elim s.next_run_at [
  | none ↦ (rescheduled now s, db)
  | some t ↦
      if ltb now t
      then (s, db)
      else if can_run
      then run_due now created s db
      else (rescheduled now s, db)
]

unfoldable pub poll_if : Bool → ℕ → ℕ → Db → SchedulerSetting → Db → SchedulerSetting × Db
unfolding poll_setting
poll_if can_run now created start s db =
    if enabled_setting start s then poll_setting can_run now created s db else (s, db)

-- the loop; `start` are the tables that the first query has read
unfoldable pub poll_settings :
    Bool → ℕ → ℕ → Db → List SchedulerSetting → Db → List SchedulerSetting × Db
unfolding poll_if
poll_settings can_run now created start [] db = ([], db)
poll_settings can_run now created start (s ∷ ss) db =
    let (t, db') = poll_if can_run now created start s db in
    let (ts, db'') = poll_settings can_run now created start ss db' in (t ∷ ts, db'')

-- `can_run` says that `require_search_entitlement` raised no error
unfoldable pub enqueue_scheduled : Bool → Bool → ℕ → ℕ → Db → Db
unfolding poll_settings
enqueue_scheduled maintenance can_run now created db =
    let (settings, polled) = poll_settings can_run now created db db.settings db in
    if maintenance then db else record polled { settings = settings }
