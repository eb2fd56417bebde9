-- ===== src/System/Events.antt =====
-- The transactions, and runs of them. A worker's transaction is of the job that it holds: it
-- applies to an active row and to no other, since of the others only the recovery at the start of
-- the process, when no worker is there yet, ends an active row. The session of the worker keeps its
-- copy of the job over its commits (`expire_on_commit=False`); only the cancellation check reads
-- the row again. What it publishes and how it ends the job goes out from the payload of that copy,
-- which is an argument of the event: any payload, however old.
use searchcar_desktop.Base.{ℕ, String, Bool, Option, none, some, List, [], ◌∷◌, if◌then◌else◌}
use searchcar_desktop.Store.{
  Db, ScanRun, Payload, Kind, RunStatus, ReportItem, FailureDetail, InterruptionReason, Text,
  is_active, is_running,
}
use searchcar_desktop.Queue.Rows.{find_run, save_run}
use searchcar_desktop.Queue.Claim.{claim_next_job, heartbeat_job}
use searchcar_desktop.Queue.Stop.{
  recover_interrupted_jobs, request_shutdown_cancellation, request_sleep_interruption, cancel_scan,
}
use searchcar_desktop.Queue.Detach.{detach_project_from_active_jobs}
use searchcar_desktop.Queue.Enqueue.{enqueue}
use searchcar_desktop.Scheduler.Settings.{prepare_overdue_scheduler_catch_up, toggle_all_schedulers}
use searchcar_desktop.Scheduler.Poll.{enqueue_scheduled}
use searchcar_desktop.Worker.Lifecycle.{start_job, raise_if_cancelled}
use searchcar_desktop.Worker.Outcomes.{
  publish_live_results, finish_cancelled_job, complete_job, fail_job,
}

pub data Event : Type 0 where
  claim : Bool → ℕ → String → Event
  heartbeat : ℕ → String → ℕ → Event
  recover : InterruptionReason → ℕ → Event
  shutdown sleep : ℕ → Event
  cancel : ℕ → ℕ → ℕ → Event
  detach : ℕ → ℕ → ℕ → Event
  request : Bool → Option String → Kind → Payload → ℕ → ℕ → ℕ → Event
  poll : Bool → Bool → ℕ → ℕ → Event
  catch_up : ℕ → List ℕ → Event
  toggle : ℕ → Event
  start check : ℕ → ℕ → Event
  publish :
      ℕ
      → Payload
      → List ReportItem
      → List FailureDetail
      → ℕ
      → List (ℕ × Option RunStatus)
      → Option ℕ
      → Event
  finish_cancelled : ℕ → Payload → ℕ → List ReportItem → List Text → List FailureDetail → Event
  complete : ℕ → Payload → ℕ → List ReportItem → List Text → List FailureDetail → ℕ → Event
  fail : ℕ → Payload → ℕ → List ReportItem → List FailureDetail → Text → FailureDetail → Event

-- the job as the worker's session has it, with the payload that it read last
abbrev pub recall : Payload → ScanRun → ScanRun
recall seen job = record job { payload = seen }

-- a step of the worker on the job that it holds
unfoldable pub held : (ScanRun → Bool) → (ScanRun → Db → Db) → ℕ → Db → Db
held test step id db = elim (find_run id db) [
  | none ↦ db
  | some job ↦ if test job then step job db else db
]

abbrev pub active_job : ScanRun → Bool
active_job job = is_active job.status

abbrev pub running_job : ScanRun → Bool
running_job job = is_running job.status

module _ (upper : ℕ → List ℕ) (is_space : ℕ → Bool) where
  unfoldable pub apply : Event → Db → Db
  unfolding held
  apply (claim m now w) db = (claim_next_job m now w db).1
  apply (heartbeat id w now) db = (heartbeat_job id w now db).1
  apply (recover reason now) db = (recover_interrupted_jobs reason now db).1
  apply (shutdown now) db = (request_shutdown_cancellation now db).2
  apply (sleep now) db = (request_sleep_interruption now db).2
  apply (cancel id user now) db = (cancel_scan id user now db).1
  apply (detach owner project now) db = (detach_project_from_active_jobs owner project now db).1
  apply (request m refusal kind payload owner now created) db =
      (enqueue m refusal kind payload owner now created db).1
  apply (poll m can_run now created) db = enqueue_scheduled m can_run now created db
  apply (catch_up now forced) db = (prepare_overdue_scheduler_catch_up now forced db).1
  apply (toggle now) db = (toggle_all_schedulers now db).1
  apply (start id now) db = held running_job (λ _ d. (start_job id now d).1) id db
  apply (check id now) db = held active_job (λ _ d. (raise_if_cancelled id now d).1) id db
  apply (publish id seen report details failed statuses current) db =
      held active_job
        (λ job d.
          save_run
            (publish_live_results upper is_space report details failed statuses current
              (recall seen job))
            d)
        id db
  apply (finish_cancelled id seen now report failures details) db =
      held active_job
        (λ job d.
          finish_cancelled_job upper is_space now report failures details (recall seen job) d)
        id db
  apply (complete id seen now report failures details successes) db =
      held active_job
        (λ job d.
          complete_job upper is_space now report failures details successes (recall seen job) d)
        id db
  apply (fail id seen now report details message detail) db =
      held active_job
        (λ job d. fail_job upper is_space now report details message detail (recall seen job) d) id
        db

  unfoldable pub run : List Event → Db → Db
  unfolding apply
  run [] db = db
  run (e ∷ es) db = run es (apply e db)
