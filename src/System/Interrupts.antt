-- ===== src/System/Interrupts.antt =====
-- The interruptions, the deletion of a project and the tray take the rows of scan_runs further.
use searchcar_desktop.Base.{ℕ, String, List, arith}
use searchcar_desktop.Store.{Db, InterruptionReason}
use searchcar_desktop.Queue.Claim.{heartbeat_job, beat_row}
use searchcar_desktop.Queue.Stop.{
  recover_interrupted_jobs, request_shutdown_cancellation, request_sleep_interruption, recover_row,
  shutdown_row, sleep_row,
}
use searchcar_desktop.Queue.Detach.{detach_project_from_active_jobs, detach_if}
use searchcar_desktop.Scheduler.Settings.{prepare_overdue_scheduler_catch_up, toggle_all_schedulers}
use searchcar_desktop.System.Steps.{Keeps, Keeps-refl, same-Keeps, map-Keeps}
use searchcar_desktop.System.Updates.{
  beat_row-Follows, recover_row-Follows, shutdown_row-Follows, sleep_row-Follows, detach_if-Follows,
}

pub heartbeat-Keeps :
    (id : ℕ) (w : String) (now : ℕ) (db : Db) → Keeps db (heartbeat_job id w now db).1
unfolding heartbeat_job
heartbeat-Keeps id w now db = map-Keeps (beat_row id w now) (beat_row-Follows id w now) db.scan_runs

pub recover-Keeps :
    (reason : InterruptionReason) (now : ℕ) (db : Db)
    → Keeps db (recover_interrupted_jobs reason now db).1
unfolding recover_interrupted_jobs
recover-Keeps reason now db =
    map-Keeps (recover_row reason now) (recover_row-Follows reason now) db.scan_runs

pub shutdown-Keeps : (now : ℕ) (db : Db) → Keeps db (request_shutdown_cancellation now db).2
unfolding request_shutdown_cancellation
shutdown-Keeps now db = map-Keeps (shutdown_row now) (shutdown_row-Follows now) db.scan_runs

pub sleep-Keeps : (now : ℕ) (db : Db) → Keeps db (request_sleep_interruption now db).2
unfolding request_sleep_interruption
sleep-Keeps now db = map-Keeps (sleep_row now) (sleep_row-Follows now) db.scan_runs

pub detach-Keeps :
    (owner project now : ℕ) (db : Db)
    → Keeps db (detach_project_from_active_jobs owner project now db).1
unfolding detach_project_from_active_jobs
detach-Keeps owner project now db =
    map-Keeps (detach_if owner project now) (detach_if-Follows owner project now) db.scan_runs

pub catch_up-Keeps :
    (now : ℕ) (forced : List ℕ) (db : Db)
    → Keeps db (prepare_overdue_scheduler_catch_up now forced db).1
unfolding prepare_overdue_scheduler_catch_up
catch_up-Keeps now forced db = Keeps-refl db

pub toggle-Keeps : (now : ℕ) (db : Db) → Keeps db (toggle_all_schedulers now db).1
unfolding toggle_all_schedulers
toggle-Keeps now db = same-Keeps db (toggle_all_schedulers now db).1 (ground arith)
