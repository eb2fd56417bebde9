-- ===== src/Tests/StopTests.antt =====
-- Interruptions of the queue while the worker holds run 2 of the sample tables.
use searchcar_desktop.Base.{
  ℕ, ◌≡◌, refl, inl, true, false, none, some, [], ◌∷◌, arith, any, is_some, contains,
}
use searchcar_desktop.Store.{Db, ScanRun, RunStatus, InterruptionReason}
use searchcar_desktop.Queue.Rows.{ids, row_active, active_count}
use searchcar_desktop.Queue.Invariant.{Unique}
use searchcar_desktop.Queue.Selected.{AreIds, Closed, row_with}
use searchcar_desktop.Queue.Claim.{claim_next_job, eligible}
use searchcar_desktop.Queue.Stop.{
  recover_interrupted_jobs, request_shutdown_cancellation, request_sleep_interruption, cancel_scan,
  row_queued, row_running, row_pending,
}
use searchcar_desktop.Queue.Stop.Recovery.{
  recover_interrupted_jobs-Idle, recover_interrupted_jobs-resumes,
}
use searchcar_desktop.Queue.Stop.Shutdown.{request_shutdown_cancellation-Stops}
use searchcar_desktop.Queue.Stop.Cancel.{cancel_scan-Reports, Reports}
use searchcar_desktop.Queue.Detach.{concerns, detach_project_from_active_jobs}
use searchcar_desktop.Queue.Detach.Gone.{holds_project, detach_project_from_active_jobs-Gone}
use searchcar_desktop.Worker.Lifecycle.{Start, start_job}
use searchcar_desktop.System.Stuck.{sleep_before_start-stuck}
use searchcar_desktop.Tests.Samples.{sample_db, sample_run, auto_payload, manual_payload}

abbrev working : ScanRun
working =
    record (sample_run 2 1 RunStatus.running
      (record (auto_payload (10 ∷ 11 ∷ [])) { current_project_id = some 10 }) 50) {
        worker_id = some "w";
      }

abbrev next : ScanRun
next = sample_run 4 1 RunStatus.queued (manual_payload (12 ∷ [])) 60

abbrev busy_db : Db
busy_db = record sample_db { scan_runs = next ∷ working ∷ [] }

busy-Unique : Unique (ids busy_db.scan_runs)
busy-Unique = omega arith

recover_interrupted_jobs-Idle_example :
    let (recovered, db') =
      recover_interrupted_jobs InterruptionReason.application_restarted 90 busy_db in
    AreIds row_active busy_db recovered
    × (active_count db'.scan_runs ≡ 0)
    × Closed recovered db'.project_runs
recover_interrupted_jobs-Idle_example =
    recover_interrupted_jobs-Idle InterruptionReason.application_restarted 90 busy_db

next-eligible : eligible busy_db next ≡ true
unfolding eligible
next-eligible = refl

recover_interrupted_jobs-resumes_example :
    is_some
      (claim_next_job false 95 "v"
        (recover_interrupted_jobs InterruptionReason.application_restarted 90 busy_db).1).0
    ≡ true
recover_interrupted_jobs-resumes_example =
    recover_interrupted_jobs-resumes InterruptionReason.application_restarted 90 95 "v" busy_db next
      (inl refl) next-eligible

request_shutdown_cancellation-Stops_example :
    let (cancelled, requested, db') = request_shutdown_cancellation 90 busy_db in
    AreIds row_queued busy_db cancelled
    × AreIds row_running busy_db requested
    × (any row_pending db'.scan_runs ≡ false)
    × Closed cancelled db'.project_runs
request_shutdown_cancellation-Stops_example = request_shutdown_cancellation-Stops 90 busy_db

cancel_scan-Reports_example : Reports 2 1 (cancel_scan 2 1 90 busy_db)
cancel_scan-Reports_example = cancel_scan-Reports 2 1 90 busy_db

detach_project_from_active_jobs-Gone_example :
    let (affected, db') = detach_project_from_active_jobs 1 10 90 busy_db in
    (any (holds_project 1 10) db'.scan_runs ≡ false)
    × ((x : ℕ) → contains affected x ≡ row_with (holds_project 1 10) x busy_db.scan_runs)
detach_project_from_active_jobs-Gone_example = detach_project_from_active_jobs-Gone 1 10 90 busy_db

working-concerns : concerns 1 10 working ≡ true
unfolding concerns
working-concerns = refl

waiting_db-claimed : (claim_next_job false 70 "w" sample_db).0 ≡ some 2
unfolding claim_next_job
waiting_db-claimed = refl

sleep_before_start-stuck_example :
    let asleep = (request_sleep_interruption 71 (claim_next_job false 70 "w" sample_db).1).2 in
    (start_job 2 72 asleep ≡ (Start.not_started, asleep))
    × (claim_next_job false 80 "v" asleep ≡ (none, asleep))
sleep_before_start-stuck_example =
    sleep_before_start-stuck 70 71 72 80 2 "w" "v" false sample_db (omega arith) waiting_db-claimed
