-- ===== src/Tests/SystemTests.antt =====
-- A day of the system on the sample tables.
use searchcar_desktop.Worker.Outcomes.{publish_live_results}
use searchcar_desktop.Worker.Lifecycle.{start_job}
use searchcar_desktop.Queue.Claim.{claim_next_job}
use searchcar_desktop.Queue.Detach.{detach_project_from_active_jobs}
use searchcar_desktop.Base.{
  ℕ, refl, inl, inr, true, false, none, some, Option, ◌≡◌, List, [], ◌∷◌, In,
}
use searchcar_desktop.Store.{ScanRun, Kind}
use searchcar_desktop.Queue.Invariant.{IsValid}
use searchcar_desktop.System.Events.{
  Event, run, claim, start, sleep, poll, request, detach, publish,
}
use searchcar_desktop.System.Evolution.{Follows}
use searchcar_desktop.System.Single.{run-IsValid}
use searchcar_desktop.System.Conflicts.{conflicting, Disjoint}
use searchcar_desktop.System.History.{run-Follows}
use searchcar_desktop.System.Disjoint.{added-Disjoint}
use searchcar_desktop.Queue.Enqueue.{enqueue}
use searchcar_desktop.Queue.Rows.{find_run}
use searchcar_desktop.Scheduler.Poll.{enqueue_scheduled}
use searchcar_desktop.Tests.Samples.{
  sample_db, waiting, manual_payload, auto_payload, ascii_upper, ascii_space,
}
use searchcar_desktop.Tests.QueueTests.{sample-IsValid}

abbrev day : List Event
day =
    request false none Kind.projects (manual_payload (10 ∷ [])) 1 65 65
    ∷ claim false 70 "w"
    ∷ start 2 71
    ∷ poll false true 150 150
    ∷ sleep 200
    ∷ claim false 210 "w"
    ∷ []

run-IsValid_example : IsValid (run ascii_upper ascii_space day sample_db)
run-IsValid_example = run-IsValid ascii_upper ascii_space day sample_db sample-IsValid

run-Follows_example :
    (s : ScanRun) × In s (run ascii_upper ascii_space day sample_db).scan_runs × Follows waiting s
run-Follows_example =
    run-Follows ascii_upper ascii_space day sample_db waiting sample-IsValid (inr (inr (inl refl)))

sample-Disjoint : Disjoint sample_db.scan_runs
unfolding conflicting
sample-Disjoint = ((refl, (refl, (refl, tt))), ((refl, (refl, tt)), ((refl, tt), (tt, tt))))

added-Disjoint_example :
    Disjoint
      (enqueue false none Kind.projects (manual_payload (10 ∷ [])) 1 65 65 sample_db).1.scan_runs
    × Disjoint (enqueue_scheduled false true 65 65 sample_db).scan_runs
added-Disjoint_example =
    added-Disjoint false true none Kind.projects (manual_payload (10 ∷ [])) 1 65 65 sample_db
      sample-Disjoint

-- a project that was deleted from the job while the worker had its copy comes back with a publication
abbrev overwritten : List Event
overwritten =
    claim false 70 "w"
    ∷ start 2 71
    ∷ detach 1 11 72
    ∷ publish 2 (auto_payload (10 ∷ 11 ∷ [])) [] [] 0 [] none
    ∷ []

abbrev projects_of : Option ScanRun → List ℕ
projects_of none = []
projects_of (some r) = r.payload.project_ids

project_restored :
    projects_of (find_run 2 (run ascii_upper ascii_space overwritten sample_db)) ≡ 10 ∷ 11 ∷ []
unfolding run detach_project_from_active_jobs claim_next_job start_job publish_live_results
project_restored = refl
