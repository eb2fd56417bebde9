-- ===== src/Queue/Stop/Recovery.antt =====
-- What `recover_interrupted_jobs` leaves at the start of the application.
use searchcar_desktop.Base.{
  ℕ, String, count_by, ◌≡◌, refl, inl, inr, true, false, List, [], ◌∷◌, map, arith, In, is_some,
}
use searchcar_desktop.Store.{Db, ScanRun, InterruptionReason, RunStatus}
use searchcar_desktop.Queue.Rows.{row_active, has_active, active_count}
use searchcar_desktop.Queue.Invariant.{has_active-count}
use searchcar_desktop.Queue.Selected.{AreIds, Closed, selected_ids-AreIds, close-Closed}
use searchcar_desktop.Queue.Claim.{eligible, claim_next_job, heartbeat_job, held_by}
use searchcar_desktop.Queue.Claim.First.{claim_next_job-total}
use searchcar_desktop.Queue.Stop.{recover_row, recover_interrupted_jobs, selected_ids}

recovered-idle :
    (reason : InterruptionReason) (now : ℕ) (rs : List ScanRun)
    → has_active (map (recover_row reason now) rs) ≡ false
unfolding recover_row
recovered-idle reason now [] = refl
recovered-idle reason now (r ∷ rs) = ground (arith, recovered-idle reason now rs)

-- The recovery returns the ids of the active runs in ascending order, leaves no run active, and
-- leaves no pending project run of the runs that it returns.
pub recover_interrupted_jobs-Idle :
    (reason : InterruptionReason) (now : ℕ) (db : Db)
    → let (recovered, db') = recover_interrupted_jobs reason now db in
      AreIds row_active db recovered
      × (active_count db'.scan_runs ≡ 0)
      × Closed recovered db'.project_runs
unfolding recover_interrupted_jobs
recover_interrupted_jobs-Idle reason now db = (
  selected_ids-AreIds row_active db,
  has_active-count (map (recover_row reason now) db.scan_runs)
      (recovered-idle reason now db.scan_runs),
  close-Closed (selected_ids row_active db) RunStatus.interrupted _ db.project_runs refl,
)

queued-kept :
    (reason : InterruptionReason) (now : ℕ) (db : Db) (r : ScanRun) (rs : List ScanRun)
    → eligible db r ≡ true
    → In r rs
    → In r (map (recover_row reason now) rs)
unfolding eligible recover_row
queued-kept reason now db r [] h m = elim m [ ]
queued-kept reason now db r (x ∷ rs) h (inl e) = inl (ground (arith, e))
queued-kept reason now db r (x ∷ rs) h (inr m) = inr (queued-kept reason now db r rs h m)

-- After the recovery the queue goes on: outside maintenance, if some queued run has an active
-- owner, the next claim returns a job.
pub recover_interrupted_jobs-resumes :
    (reason : InterruptionReason) (now later : ℕ) (worker : String) (db : Db) (r : ScanRun)
    → In r db.scan_runs
    → eligible db r ≡ true
    → is_some (claim_next_job false later worker (recover_interrupted_jobs reason now db).1).0
      ≡ true
unfolding recover_interrupted_jobs eligible
recover_interrupted_jobs-resumes reason now later worker db r m h =
    claim_next_job-total later worker (recover_interrupted_jobs reason now db).1 r
      (has_active-count (map (recover_row reason now) db.scan_runs)
        (recovered-idle reason now db.scan_runs))
      (queued-kept reason now db r db.scan_runs h m) h

not_held :
    (reason : InterruptionReason) (now id : ℕ) (w : String) (rs : List ScanRun)
    → count_by (held_by id w) (map (recover_row reason now) rs) ≡ 0
unfolding recover_row
not_held reason now id w [] = refl
not_held reason now id w (r ∷ rs) = ground (arith, not_held reason now id w rs)

-- And no worker of before is still accepted: every heartbeat after the recovery is refused.
pub recover_interrupted_jobs-heartbeat :
    (reason : InterruptionReason) (now later id : ℕ) (worker : String) (db : Db)
    → (heartbeat_job id worker later (recover_interrupted_jobs reason now db).1).0 ≡ false
unfolding recover_interrupted_jobs heartbeat_job
recover_interrupted_jobs-heartbeat reason now later id worker db =
    ground (arith, not_held reason now id worker db.scan_runs)
