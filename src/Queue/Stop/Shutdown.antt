-- ===== src/Queue/Stop/Shutdown.antt =====
-- What `request_shutdown_cancellation` leaves when the application is closed.
use searchcar_desktop.Base.{
  ℕ, String, ◌≡◌, refl, inl, inr, Bool, true, false, none, List, [], ◌∷◌, map, arith, any, select,
  Bool-cases,
}
use searchcar_desktop.Store.{Db, ScanRun, RunStatus}
use searchcar_desktop.Queue.Rows.{has_active}
use searchcar_desktop.Queue.Selected.{AreIds, Closed, selected_ids-AreIds, close-Closed}
use searchcar_desktop.Queue.Claim.{eligible, claim_next_job, first_row}
use searchcar_desktop.Queue.Stop.{
  shutdown_row, request_shutdown_cancellation, selected_ids, row_queued, row_running, row_pending,
}

stopped : (now : ℕ) (rs : List ScanRun) → any row_pending (map (shutdown_row now) rs) ≡ false
unfolding shutdown_row
stopped now [] = refl
stopped now (r ∷ rs) = ground (arith, stopped now rs)

-- The shutdown returns the ids of the queued runs and of the running ones, each in ascending
-- order, leaves no run queued or running, and leaves no pending project run of the queued ones.
pub request_shutdown_cancellation-Stops :
    (now : ℕ) (db : Db)
    → let (cancelled, requested, db') = request_shutdown_cancellation now db in
      AreIds row_queued db cancelled
      × AreIds row_running db requested
      × (any row_pending db'.scan_runs ≡ false)
      × Closed cancelled db'.project_runs
unfolding request_shutdown_cancellation
request_shutdown_cancellation-Stops now db = (
  selected_ids-AreIds row_queued db,
  selected_ids-AreIds row_running db,
  stopped now db.scan_runs,
  close-Closed (selected_ids row_queued db) RunStatus.cancelled (λ _. none) db.project_runs refl,
)

none_eligible :
    (db : Db) (rs : List ScanRun) → any row_pending rs ≡ false → select (eligible db) rs ≡ []
unfolding eligible
none_eligible db [] h = refl
none_eligible db (r ∷ rs) h = ground (arith, none_eligible db rs)

-- After it no job is claimed.
pub request_shutdown_cancellation-claim :
    (m : Bool) (now later : ℕ) (worker : String) (db : Db)
    → (claim_next_job m later worker (request_shutdown_cancellation now db).2).0 ≡ none
unfolding claim_next_job request_shutdown_cancellation first_row
request_shutdown_cancellation-claim true now later worker db = refl
request_shutdown_cancellation-claim false now later worker db =
    let db' = (request_shutdown_cancellation now db).2 in
    elim (Bool-cases (has_active db'.scan_runs)) [
      | inl e ↦ rw e refl
      | inr e ↦ rw (e, none_eligible db' db'.scan_runs (stopped now db.scan_runs)) refl
    ]
