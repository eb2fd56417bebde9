-- ===== src/Queue/Stop/Cancel.antt =====
-- What the reply of `cancel_scan` says of the tables that it leaves.
use searchcar_desktop.Base.{
  ℕ, ◌≡◌, refl, inl, inr, false, Option, none, some, List, [], ◌∷◌, map, arith, find_by, ◌==◌,
  ==→eq, if◌then◌else◌, Bool-cases, Option-cases,
}
use searchcar_desktop.Store.{Db, ScanRun, RunStatus, opt_pending}
use mathlib.Core.Path.{subst}
use searchcar_desktop.Queue.Rows.{find_run}
use searchcar_desktop.Queue.Counting.{write, find_run-id}
use searchcar_desktop.Queue.Stop.{
  CancelReply, cancel_status, scan_not_found, scan_already_finished, cancel_scan, cancel_by_status,
  user_cancelled, user_requested,
}

find-write :
    (id : ℕ) (old new : ScanRun) (rs : List ScanRun)
    → find_by (λ r. r.id == id) rs ≡ some old
    → new.id ≡ id
    → find_by (λ r. r.id == id) (map (write new) rs) ≡ some new
find-write id old new [] h e = absurd (cc)
find-write id old new (r ∷ rs) h e = elim (Bool-cases (r.id == id)) [
  | inl q ↦ ground (arith, q, e)
  | inr q ↦ ground (arith, q, e, find-write id old new rs (ground (arith, q)) e)
]

-- the status of the user's run under an id
abbrev pub own_status_of : Option ScanRun → ℕ → Option RunStatus
own_status_of none user = none
own_status_of (some r) user = if r.owner_id == user then some r.status else none

abbrev pub own_status : ℕ → ℕ → Db → Option RunStatus
own_status id user db = own_status_of (find_run id db) user

-- the reply that a status calls for
abbrev pub reply_for : ℕ → Option RunStatus → CancelReply
reply_for id none = scan_not_found
reply_for id (some RunStatus.cancelled) = cancel_status id RunStatus.cancelled
reply_for id (some RunStatus.cancel_requested) = cancel_status id RunStatus.cancel_requested
reply_for id (some _) = scan_already_finished

abbrev pub Reports : ℕ → ℕ → CancelReply × Db → Type 0
Reports id user (reply, db) =
    (reply ≡ reply_for id (own_status id user db)) × (opt_pending (own_status id user db) ≡ false)

cancel_by_status-Reports :
    (s : RunStatus) (id now : ℕ) (r : ScanRun) (db : Db)
    → r.status ≡ s
    → r.id ≡ id
    → find_run id db ≡ some r
    → Reports id r.owner_id (cancel_by_status s r now db)
unfolding cancel_by_status
cancel_by_status-Reports RunStatus.queued id now r db e i h =
    ground (arith, i, e, find-write id r (user_cancelled now r) db.scan_runs h i)
cancel_by_status-Reports RunStatus.running id now r db e i h =
    ground (arith, i, e, find-write id r (user_requested now r) db.scan_runs h i)
cancel_by_status-Reports _ id now r db e i h = ground (arith, i, e, h)

-- The reply of a cancellation is the one that the status calls for which the caller's run has
-- after it, and that status is neither queued nor running.
pub cancel_scan-Reports : (id user now : ℕ) (db : Db) → Reports id user (cancel_scan id user now db)
unfolding cancel_scan
cancel_scan-Reports id user now db = elim (Option-cases (find_run id db)) [
  | inl e ↦ rw e (rw e (refl, refl))
  | inr (r, e) ↦ rw e (elim (Bool-cases (r.owner_id == user)) [
    | inl o ↦ rw o (
        subst (λ u. Reports id u (cancel_by_status r.status r now db)) (==→eq r.owner_id user o)
          (cancel_by_status-Reports r.status id now r db refl (find_run-id id db.scan_runs r e) e))
    | inr o ↦ rw o (ground (arith, e, o))
  ])
]
