-- ===== src/Queue/Claim/Heartbeat.antt =====
-- What the result of `heartbeat_job` says.
use searchcar_desktop.Base.{
  ℕ, String, ◌≡◌, refl, inl, inr, false, List, [], ◌∷◌, arith, any, count_by, ◌==◌, ==→eq,
  Bool-cases,
}
use mathlib.Core.Path.{subst}
use searchcar_desktop.Store.{Db, ScanRun}
use searchcar_desktop.Queue.Rows.{ids}
use searchcar_desktop.Queue.Invariant.{Absent, Unique}
use searchcar_desktop.Queue.Claim.{heartbeat_job, held_by}

Absent-held :
    (id : ℕ) (w : String) (rs : List ScanRun)
    → Absent id (ids rs)
    → (count_by (held_by id w) rs ≡ 0) × (any (held_by id w) rs ≡ false)
Absent-held id w [] h = (refl, refl)
Absent-held id w (r ∷ rs) h =
    let ih = Absent-held id w rs h.1 in (ground (arith, h.0, ih.0), ground (arith, h.0, ih.1))

held-count :
    (id : ℕ) (w : String) (rs : List ScanRun)
    → Unique (ids rs)
    → (count_by (held_by id w) rs == 1) ≡ any (held_by id w) rs
held-count id w [] u = refl
held-count id w (r ∷ rs) u = elim (Bool-cases (r.id == id)) [
  | inl e ↦
      let a = Absent-held id w rs (subst (λ k. Absent k (ids rs)) (==→eq r.id id e) u.0) in
      ground (arith, e, a.0, a.1)
  | inr e ↦ ground (arith, e, held-count id w rs u.1)
]

-- Where the keys of the runs are distinct, a heartbeat is accepted exactly when the run is active
-- and the worker's.
pub heartbeat_job-Held :
    (id : ℕ) (worker : String) (now : ℕ) (db : Db)
    → Unique (ids db.scan_runs)
    → (heartbeat_job id worker now db).0 ≡ any (held_by id worker) db.scan_runs
unfolding heartbeat_job
heartbeat_job-Held id worker now db u = held-count id worker db.scan_runs u
