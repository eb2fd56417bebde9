-- ===== src/Queue/Claim/Exclusive.antt =====
-- A claim leaves exactly one active run, which is the claimed one.
use mathlib.Core.Path.{subst}
use searchcar_desktop.Base.{
  ℕ, String, ◌≡◌, refl, ap, inl, inr, true, false, some, List, [], ◌∷◌, map, arith, In, In-select,
  Option-cases,
}
use searchcar_desktop.Store.{Db, ScanRun, is_queued}
use searchcar_desktop.Queue.Rows.{active_count, ids, row_active}
use searchcar_desktop.Queue.Invariant.{Absent, Unique, has_active-count, In-ids}
use searchcar_desktop.Queue.Claim.{eligible, next_row, claim_row, claim_next_job}
use searchcar_desktop.Queue.Claim.First.{next_row-First}

module _ (id now : ℕ) (worker : String) where
  pub claim_row-id : (r : ScanRun) → (claim_row id now worker r).id ≡ r.id
  unfolding claim_row
  claim_row-id r = ground arith

  -- a claim touches no row of another id
  claim_row-Absent :
      (rs : List ScanRun) → Absent id (ids rs) → map (claim_row id now worker) rs ≡ rs
  unfolding claim_row
  claim_row-Absent [] h = refl
  claim_row-Absent (r ∷ rs) h = ground (arith, claim_row-Absent rs h.1)

  claim_row_other : (r : ScanRun) → (r.id ≡ id → ⊥) → claim_row id now worker r ≡ r
  unfolding claim_row
  claim_row_other r h = ground arith

  claim_row_queued :
      (r : ScanRun)
      → r.id ≡ id
      → is_queued r.status ≡ true
      → row_active (claim_row id now worker r) ≡ true
  unfolding claim_row
  claim_row_queued r h q = ground arith

  active_count-claim :
      (rs : List ScanRun) (r : ScanRun)
      → Unique (ids rs)
      → active_count rs ≡ 0
      → In r rs
      → r.id ≡ id
      → is_queued r.status ≡ true
      → active_count (map (claim_row id now worker) rs) ≡ 1
  active_count-claim [] r u q m e h = elim m [ ]
  active_count-claim (x ∷ xs) r u q (inl p) e h = ground (
    arith,
    p,
    ap (λ (s : ScanRun). s.id) p,
    ap (λ (s : ScanRun). is_queued s.status) p,
    claim_row-Absent xs (subst (λ (a : ℕ). Absent a (ids xs)) (ap_id p e) u.0),
    claim_row_queued x,
  )
    where
      ap_id : {a b : ScanRun} → a ≡ b → a.id ≡ id → b.id ≡ id
      ap_id {a} {b} p e = cc
  active_count-claim (x ∷ xs) r u q (inr m) e h =
      ground
        (arith, claim_row_other x (λ p. In-ids r xs m x.id u.0 (cc)), active_count-claim xs r u.1)

eligible-queued : (db : Db) (r : ScanRun) → eligible db r ≡ true → is_queued r.status ≡ true
unfolding eligible
eligible-queued db r h = ground arith

-- Where the keys of the runs are distinct, a call that returns a job leaves exactly one active run.
pub claim_next_job-single :
    (now job : ℕ) (worker : String) (db : Db)
    → Unique (ids db.scan_runs)
    → (claim_next_job false now worker db).0 ≡ some job
    → active_count (claim_next_job false now worker db).1.scan_runs ≡ 1
unfolding claim_next_job
claim_next_job-single now job worker db u h = elim (Option-cases (next_row db)) [
  | inl e ↦ absurd (ground (arith, e))
  | inr (r, e) ↦
      let (quiet, m, first) = next_row-First db r e in
      let (here, ok) = In-select (eligible db) r db.scan_runs m in
      rw e (
        active_count-claim r.id now worker db.scan_runs r u (has_active-count db.scan_runs quiet)
          here refl (eligible-queued db r ok))
]
