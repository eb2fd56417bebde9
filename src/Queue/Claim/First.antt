-- ===== src/Queue/Claim/First.antt =====
-- Which run `claim_next_job` takes: the oldest queued one of an active owner.
use searchcar_desktop.Base.{
  ℕ, String, ◌≡◌, refl, inl, inr, Bool, true, false, some, List, [], ◌∷◌, arith, All, In, In-select,
  select-In, All-In, select, is_some, Bool-cases, Option-cases, if◌then◌else◌,
}
use mathlib.Core.Path.{subst}
use mathlib.Core.Option.{some-injective}
use searchcar_desktop.Store.{Db, ScanRun}
use searchcar_desktop.Queue.Rows.{has_active, active_count}
use searchcar_desktop.Queue.Invariant.{has_active-count, count-has_active}
use searchcar_desktop.Queue.Claim.{eligible, before, earlier, first_row, next_row, claim_next_job}

-- no row of the list comes before `r`
abbrev pub IsFirst : ScanRun → List ScanRun → Type 0
IsFirst r rs = All (λ s. before s r ≡ false) rs

before_trans : (a b c : ScanRun) → before a b ≡ false → before b c ≡ false → before a c ≡ false
before_trans a b c p q = ground arith

IsFirst-le : (a b : ScanRun) (rs : List ScanRun) → IsFirst a rs → before a b ≡ false → IsFirst b rs
IsFirst-le a b [] h p = tt
IsFirst-le a b (s ∷ rs) h p = (before_trans s a b h.0 p, IsFirst-le a b rs h.1 p)

before_irrefl : (a : ScanRun) → before a a ≡ false
before_irrefl a = ground arith

before_asym : (a b : ScanRun) → before a b ≡ true → before b a ≡ false
before_asym a b h = ground arith

pick-IsFirst :
    (b : Bool) (x s : ScanRun) (rs : List ScanRun)
    → before s x ≡ b
    → In s rs
    → IsFirst s rs
    → In (if b then s else x) (x ∷ rs) × IsFirst (if b then s else x) (x ∷ rs)
pick-IsFirst true x s rs e m h = (inr m, (before_asym s x e, h))
pick-IsFirst false x s rs e m h = (inl refl, (before_irrefl x, IsFirst-le s x rs h e))

first_row-IsFirst :
    (x : ScanRun) (rs : List ScanRun)
    → In (earlier x (first_row rs)) (x ∷ rs) × IsFirst (earlier x (first_row rs)) (x ∷ rs)
unfolding first_row
first_row-IsFirst x [] = (inl refl, (before_irrefl x, tt))
first_row-IsFirst x (y ∷ ys) =
    let s = earlier y (first_row ys) in
    let ih = first_row-IsFirst y ys in pick-IsFirst (before s x) x s (y ∷ ys) refl ih.0 ih.1

first_row-some : (rs : List ScanRun) (r : ScanRun) → first_row rs ≡ some r → In r rs × IsFirst r rs
unfolding first_row
first_row-some [] r h = cc
first_row-some (x ∷ rs) r h =
    subst (λ s. In s (x ∷ rs) × IsFirst s (x ∷ rs)) (some-injective _ _ h) (first_row-IsFirst x rs)

pub next_row-First :
    (db : Db) (r : ScanRun)
    → next_row db ≡ some r
    → (has_active db.scan_runs ≡ false)
      × In r (select (eligible db) db.scan_runs)
      × IsFirst r (select (eligible db) db.scan_runs)
unfolding next_row
next_row-First db r h = elim (Bool-cases (has_active db.scan_runs)) [
  | inl e ↦ absurd (ground (arith, e))
  | inr e ↦
      let f = first_row-some (select (eligible db) db.scan_runs) r (rw e at h) in (e, f.0, f.1)
]

-- When the call returns a job, no run was active, and the job is the id of a queued run of an
-- active owner before which, by creation time and then by id, no other such run comes.
pub claim_next_job-First :
    (now job : ℕ) (worker : String) (db : Db)
    → (claim_next_job false now worker db).0 ≡ some job
    → (r : ScanRun) × In r db.scan_runs
      × (r.id ≡ job)
      × (eligible db r ≡ true)
      × (active_count db.scan_runs ≡ 0)
      × ((s : ScanRun) → In s db.scan_runs → eligible db s ≡ true → before s r ≡ false)
unfolding claim_next_job
claim_next_job-First now job worker db h = elim (Option-cases (next_row db)) [
  | inl e ↦ absurd (ground (arith, e))
  | inr (r, e) ↦
      let (quiet, m, first) = next_row-First db r e in
      let (here, ok) = In-select (eligible db) r db.scan_runs m in
      (
        r,
        here,
        ground (arith, e),
        ok,
        has_active-count db.scan_runs quiet,
        λ s ms es.
            All-In (λ t. before t r ≡ false) (select (eligible db) db.scan_runs) first s
              (select-In (eligible db) s db.scan_runs ms es),
      )
]

first_row-total : (r : ScanRun) (rs : List ScanRun) → In r rs → is_some (first_row rs) ≡ true
unfolding first_row
first_row-total r [] m = elim m [ ]
first_row-total r (x ∷ rs) m = refl

-- Outside maintenance, while no run is active and some queued run has an active owner, the call
-- returns a job: no eligible run is left waiting.
pub claim_next_job-total :
    (now : ℕ) (worker : String) (db : Db) (r : ScanRun)
    → active_count db.scan_runs ≡ 0
    → In r db.scan_runs
    → eligible db r ≡ true
    → is_some (claim_next_job false now worker db).0 ≡ true
unfolding claim_next_job next_row
claim_next_job-total now worker db r quiet m ok = ground (
  arith,
  count-has_active db.scan_runs quiet,
  first_row-total r (select (eligible db) db.scan_runs)
      (select-In (eligible db) r db.scan_runs m ok),
)
