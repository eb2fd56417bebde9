-- ===== src/Queue/Selected.antt =====
-- The ids that the interruptions of backend/app/job_queue.py return: which they are, and their
-- order.
use searchcar_desktop.Base.{
  ℕ, String, Option, some, ◌≤◌, ◌≡◌, refl, ◌∙◌, Bool, false, ◌&&◌, ◌||◌, List, [], ◌∷◌, map, arith,
  All, contains, any, select, ltb, ◌==◌, Bool-cases, inl, inr,
}
use searchcar_desktop.Store.{Db, ScanRun, ProjectScanRun, RunStatus, opt_pending}
use searchcar_desktop.Queue.Rows.{ids, insert_by_id, order_by_id, close_project_run}
use searchcar_desktop.Queue.Stop.{selected_ids}

-- some row under the id passes the test
abbrev pub row_with : (ScanRun → Bool) → ℕ → List ScanRun → Bool
row_with p x rs = any (λ r. r.id == x && p r) rs

pub ids-select :
    (p : ScanRun → Bool) (x : ℕ) (rs : List ScanRun)
    → contains (ids (select p rs)) x ≡ row_with p x rs
ids-select p x [] = refl
ids-select p x (r ∷ rs) = ground (arith, ids-select p x rs)

insert_by_id-contains :
    (r : ScanRun) (x : ℕ) (rs : List ScanRun)
    → contains (ids (insert_by_id r rs)) x ≡ (r.id == x || contains (ids rs) x)
unfolding insert_by_id
insert_by_id-contains r x [] = refl
insert_by_id-contains r x (s ∷ rs) = ground (arith, insert_by_id-contains r x rs)

order_by_id-contains :
    (x : ℕ) (rs : List ScanRun) → contains (ids (order_by_id rs)) x ≡ contains (ids rs) x
unfolding order_by_id
order_by_id-contains x [] = refl
order_by_id-contains x (r ∷ rs) =
    ground (arith, insert_by_id-contains r x (order_by_id rs), order_by_id-contains x rs)

pub selected_ids-contains :
    (p : ScanRun → Bool) (x : ℕ) (db : Db)
    → contains (selected_ids p db) x ≡ row_with p x db.scan_runs
selected_ids-contains p x db =
    order_by_id-contains x (select p db.scan_runs) ∙ ids-select p x db.scan_runs

abbrev pub Ascending : List ℕ → Type 0
Ascending [] = Unit
Ascending (x ∷ xs) = All (λ y. x ≤ y) xs × Ascending xs

insert_by_id-All :
    (a : ℕ) (r : ScanRun) (rs : List ScanRun)
    → a ≤ r.id
    → All (λ y. a ≤ y) (ids rs)
    → All (λ y. a ≤ y) (ids (insert_by_id r rs))
unfolding insert_by_id
insert_by_id-All a r [] h k = (h, tt)
insert_by_id-All a r (s ∷ rs) h k = elim (Bool-cases (ltb s.id r.id)) [
  | inl e ↦ rw e (k.0, insert_by_id-All a r rs h k.1)
  | inr e ↦ rw e (h, k)
]

All-le : (a b : ℕ) (xs : List ℕ) → a ≤ b → All (λ y. b ≤ y) xs → All (λ y. a ≤ y) xs
All-le a b [] h k = tt
All-le a b (x ∷ xs) h k = (omega (arith, k.0), All-le a b xs h k.1)

insert_by_id-Ascending :
    (r : ScanRun) (rs : List ScanRun) → Ascending (ids rs) → Ascending (ids (insert_by_id r rs))
unfolding insert_by_id
insert_by_id-Ascending r [] h = (tt, tt)
insert_by_id-Ascending r (s ∷ rs) h = elim (Bool-cases (ltb s.id r.id)) [
  | inl e ↦
      rw e (insert_by_id-All s.id r rs (ground (arith, e)) h.0, insert_by_id-Ascending r rs h.1)
  | inr e ↦
      let le : r.id ≤ s.id = ground (arith, e) in rw e ((le, All-le r.id s.id (ids rs) le h.0), h)
]

pub order_by_id-Ascending : (rs : List ScanRun) → Ascending (ids (order_by_id rs))
unfolding order_by_id
order_by_id-Ascending [] = tt
order_by_id-Ascending (r ∷ rs) =
    insert_by_id-Ascending r (order_by_id rs) (order_by_id-Ascending rs)

-- The ids of a result: those of the rows that pass the test, in ascending order.
abbrev pub AreIds : (ScanRun → Bool) → Db → List ℕ → Type 0
AreIds p db xs = ((x : ℕ) → contains xs x ≡ row_with p x db.scan_runs) × Ascending xs

pub selected_ids-AreIds : (p : ScanRun → Bool) (db : Db) → AreIds p db (selected_ids p db)
selected_ids-AreIds p db =
    ((λ x. selected_ids-contains p x db), order_by_id-Ascending (select p db.scan_runs))

-- no pending project run of the given scan runs is left
abbrev pub Closed : List ℕ → List ProjectScanRun → Type 0
Closed xs ps = All (λ p. (contains xs p.scan_run_id && opt_pending p.status) ≡ false) ps

pub close-Closed :
    (xs : List ℕ) (status : RunStatus) (code : Option String → Option String)
    (ps : List ProjectScanRun)
    → opt_pending (some status) ≡ false
    → Closed xs (map (close_project_run xs status code) ps)
close-Closed xs status code [] h = tt
close-Closed xs status code (p ∷ ps) h = (ground (arith, h), close-Closed xs status code ps h)
