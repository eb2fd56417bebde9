-- ===== src/Queue/Counting.antt =====
-- Each transaction of the queue keeps the invariant of scan_runs.
use mathlib.Core.Path.{subst}
use searchcar_desktop.Base.{
  ℕ, suc, ◌+◌, ◌<◌, ◌≡◌, refl, ap, inl, inr, true, false, some, List, [], ◌∷◌, ◌++◌, map, arith,
  find_by, Bool-cases, if◌then◌else◌, ◌==◌, ==→eq,
}
use searchcar_desktop.Store.{Db, ScanRun, is_active}
use searchcar_desktop.Queue.Rows.{row_active, active_count, ids}
use searchcar_desktop.Queue.Invariant.{
  Absent, Unique, Below, IsValid, ids-map, active_count-map-le, active_count-append, Below-Absent,
  Unique-append,
}

-- An update that keeps every key and activates no row keeps the invariant.
module _ (f : ScanRun → ScanRun) where
  pub map-IsValid :
      (db db' : Db)
      → ((r : ScanRun) → (f r).id ≡ r.id)
      → ((r : ScanRun) → is_active (f r).status ≡ true → is_active r.status ≡ true)
      → db'.scan_runs ≡ map f db.scan_runs
      → db'.next_id ≡ db.next_id
      → IsValid db
      → IsValid db'
  map-IsValid db db' keeps quiet e n v = record {
    unique = rw (e, ids-map f keeps db.scan_runs) v.unique;
    below = rw (e, ids-map f keeps db.scan_runs, n) v.below;
    single = rw e (omega (arith, active_count-map-le f quiet db.scan_runs, v.single));
  }

-- the same tables otherwise
pub same-IsValid :
    (db db' : Db)
    → db'.scan_runs ≡ db.scan_runs
    → db'.next_id ≡ db.next_id
    → IsValid db
    → IsValid db'
same-IsValid db db' e n v = record {
  unique = rw e v.unique;
  below = rw (e, n) v.below;
  single = rw e v.single;
}

abbrev pub weight : ScanRun → ℕ
weight r = if row_active r then 1 else 0

abbrev pub write : ScanRun → ScanRun → ScanRun
write job r = if r.id == job.id then job else r

-- the row that is found under an id has that id
pub find_run-id :
    (id : ℕ) (rs : List ScanRun) (r : ScanRun) → find_by (λ r. r.id == id) rs ≡ some r → r.id ≡ id
find_run-id id [] r h = cc
find_run-id id (x ∷ xs) r h = ground (arith, find_run-id id xs r)

write-Absent :
    (job : ScanRun) (rs : List ScanRun) → Absent job.id (ids rs) → map (write job) rs ≡ rs
write-Absent job [] h = refl
write-Absent job (r ∷ rs) h = ground (arith, write-Absent job rs h.1)

-- Writing back one row changes the number of active rows by that row alone.
pub write-count :
    (old job : ScanRun) (rs : List ScanRun)
    → Unique (ids rs)
    → find_by (λ r. r.id == job.id) rs ≡ some old
    → active_count (map (write job) rs) + weight old ≡ active_count rs + weight job
write-count old job [] u h = cc
write-count old job (r ∷ rs) u h = elim (Bool-cases (r.id == job.id)) [
  | inl e ↦
      let here : r ≡ old = ground (arith, e) in
      ground (
        arith,
        e,
        ap row_active here,
        write-Absent job rs (subst (λ (a : ℕ). Absent a (ids rs)) (==→eq r.id job.id e) u.0),
      )
  | inr e ↦ ground (arith, e, write-count old job rs u.1 (ground (arith, e)))
]

-- Writing back a row that becomes active only if it was keeps the invariant.
pub write-IsValid :
    (old job : ScanRun) (db db' : Db)
    → find_by (λ r. r.id == job.id) db.scan_runs ≡ some old
    → (is_active job.status ≡ true → is_active old.status ≡ true)
    → db'.scan_runs ≡ map (write job) db.scan_runs
    → db'.next_id ≡ db.next_id
    → IsValid db
    → IsValid db'
write-IsValid old job db db' found act e n v = record {
  unique = rw (e, ids-map (write job) (λ r. ground arith) db.scan_runs) v.unique;
  below = rw (e, ids-map (write job) (λ r. ground arith) db.scan_runs, n) v.below;
  single = rw e (ground (arith, act, v.single, write-count old job db.scan_runs v.unique found));
}

Below-append : (n x : ℕ) (xs : List ℕ) → Below n xs → x < suc n → Below (suc n) (xs ++ x ∷ [])
Below-append n x [] h p = (p, tt)
Below-append n x (y ∷ xs) h p = (omega (arith, h.0), Below-append n x xs h.1 p)

ids-append : (rs : List ScanRun) (r : ScanRun) → ids (rs ++ r ∷ []) ≡ ids rs ++ r.id ∷ []
ids-append [] r = refl
ids-append (s ∷ rs) r = cc (ids-append rs r)

-- A new row under the next key, that is not active, keeps the invariant.
pub append-IsValid :
    (r : ScanRun) (db db' : Db)
    → r.id ≡ db.next_id
    → is_active r.status ≡ false
    → db'.scan_runs ≡ db.scan_runs ++ r ∷ []
    → db'.next_id ≡ suc db.next_id
    → IsValid db
    → IsValid db'
append-IsValid r db db' key quiet e n v = record {
  unique =
      rw (e, ids-append db.scan_runs r, key)
        (Unique-append db.next_id (ids db.scan_runs) v.unique
          (Below-Absent db.next_id (ids db.scan_runs) v.below));
  below =
      rw (e, ids-append db.scan_runs r, key, n)
        (Below-append db.next_id db.next_id (ids db.scan_runs) v.below (omega arith));
  single = rw (e, active_count-append db.scan_runs (r ∷ [])) (ground (arith, quiet, v.single));
}
