-- ===== src/System/Conflicts.antt =====
-- Two runs that `enqueue` of backend/app/main.py does not let exist together: unfinished runs of
-- one owner that hold a project or a car in common.
use searchcar_desktop.Base.{
  ℕ, ◌≡◌, refl, ap, inl, inr, Bool, true, false, ◌&&◌, ◌||◌, List, [], ◌∷◌, ◌++◌, arith, All, map,
  select, contains, ◌==◌, ==→eq, Bool-cases,
}
use searchcar_desktop.Store.{ScanRun, is_unfinished}
use searchcar_desktop.Queue.Enqueue.{overlaps}

unfoldable pub conflicting : ScanRun → ScanRun → Bool
conflicting r s =
    r.owner_id == s.owner_id
    && (is_unfinished r.status
        && (is_unfinished s.status
            && (overlaps r.payload.project_ids s.payload.project_ids
                || overlaps r.payload.car_ids s.payload.car_ids)))

abbrev pub Apart : ScanRun → ScanRun → Type 0
Apart r s = conflicting r s ≡ false

-- no two rows of the table are in conflict
abbrev pub Disjoint : List ScanRun → Type 0
Disjoint [] = Unit
Disjoint (r ∷ rs) = All (Apart r) rs × Disjoint rs

overlaps-common :
    (xs ys : List ℕ)
    → overlaps xs ys ≡ true
    → (p : ℕ) × (contains xs p ≡ true) × (contains ys p ≡ true)
overlaps-common xs [] h = absurd (cc)
overlaps-common xs (y ∷ ys) h = elim (Bool-cases (contains xs y)) [
  | inl e ↦ (y, e, ground arith)
  | inr e ↦ let (p, a, b) = overlaps-common xs ys (ground (arith, e)) in (p, a, ground (arith, b))
]

common-overlaps :
    (p : ℕ) (xs ys : List ℕ) → contains xs p ≡ true → contains ys p ≡ true → overlaps xs ys ≡ true
common-overlaps p xs [] a b = absurd (cc)
common-overlaps p xs (y ∷ ys) a b = elim (Bool-cases (y == p)) [
  | inl e ↦ rw (==→eq y p e, a) refl
  | inr e ↦ ground (arith, common-overlaps p xs ys a (ground (arith, e)))
]

pub overlaps_sym : (xs ys : List ℕ) → overlaps ys xs ≡ true → overlaps xs ys ≡ true
overlaps_sym xs ys h = let (p, a, b) = overlaps-common ys xs h in common-overlaps p xs ys b a

-- what two lists have in common, two longer lists have
overlaps-grow :
    (xs ys us vs : List ℕ)
    → ((p : ℕ) → contains us p ≡ true → contains xs p ≡ true)
    → ((p : ℕ) → contains vs p ≡ true → contains ys p ≡ true)
    → overlaps us vs ≡ true
    → overlaps xs ys ≡ true
overlaps-grow xs ys us vs a b h =
    let (p, c, d) = overlaps-common us vs h in common-overlaps p xs ys (a p c) (b p d)

-- a filtered list holds no new item
pub contains-select :
    (test : ℕ → Bool) (xs : List ℕ) (p : ℕ)
    → contains (select test xs) p ≡ true
    → contains xs p ≡ true
contains-select test [] p h = h
contains-select test (x ∷ xs) p h = ground (arith, contains-select test xs p)

-- a row that is in no conflict in which it was not before
pub record Narrows (r s : ScanRun) : Type 0 where
  pub owner : s.owner_id ≡ r.owner_id
  pub unfinished : is_unfinished s.status ≡ true → is_unfinished r.status ≡ true
  pub held :
      (p : ℕ) → contains s.payload.project_ids p ≡ true → contains r.payload.project_ids p ≡ true
  pub cars : s.payload.car_ids ≡ r.payload.car_ids

conflicting-Narrows :
    (r s r' s' : ScanRun)
    → Narrows r r'
    → Narrows s s'
    → conflicting r' s' ≡ true
    → conflicting r s ≡ true
unfolding conflicting
conflicting-Narrows r s r' s' f g h = ground (
  arith,
  f.owner,
  g.owner,
  f.unfinished,
  g.unfinished,
  overlaps-grow r.payload.project_ids s.payload.project_ids r'.payload.project_ids
      s'.payload.project_ids f.held g.held,
  ap (λ xs. overlaps xs s'.payload.car_ids) f.cars,
  ap (overlaps r.payload.car_ids) g.cars,
)

Apart-Narrows : (r s r' s' : ScanRun) → Narrows r r' → Narrows s s' → Apart r s → Apart r' s'
Apart-Narrows r s r' s' f g h = elim (Bool-cases (conflicting r' s')) [
  | inl e ↦ absurd (cc (conflicting-Narrows r s r' s' f g e))
  | inr e ↦ e
]

module _ (f : ScanRun → ScanRun) (narrows : (r : ScanRun) → Narrows r (f r)) where
  All-Apart-map :
      (r : ScanRun) (rs : List ScanRun) → All (Apart r) rs → All (Apart (f r)) (map f rs)
  All-Apart-map r [] h = tt
  All-Apart-map r (x ∷ rs) h =
      (Apart-Narrows r x (f r) (f x) (narrows r) (narrows x) h.0, All-Apart-map r rs h.1)

  -- An update of the rows that brings none into a conflict.
  pub Disjoint-map : (rs : List ScanRun) → Disjoint rs → Disjoint (map f rs)
  Disjoint-map [] h = tt
  Disjoint-map (r ∷ rs) h = (All-Apart-map r rs h.0, Disjoint-map rs h.1)

-- A new row that is in conflict with none.
pub Disjoint-append :
    (rs : List ScanRun) (new : ScanRun)
    → All (λ r. Apart r new) rs
    → Disjoint rs
    → Disjoint (rs ++ new ∷ [])
Disjoint-append [] new a h = (tt, tt)
Disjoint-append (r ∷ rs) new a h = (All-append rs h.0, Disjoint-append rs new a.1 h.1)
  where
    All-append : (xs : List ScanRun) → All (Apart r) xs → All (Apart r) (xs ++ new ∷ [])
    All-append [] k = (a.0, tt)
    All-append (x ∷ xs) k = (k.0, All-append xs k.1)
