-- ===== src/Tracking/Availability.antt =====
-- Search membership is no proof of a sale: which cars `mark_absent` may change.
use searchcar_desktop.Base.{
  ℕ, String, ◌≡◌, ◌⊎◌, refl, sym, ap, ◌∙◌, inl, inr, Bool, false, ◌&&◌, some, List, [], ◌∷◌, map,
  arith, find_by, ◌==◌, ==→eq, Bool-cases, Option-cases, if◌then◌else◌,
}
use mathlib.Core.Path.{subst}
use mathlib.Core.Option.{some-injective}
use searchcar_desktop.Tracking.Tables.{
  Car, ProjectCar, Catalog, CarStatus, SearchStatus, find_car, is_sold,
}
use searchcar_desktop.Tracking.Changes.{one_of}
use searchcar_desktop.Tracking.Absence.{
  mark_sold, mark_counted, mark_row, mark_rows, tracked_rows, link_rows, mark_absent,
}

find-saved_other :
    (id : ℕ) (row : Car) (cs : List Car)
    → (row.id == id) ≡ false
    → find_by (λ c. c.id == id) (map (λ c. if c.id == row.id then row else c) cs)
      ≡ find_by (λ c. c.id == id) cs
find-saved_other id row [] h = refl
find-saved_other id row (c ∷ cs) h = elim (Bool-cases (c.id == row.id)) [
  | inl e ↦ ground (arith, e, h, find-saved_other id row cs h)
  | inr e ↦ ground (arith, e, h, find-saved_other id row cs h)
]

mark_counted-cars :
    (o : ℕ × SearchStatus) (link : ProjectCar) (car : Car) (db : Catalog)
    → (mark_counted o link car db).1.cars ≡ db.cars
unfolding mark_counted
mark_counted-cars (count, status) link car db = ground arith

mark_sold-car :
    (id : ℕ) (link : ProjectCar) (car : Car) (db : Catalog)
    → (car.id == id) ≡ false
    → find_car id (mark_sold link car db).1 ≡ find_car id db
unfolding mark_sold
mark_sold-car id link car db h = elim (Bool-cases (is_sold car.status)) [
  | inl e ↦ rw e refl
  | inr e ↦ rw e (find-saved_other id (record car { status = CarStatus.sold }) db.cars h)
]

module _ (success : Bool) (found sold : List String) (id : ℕ) where
  -- the row of a car that is not confirmed as sold
  mark_row-car :
      (link : ProjectCar) (car : Car) (db : Catalog)
      → (car.id == id && one_of sold car.canonical_encar_id) ≡ false
      → find_car id (mark_row success found sold link car db).1 ≡ find_car id db
  unfolding mark_row
  mark_row-car link car db h = elim (Bool-cases (one_of sold car.canonical_encar_id)) [
    | inl e ↦ rw e (mark_sold-car id link car db (ground (arith, e)))
    | inr e ↦ rw e (ap (find_by (λ c. c.id == id)) (mark_counted-cars _ link car db))
  ]

find_car-id : (id : ℕ) (cs : List Car) (c : Car) → find_by (λ c. c.id == id) cs ≡ some c → c.id ≡ id
find_car-id id [] c h = absurd (cc)
find_car-id id (x ∷ cs) c h = ground (arith, find_car-id id cs c)

-- the car of a row is the one that is found under its id
link_rows-found :
    (p : ℕ) (l : ProjectCar) (db : Catalog)
    → (link_rows p l db ≡ [])
      ⊎ ((car : Car) × (link_rows p l db ≡ (l, car) ∷ []) × (find_car car.id db ≡ some car))
unfolding link_rows
link_rows-found p l db = elim (Bool-cases (l.project_id == p && l.tracking_enabled)) [
  | inl t ↦ elim (Option-cases (find_car l.car_id db)) [
    | inl e ↦ inl (rw (t, e) refl)
    | inr (car, e) ↦ elim (Bool-cases car.excluded) [
      | inl x ↦ inl (rw (t, e) (simp x refl))
      | inr x ↦ inr (
        car,
        rw (t, e) (simp x refl),
        subst (λ k. find_by (λ c. c.id == k) db.cars ≡ some car)
            (sym (find_car-id l.car_id db.cars car e)) e,
      )
    ]
  ]
  | inr t ↦ inl (rw t refl)
]

module _ (success : Bool) (found sold : List String) (p : ℕ) (first : Catalog) (c : Car) where
  not_confirmed :
      (x : Car)
      → find_car c.id first ≡ some c
      → one_of sold c.canonical_encar_id ≡ false
      → find_car x.id first ≡ some x
      → (x.id == c.id && one_of sold x.canonical_encar_id) ≡ false
  not_confirmed x f s g = elim (Bool-cases (x.id == c.id)) [
    | inl e ↦
        let same : c ≡ x = some-injective c x (
          sym f
          ∙ subst (λ k. find_by (λ y. y.id == k) first.cars ≡ some x) (==→eq x.id c.id e) g) in
        rw e (ap (λ (y : Car). one_of sold y.canonical_encar_id) (sym same) ∙ s)
    | inr e ↦ rw e refl
  ]

  mark_rows-car :
      (ls : List ProjectCar) (db : Catalog)
      → find_car c.id first ≡ some c
      → one_of sold c.canonical_encar_id ≡ false
      → find_car c.id (mark_rows success found sold (tracked_rows p ls first) db).1
        ≡ find_car c.id db
  unfolding mark_rows tracked_rows
  mark_rows-car [] db f s = refl
  mark_rows-car (l ∷ ls) db f s = elim (link_rows-found p l first) [
    | inl e ↦ rw e (mark_rows-car ls db f s)
    | inr (x, e, g) ↦ rw e (
        mark_rows-car ls (mark_row success found sold l x db).1 f s
        ∙ mark_row-car success found sold c.id l x db (not_confirmed x f s g))
  ]

-- A car whose listing is not confirmed as sold is left as it is by the pass over a project, however
-- often a search has missed it.
pub mark_absent-unsold :
    (project : ℕ) (found : List String) (success : Bool) (sold : List String) (db : Catalog)
    (c : Car)
    → find_car c.id db ≡ some c
    → one_of sold c.canonical_encar_id ≡ false
    → find_car c.id (mark_absent project found success sold db).1 ≡ some c
unfolding mark_absent
mark_absent-unsold project found success sold db c f s =
    mark_rows-car success found sold project db c db.project_cars db f s ∙ f
