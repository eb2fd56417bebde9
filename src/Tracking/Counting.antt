-- ===== src/Tracking/Counting.antt =====
-- What `mark_absent` makes of the tracked links of a project, and of the cars.
use searchcar_desktop.Base.{
  ℕ, String, ◌≡◌, ◌⊎◌, refl, ◌∙◌, inl, inr, Bool, true, false, ◌&&◌, some, List, [], ◌∷◌, map,
  arith, find_by, All, In, ◌==◌, Bool-cases, Option-cases, if◌then◌else◌,
}
use searchcar_desktop.Tracking.Tables.{
  Car, ProjectCar, Catalog, SearchStatus, is_link, find_link, find_car, save_link,
}
use searchcar_desktop.Tracking.Changes.{apply_missing, one_of}
use searchcar_desktop.Tracking.Absence.{
  missing_link, mark_sold, counted_link, mark_counted, mark_row, mark_rows, tracked_rows, link_rows,
}

-- a link that is written back, and the others
find-saved :
    (p c : ℕ) (l new : ProjectCar) (ls : List ProjectCar)
    → is_link p c new ≡ true
    → find_by (is_link p c) ls ≡ some l
    → find_by (is_link p c) (map (λ m. if is_link new.project_id new.car_id m then new else m) ls)
      ≡ some new
find-saved p c l new [] k h = absurd (cc)
find-saved p c l new (m ∷ ls) k h = elim (Bool-cases (is_link p c m)) [
  | inl e ↦ ground (arith, e, k)
  | inr e ↦ ground (arith, e, k, find-saved p c l new ls k (ground (arith, e)))
]

find-other :
    (p c : ℕ) (new : ProjectCar) (ls : List ProjectCar)
    → is_link p c new ≡ false
    → find_by (is_link p c) (map (λ m. if is_link new.project_id new.car_id m then new else m) ls)
      ≡ find_by (is_link p c) ls
find-other p c new [] k = refl
find-other p c new (m ∷ ls) k = elim (Bool-cases (is_link new.project_id new.car_id m)) [
  | inl e ↦ ground (arith, e, k, find-other p c new ls k)
  | inr e ↦ ground (arith, e, k, find-other p c new ls k)
]

-- the link that a tracked row of the project becomes
abbrev pub next_link : Bool → List String → List String → Car → ProjectCar → ProjectCar
next_link success found sold car link =
    if one_of sold car.canonical_encar_id
    then missing_link link
    else let (count, status) =
        apply_missing success (one_of found car.canonical_encar_id) link.consecutive_missing_scans
          link.search_status in
      counted_link count status link

mark_sold-links :
    (link : ProjectCar) (car : Car) (db : Catalog)
    → (mark_sold link car db).1.project_cars ≡ (save_link (missing_link link) db).project_cars
unfolding mark_sold
mark_sold-links link car db = ground arith

mark_counted-links :
    (o : ℕ × SearchStatus) (link : ProjectCar) (car : Car) (db : Catalog)
    → (mark_counted o link car db).1.project_cars
      ≡ (save_link (counted_link o.0 o.1 link) db).project_cars
unfolding mark_counted
mark_counted-links (count, status) link car db = ground arith

-- each branch of the loop's body writes that link back
mark_row-links :
    (success : Bool) (found sold : List String) (link : ProjectCar) (car : Car) (db : Catalog)
    → (mark_row success found sold link car db).1.project_cars
      ≡ (save_link (next_link success found sold car link) db).project_cars
unfolding mark_row
mark_row-links success found sold link car db =
    elim (Bool-cases (one_of sold car.canonical_encar_id)) [
      | inl e ↦ rw e (mark_sold-links link car db)
      | inr e ↦ rw e (mark_counted-links _ link car db)
    ]

next_link-key :
    (p c : ℕ) (success : Bool) (found sold : List String) (car : Car) (link : ProjectCar)
    → is_link p c (next_link success found sold car link) ≡ is_link p c link
next_link-key p c success found sold car link =
    elim (Bool-cases (one_of sold car.canonical_encar_id)) [ inl e ↦ rw e refl | inr e ↦ rw e refl ]

-- no link under a key
abbrev pub OtherLinks : ℕ → ℕ → List ProjectCar → Type 0
OtherLinks p c ls = All (λ m. is_link p c m ≡ false) ls

-- the primary key of project_cars
abbrev pub UniqueLinks : List ProjectCar → Type 0
UniqueLinks [] = Unit
UniqueLinks (l ∷ ls) = OtherLinks l.project_id l.car_id ls × UniqueLinks ls

pub link_rows-cases :
    (p : ℕ) (l : ProjectCar) (db : Catalog)
    → (link_rows p l db ≡ []) ⊎ ((car : Car) × (link_rows p l db ≡ (l, car) ∷ []))
unfolding link_rows
link_rows-cases p l db = elim (Bool-cases (l.project_id == p && l.tracking_enabled)) [
  | inl t ↦ elim (Option-cases (find_car l.car_id db)) [
    | inl e ↦ inl (rw (t, e) refl)
    | inr (car, e) ↦ elim (Bool-cases car.excluded) [
      | inl x ↦ inl (rw (t, e) (simp x refl))
      | inr x ↦ inr (car, rw (t, e) (simp x refl))
    ]
  ]
  | inr t ↦ inl (rw t refl)
]

same_key :
    (p c : ℕ) (l : ProjectCar) (ls : List ProjectCar)
    → is_link p c l ≡ true
    → OtherLinks l.project_id l.car_id ls
    → OtherLinks p c ls
same_key p c l [] k h = tt
same_key p c l (m ∷ ls) k h = (ground (arith, k, h.0), same_key p c l ls k h.1)

not_same :
    (p c : ℕ) (l link : ProjectCar) (ls : List ProjectCar)
    → is_link p c link ≡ true
    → In link ls
    → OtherLinks l.project_id l.car_id ls
    → is_link p c l ≡ false
not_same p c l link [] k m h = elim m [ ]
not_same p c l link (x ∷ ls) k (inl e) h = ground (arith, rw e at k, h.0)
not_same p c l link (x ∷ ls) k (inr m) h = not_same p c l link ls k m h.1

module _ (success : Bool) (found sold : List String) (p c : ℕ) (first : Catalog) where
  -- the rows of other links leave a link alone
  row-other :
      (link : ProjectCar) (car : Car) (db : Catalog)
      → is_link p c link ≡ false
      → find_link p c (mark_row success found sold link car db).1 ≡ find_link p c db
  row-other link car db k = rw (mark_row-links success found sold link car db) (
      find-other p c (next_link success found sold car link) db.project_cars
        (next_link-key p c success found sold car link ∙ k))

  rows-other :
      (ls : List ProjectCar) (db : Catalog)
      → OtherLinks p c ls
      → find_link p c (mark_rows success found sold (tracked_rows p ls first) db).1
        ≡ find_link p c db
  unfolding mark_rows tracked_rows
  rows-other [] db h = refl
  rows-other (l ∷ ls) db h = elim (link_rows-cases p l first) [
    | inl e ↦ rw e (rows-other ls db h.1)
    | inr (car, e) ↦
        rw e (rows-other ls (mark_row success found sold l car db).1 h.1 ∙ row-other l car db h.0)
  ]

  -- and the row of the link, with its car, takes it to the next one
  pub rows-own :
      (link : ProjectCar) (car : Car) (ls : List ProjectCar) (db : Catalog)
      → In link ls
      → UniqueLinks ls
      → is_link p c link ≡ true
      → link_rows p link first ≡ (link, car) ∷ []
      → find_link p c db ≡ some link
      → find_link p c (mark_rows success found sold (tracked_rows p ls first) db).1
        ≡ some (next_link success found sold car link)
  unfolding mark_rows tracked_rows
  rows-own link car [] db m u k r h = elim m [ ]
  rows-own link car (l ∷ ls) db (inl q) u k r h = rw (← q) (
      rw r (
        rows-other ls (mark_row success found sold link car db).1
          (same_key p c l ls (rw q at k) u.0)
        ∙ (rw (mark_row-links success found sold link car db) (
            find-saved p c link (next_link success found sold car link) db.project_cars
              (next_link-key p c success found sold car link ∙ k) h))))
  rows-own link car (l ∷ ls) db (inr m) u k r h =
      let other = not_same p c l link ls k m u.0 in
      elim (link_rows-cases p l first) [
        | inl e ↦ rw e (rows-own link car ls db m u.1 k r h)
        | inr (x, e) ↦ rw e (
            rows-own link car ls (mark_row success found sold l x db).1 m u.1 k r
              (row-other l x db other ∙ h))
      ]
