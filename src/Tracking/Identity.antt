-- ===== src/Tracking/Identity.antt =====
-- Which listing `upsert_detail` writes, and what it leaves when it refuses.
use mathlib.Core.Path.{subst}
use searchcar_desktop.Base.{
  ℕ, String, ◌≡◌, ◌⊎◌, refl, sym, ap, ◌∙◌, inl, inr, Bool, true, ◌&&◌, ◌||◌, not, Option, none,
  some, List, [], ◌∷◌, arith, find_by, str_eq, In, map, ◌++◌, ◌==◌, ==→eq, ==_refl, false,
  if◌then◌else◌, Bool-cases, Option-cases,
}
use searchcar_desktop.Json.{Json, Fields, get, truthy, lookup}
use searchcar_desktop.Json.Lookup.{str_eq→eq}
use searchcar_desktop.Tracking.Tables.{Car, ProjectCar, Catalog, find_listing, find_link}
use searchcar_desktop.Tracking.Events.{UpsertResult, saved}
use searchcar_desktop.Tracking.Ledger.{update_link-keeps}
use searchcar_desktop.Tracking.Details.{merge_reliable_detail}
use searchcar_desktop.Tracking.Upsert.{
  store_detail, updated_car, created_car, add_car, upsert_listing, upsert_detail, may_track, str,
  commit_detail, source_id,
}

found-listing :
    (name : String) (cs : List Car) (car : Car)
    → find_by (λ c. str_eq c.canonical_encar_id name) cs ≡ some car
    → car.canonical_encar_id ≡ name
found-listing name [] car e = absurd (cc)
found-listing name (c ∷ cs) car e = elim (Bool-cases (str_eq c.canonical_encar_id name)) [
  | inl q ↦
      let here : c ≡ car = ground (arith, q, e) in
      ap (λ (x : Car). x.canonical_encar_id) (sym here) ∙ str_eq→eq c.canonical_encar_id name q
  | inr q ↦ found-listing name cs car (ground (arith, q, e))
]

abbrev pub is_refusal : UpsertResult → Bool
is_refusal (saved car) = false
is_refusal _ = true

-- the row is in the table, and a given row of another car is still there
abbrev pub Saved : Car → Car → Catalog → Type 0
Saved car other db = In car db.cars × ((other.id ≡ car.id) ⊎ In other db.cars)

write_car : Car → Car → Car
write_car car c = if c.id == car.id then car else c

save-In :
    (car old : Car) (cs : List Car) → In old cs → car.id ≡ old.id → In car (map (write_car car) cs)
unfolding write_car
save-In car old [] m e = elim m [ ]
save-In car old (c ∷ cs) (inl q) e = inl (rw (same_id c old car q e) refl)
  where
    same_id : (c old car : Car) → old ≡ c → car.id ≡ old.id → (c.id == car.id) ≡ true
    same_id c old car q e =
        let k : c.id ≡ car.id = sym (e ∙ ap (λ (x : Car). x.id) q) in rw k (==_refl car.id)
save-In car old (c ∷ cs) (inr m) e = inr (save-In car old cs m e)

keep-In :
    (car other : Car) (cs : List Car)
    → In other cs
    → (other.id ≡ car.id) ⊎ In other (map (write_car car) cs)
unfolding write_car
keep-In car other [] m = elim m [ ]
keep-In car other (c ∷ cs) (inl q) = elim (Bool-cases (other.id == car.id)) [
  | inl e ↦ inl (==→eq other.id car.id e)
  | inr e ↦ inr (inl (stays c other q e))
]
  where
    stays :
        (c other : Car)
        → other ≡ c
        → (other.id == car.id) ≡ false
        → other ≡ (if c.id == car.id then car else c)
    stays c other q e =
        subst (λ (x : Car). other ≡ (if x.id == car.id then car else x)) q (rw e refl)
keep-In car other (c ∷ cs) (inr m) = elim (keep-In car other cs m) [
  | inl e ↦ inl e
  | inr n ↦ inr (inr n)
]

found-In :
    (name : String) (cs : List Car) (car : Car)
    → find_by (λ c. str_eq c.canonical_encar_id name) cs ≡ some car
    → In car cs
found-In name [] car e = absurd (cc)
found-In name (c ∷ cs) car e = elim (Bool-cases (str_eq c.canonical_encar_id name)) [
  | inl q ↦ inl (ground (arith, q, e))
  | inr q ↦ inr (found-In name cs car (ground (arith, q, e)))
]

In-last : (car : Car) (cs : List Car) → In car (cs ++ car ∷ [])
In-last car [] = inl refl
In-last car (c ∷ cs) = inr (In-last car cs)

In-append : (other car : Car) (cs : List Car) → In other cs → In other (cs ++ car ∷ [])
In-append other car [] m = elim m [ ]
In-append other car (c ∷ cs) (inl e) = inl e
In-append other car (c ∷ cs) (inr m) = inr (In-append other car cs m)

module _ (repr : Json → String) (digest : Fields → String) where
  -- the result of an upsert that writes the named listing, and leaves another car
  abbrev pub Writes : String → Car → UpsertResult × Catalog → Type 0
  Writes canonical other (result, db') =
      (car : Car) × (result ≡ saved car)
      × (car.canonical_encar_id ≡ canonical)
      × Saved car other db'

  store_detail-Writes :
      (mark : Bool) (now project : ℕ) (source : String) (page : Fields) (car other : Car)
      (link : Option ProjectCar) (db : Catalog)
      → In car db.cars
      → In other db.cars
      → Writes car.canonical_encar_id other
          (store_detail repr digest mark now project source page car link db)
  unfolding store_detail updated_car commit_detail write_car
  store_detail-Writes mark now project source page car other link db m n =
      let o = store_detail repr digest mark now project source page car link db in
      let row = saved_car o.0 car in
      let kept = ap (map (write_car row)) (update_link-keeps mark now project car.id link db).0 in
      (
        row,
        refl,
        refl,
        (
          subst (λ (cs : List Car). In row cs) (sym kept) (save-In row car db.cars m refl),
          subst (λ (cs : List Car). (other.id ≡ row.id) ⊎ In other cs) (sym kept)
              (keep-In row other db.cars n),
        ),
      )
    where
      saved_car : UpsertResult → Car → Car
      saved_car (saved c) d = c
      saved_car _ d = d

  abbrev pub WritesOwn : Fields → Car → Catalog → UpsertResult × Catalog → Type 0
  WritesOwn page other db (result, db') =
      (Writes (str repr digest (get "canonical_car_id" page)) other (result, db')
        × ((truthy (get "sold" page)
              || str_eq (source_id repr digest (str repr digest (get "canonical_car_id" page)) page)
                  (str repr digest (get "canonical_car_id" page)))
            ≡ true))
      ⊎ ((is_refusal result ≡ true) × (db' ≡ db))

  upsert_listing-own :
      (mark : Bool) (now project : ℕ) (canonical source : String) (page : Fields) (other : Car)
      (db : Catalog)
      → In other db.cars
      → let o =
          upsert_listing repr digest mark now project canonical source page
            (find_listing canonical db)
            db in
        Writes canonical other o ⊎ ((is_refusal o.0 ≡ true) × (o.1 ≡ db))
  unfolding upsert_listing
  upsert_listing-own mark now project canonical source page other db n =
      elim (Option-cases (find_listing canonical db)) [
        | inl e ↦
            let detail = merge_reliable_detail digest Fields.empty page in
            let car = created_car repr digest db.next_car_id now canonical detail in
            rw (upsert_listing, e)
              (inl (
                store_detail-Writes mark now project source page car other none
                  (add_car car detail db) (In-last car db.cars) (In-append other car db.cars n)))
        | inr (car, e) ↦ elim (Bool-cases (may_track car (find_link project car.id db))) [
          | inl t ↦
              rw (upsert_listing, e, t)
                (inl (
                  subst
                    (λ (x : String). Writes x other (
                      store_detail repr digest mark now project source page car
                        (find_link project car.id db) db))
                    (found-listing canonical db.cars car e)
                    (store_detail-Writes mark now project source page car other
                      (find_link project car.id db) db (found-In canonical db.cars car e) n)))
          | inr t ↦ rw (upsert_listing, e, t) (inr (refl, refl))
        ]
      ]

  -- An upsert either puts the row of the listing that the page names into the table, where the page
  -- is of a sold listing or shows that listing itself, and leaves the row of every other car as it
  -- was, or it refuses and leaves the tables as they were.
  pub upsert_detail-WritesOwn :
      (mark : Bool) (now project : ℕ) (page : Fields) (db : Catalog) (other : Car)
      → In other db.cars
      → WritesOwn page other db (upsert_detail repr digest mark now project page db)
  unfolding upsert_detail
  upsert_detail-WritesOwn mark now project page db other n =
      elim (Option-cases (lookup "canonical_car_id" page)) [
        | inl e ↦ rw (upsert_detail, e) (inr (refl, refl))
        | inr (v, e) ↦
            let canonical = str repr digest v in
            let source = source_id repr digest canonical page in
            elim (Bool-cases (not (truthy (get "sold" page)) && not (str_eq source canonical))) [
              | inl q ↦ rw (upsert_detail, e, q) (inr (refl, refl))
              | inr q ↦
                  rw (upsert_detail, e, q)
                    (elim (upsert_listing-own mark now project canonical source page other db n) [
                      | inl w ↦ inl (w, ground (arith, q))
                      | inr r ↦ inr r
                    ])
            ]
      ]
