-- ===== src/Tracking/Ledger.antt =====
-- `upsert_detail` keeps the price of every listing recorded in its price history.
use searchcar_desktop.Base.{
  ℕ, String, ◌≡◌, refl, sym, ap, inl, inr, Bool, true, false, ◌&&◌, not, Option, none, some, List,
  [], ◌∷◌, ◌++◌, map, arith, all, find_by, ◌==◌, str_eq, if◌then◌else◌, Bool-cases, Option-cases,
}
use searchcar_desktop.Json.{Json, Fields, get, truthy, lookup}
use searchcar_desktop.Tracking.Tables.{
  Car, ProjectCar, CarEvent, CarRecord, Catalog, CarStatus, find_listing, find_link,
}
use searchcar_desktop.Tracking.Events.{
  authoritative_price, price_rows, current_price_of, update_link,
}
use searchcar_desktop.Tracking.Details.{merge_reliable_detail}
use searchcar_desktop.Tracking.Changes.{offer_type}
use searchcar_desktop.Tracking.Upsert.{
  updated_car, commit_detail, store_detail, created_car, add_car, upsert_listing, upsert_detail,
  stored_details, may_track, str, source_id,
}
use searchcar_desktop.Tracking.Prices.{
  priced, prices_recorded, recorded, last_price, price_rows-other, price_rows-recorded,
}

-- the commit of a car and of its price rows
saved-priced :
    (row : Car) (h h' : List CarRecord) (cs : List Car)
    → priced h' row ≡ true
    → ((id : ℕ) → (row.id == id) ≡ false → last_price id h' ≡ last_price id h)
    → all (priced h) cs ≡ true
    → all (priced h') (map (λ c. if c.id == row.id then row else c) cs) ≡ true
saved-priced row h h' [] r o a = refl
saved-priced row h h' (c ∷ cs) r o a = elim (Bool-cases (c.id == row.id)) [
  | inl e ↦ ground (arith, e, r, saved-priced row h h' cs r o (ground arith))
  | inr e ↦
      let same = o c.id (ground (arith, e)) in
      ground (
        arith,
        e,
        a,
        ap (recorded c.current_price) same,
        saved-priced row h h' cs r o (ground arith),
      )
]

pub update_link-keeps :
    (mark : Bool) (now project car : ℕ) (link : Option ProjectCar) (db : Catalog)
    → let db' = (update_link mark now project car link db).1 in
      (db'.cars ≡ db.cars) × (db'.price_history ≡ db.price_history)
unfolding update_link
update_link-keeps mark now project car none db = (refl, refl)
update_link-keeps mark now project car (some link) db = (refl, refl)

found-priced :
    (h : List CarRecord) (name : String) (cs : List Car) (car : Car)
    → find_by (λ c. str_eq c.canonical_encar_id name) cs ≡ some car
    → all (priced h) cs ≡ true
    → priced h car ≡ true
found-priced h name [] car e a = absurd (cc)
found-priced h name (c ∷ cs) car e a = elim (Bool-cases (str_eq c.canonical_encar_id name)) [
  | inl q ↦ let here : c ≡ car = ground (arith, q, e) in rw (sym here) (ground (arith, a))
  | inr q ↦ found-priced h name cs car (ground (arith, q, e)) (ground (arith, a))
]

appended-priced :
    (h : List CarRecord) (cs : List Car) (car : Car)
    → priced h car ≡ true
    → all (priced h) cs ≡ true
    → all (priced h) (cs ++ car ∷ []) ≡ true
appended-priced h [] car p a = ground (arith, p)
appended-priced h (c ∷ cs) car p a = ground (arith, a, appended-priced h cs car p (ground arith))

updated_car-row :
    (now : ℕ) (status : CarStatus) (detail : Fields) (car : Car)
    → let row = updated_car now status detail car in
      (row.id ≡ car.id)
      × (row.current_price ≡ current_price_of (authoritative_price detail) car.current_price)
unfolding updated_car
updated_car-row now status detail car = (refl, refl)

-- The commit of the row of a listing, with the price rows that its page calls for.
commit_detail-recorded :
    (row car : Car) (price : Option ℕ) (offer : Json) (source : String) (detail : Fields)
    (events : List CarEvent) (snapshots : List CarRecord) (linked db : Catalog)
    → row.id ≡ car.id
    → row.current_price ≡ current_price_of price car.current_price
    → linked.cars ≡ db.cars
    → linked.price_history ≡ db.price_history
    → priced db.price_history car ≡ true
    → prices_recorded db ≡ true
    → prices_recorded (
        commit_detail row events
          (price_rows car.id price car.current_price offer source detail)
          snapshots
          linked)
      ≡ true
unfolding commit_detail
commit_detail-recorded row car price offer source detail events snapshots linked db i c kc kh p a =
    rw (kc, kh)
      (saved-priced row db.price_history
        (db.price_history ++ price_rows car.id price car.current_price offer source detail) db.cars
        (rw (i, c)
          (price_rows-recorded car.id price car.current_price offer source detail db.price_history
            p))
        (λ id d.
          price_rows-other id car.id price car.current_price offer source detail db.price_history
            (rw (← i) d))
        a)

module _ (repr : Json → String) (digest : Fields → String) where
  store_detail-recorded :
      (mark : Bool) (now project : ℕ) (source : String) (page : Fields) (car : Car)
      (link : Option ProjectCar) (db : Catalog)
      → priced db.price_history car ≡ true
      → prices_recorded db ≡ true
      → prices_recorded (store_detail repr digest mark now project source page car link db).1 ≡ true
  unfolding store_detail
  store_detail-recorded mark now project source page car link db p a =
      let k = update_link-keeps mark now project car.id link db in
      let detail = merge_reliable_detail digest (stored_details car) page in
      commit_detail-recorded _ car (authoritative_price detail) (offer_type detail) source detail _
        _ _ db (updated_car-row now _ detail car).0 (updated_car-row now _ detail car).1 k.0 k.1 p a

  upsert_listing-recorded :
      (mark : Bool) (now project : ℕ) (canonical source : String) (page : Fields) (db : Catalog)
      → prices_recorded db ≡ true
      → prices_recorded
          (upsert_listing repr digest mark now project canonical source page
            (find_listing canonical db)
            db).1
        ≡ true
  unfolding upsert_listing
  upsert_listing-recorded mark now project canonical source page db a =
      elim (Option-cases (find_listing canonical db)) [
        | inl e ↦
            let detail = merge_reliable_detail digest Fields.empty page in
            let car = created_car repr digest db.next_car_id now canonical detail in
            rw e (
              store_detail-recorded mark now project source page car none (add_car car detail db)
                refl (appended-priced db.price_history db.cars car refl a))
        | inr (car, e) ↦ rw e (elim (Bool-cases (may_track car (find_link project car.id db))) [
          | inl t ↦ rw t (
              store_detail-recorded mark now project source page car (find_link project car.id db)
                db (found-priced db.price_history canonical db.cars car e a) a)
          | inr t ↦ rw t a
        ])
      ]

  -- If the price of every listing that has one is the last of its price history, it is so after
  -- every upsert, whatever the page says. Zero counts as no price.
  pub upsert_detail-recorded :
      (mark : Bool) (now project : ℕ) (page : Fields) (db : Catalog)
      → prices_recorded db ≡ true
      → prices_recorded (upsert_detail repr digest mark now project page db).1 ≡ true
  unfolding upsert_detail
  upsert_detail-recorded mark now project page db a =
      elim (Option-cases (lookup "canonical_car_id" page)) [
        | inl e ↦ rw (upsert_detail, e) a
        | inr (v, e) ↦
            let canonical = str repr digest v in
            let source = source_id repr digest canonical page in
            rw (upsert_detail, e)
              (elim (Bool-cases (not (truthy (get "sold" page)) && not (str_eq source canonical))) [
                | inl q ↦ rw q a
                | inr q ↦ rw q (upsert_listing-recorded mark now project canonical source page db a)
              ])
      ]
