-- ===== src/Tracking/Upsert.antt =====
-- `upsert_detail` of backend/app/services.py. One time stands for the calls of `now()`; `repr` is
-- Python's `str` of a value that is no string, which the readers of the pages never store as an
-- id; `digest` is that of `fingerprint_listing`.
use Prim.Native.String.{◌++◌ as ◌+++◌}
use searchcar_desktop.Base.{
  ℕ, suc, String, Bool, false, ◌&&◌, ◌||◌, not, Option, none, some, List, [], ◌∷◌, ◌++◌,
  if◌then◌else◌, str_eq, is_some, or_else,
}
use searchcar_desktop.Json.{Json, Fields, fields, lookup, get, or_value, truthy}
use searchcar_desktop.Tracking.Tables.{
  Car, ProjectCar, CarEvent, CarRecord, Catalog, CarStatus, EventKind, is_sold, find_link,
  find_listing, save_car,
}
use searchcar_desktop.Tracking.Changes.{price_change, material_changes, offer_type}
use searchcar_desktop.Tracking.Details.{merge_reliable_detail, is_empty_dict, fingerprint_listing}
use searchcar_desktop.Tracking.Events.{
  UpsertResult, saved, cross_listing, tracking_disabled, key_error, authoritative_price, provenance,
  status_update, mileage_events, accident_events, update_link, price_rows, offer_type_changed,
  current_price_of, string_or, title_or, string_of, car_event, some_diff,
}

-- https://fem.encar.com/cars/detail/...
abbrev listing_url : String → String
listing_url canonical = "https://fem.encar.com/cars/detail/" +++ canonical

-- car.details or {}
abbrev pub stored_details : Car → Fields
stored_details car = or_else car.details Fields.empty

abbrev pub may_track : Car → Option ProjectCar → Bool
may_track car none = not car.excluded
may_track car (some link) = not car.excluded && link.tracking_enabled

abbrev pub add_car : Car → Fields → Catalog → Catalog
add_car car detail db = record db {
  cars = db.cars ++ car ∷ [];
  events = db.events ++ car_event car.id EventKind.new_event detail ∷ [];
  next_car_id = suc db.next_car_id;
}

-- the row of the listing after the page `detail`, which is merged already
unfoldable pub updated_car : ℕ → CarStatus → Fields → Car → Car
unfolding authoritative_price
updated_car now status detail car = record car {
  url = string_or (get "url" detail) car.url;
  title = title_or (get "title" detail) car.title;
  status = status;
  current_price = current_price_of (authoritative_price detail) car.current_price;
  fingerprint = string_of (get "fingerprint" detail);
  details = some detail;
  updated_at = now;
}

-- the rows that the call has added and changed
unfoldable pub commit_detail :
    Car → List CarEvent → List CarRecord → List CarRecord → Catalog → Catalog
commit_detail row events prices snapshots db = record (save_car row db) {
  events = db.events ++ events;
  price_history = db.price_history ++ prices;
  snapshots = db.snapshots ++ snapshots;
}

module _ (repr : Json → String) (digest : Fields → String) where
  -- str(value)
  abbrev pub str : Json → String
  str (Json.string s) = s
  str v = repr v

  -- str(detail.get("source_car_id") or canonical)
  abbrev pub source_id : String → Fields → String
  source_id canonical detail =
      if truthy (get "source_car_id" detail) then str (get "source_car_id" detail) else canonical

  -- the rest of the call, once the row `car` of the listing is there and may be tracked
  unfoldable pub store_detail :
      Bool → ℕ → ℕ → String → Fields → Car → Option ProjectCar → Catalog → UpsertResult × Catalog
  unfolding status_update price_rows update_link material_changes merge_reliable_detail
  store_detail mark now project source page car link db =
      let old = stored_details car in
      let detail = merge_reliable_detail digest old page in
      let known = not (is_empty_dict old) in
      let diffs = if known then material_changes old detail else [] in
      let price = authoritative_price detail in
      let change =
        if offer_type_changed old detail then none else price_change car.current_price price in
      let differs =
        known
        && not (
            str_eq (fingerprint_listing digest old)
              (or_else (string_of (get "fingerprint" detail)) "")) in
      let prov = provenance source detail in
      let sold_transition = truthy (get "sold" detail) && not (is_sold car.status) in
      let (status, status_events) =
        status_update (truthy (get "sold" detail)) change differs diffs prov car in
      let (link_events, linked) = update_link mark now project car.id link db in
      let row = updated_car now status detail car in
      let changed = not known || (is_some change || (some_diff diffs || sold_transition)) in
      (
        saved row,
        commit_detail row
            (status_events
              ++ mileage_events car.id old detail prov
              ++ accident_events car.id old detail prov
              ++ link_events)
            (price_rows car.id price car.current_price (offer_type detail) source detail)
            (if changed then (record { car_id = car.id; payload = detail }) ∷ [] else []) linked,
      )

  -- Car(canonical_encar_id=canonical, ...), status "NEW"
  abbrev pub created_car : ℕ → ℕ → String → Fields → Car
  created_car id now canonical detail = record {
    id = id;
    canonical_encar_id = canonical;
    url = string_or (get "url" detail) (listing_url canonical);
    title = string_of (get "title" detail);
    status = CarStatus.new_car;
    current_price = none;
    details = none;
    fingerprint = none;
    excluded = false;
    updated_at = now;
  }

  unfoldable pub upsert_listing :
      Bool → ℕ → ℕ → String → String → Fields → Option Car → Catalog → UpsertResult × Catalog
  unfolding store_detail
  upsert_listing mark now project canonical source page none db =
      let detail = merge_reliable_detail digest Fields.empty page in
      let car = created_car db.next_car_id now canonical detail in
      store_detail mark now project source page car none (add_car car detail db)
  upsert_listing mark now project canonical source page (some car) db =
      let link = find_link project car.id db in
      if may_track car link
      then store_detail mark now project source page car link db
      else (tracking_disabled, db)

  unfoldable pub upsert_detail : Bool → ℕ → ℕ → Fields → Catalog → UpsertResult × Catalog
  unfolding upsert_listing
  upsert_detail mark now project page db = elim (lookup "canonical_car_id" page) [
    | none ↦ (key_error, db)
    | some v ↦
        let canonical = str v in
        let source = source_id canonical page in
        if not (truthy (get "sold" page)) && not (str_eq source canonical)
        then (cross_listing, db)
        else upsert_listing mark now project canonical source page (find_listing canonical db) db
  ]

  -- the detail that `upsert_price_status` passes on; `v` is status["canonical_car_id"]
  abbrev pub status_detail : Json → Fields → Fields
  status_detail v status =
      let sold = truthy (get "sold" status) in
      let unless_sold = λ (w : Json). if sold then Json.null else w in
      fields (
        ("canonical_car_id", v)
        ∷ ("source_car_id", get "source_car_id" status)
        ∷ ("displayed_car_id", get "displayed_car_id" status)
        ∷ ("url", get "url" status)
        ∷ ("price_krw", unless_sold (get "price_krw" status))
        ∷ (
          "price_source",
          unless_sold (or_value (lookup "price_source" status) (Json.string "DETAIL_PRIMARY")),
        )
        ∷ ("offer_type", or_value (lookup "offer_type" status) (Json.string "SALE"))
        ∷ ("rental_monthly_payment_krw", get "rental_monthly_payment_krw" status)
        ∷ ("rental_term_months", get "rental_term_months" status)
        ∷ ("rental_acquisition_price_krw", get "rental_acquisition_price_krw" status)
        ∷ ("vehicle_price_krw", get "vehicle_price_krw" status)
        ∷ ("lease_monthly_payment_krw", get "lease_monthly_payment_krw" status)
        ∷ ("lease_term_months", get "lease_term_months" status)
        ∷ ("checked_at", get "checked_at" status)
        ∷ ("parse_quality", Json.string (if sold then "SOLD_PAGE" else "PRICE_STATUS"))
        ∷ ("sold", Json.boolean sold)
        ∷ ("unavailable", Json.boolean false)
        ∷ [])

  -- `upsert_price_status`
  unfoldable pub upsert_price_status : Bool → ℕ → ℕ → Fields → Catalog → UpsertResult × Catalog
  unfolding upsert_detail
  upsert_price_status mark now project status db = elim (lookup "canonical_car_id" status) [
    | none ↦ (key_error, db)
    | some v ↦ upsert_detail mark now project (status_detail v status) db
  ]
