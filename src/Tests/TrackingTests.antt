-- ===== src/Tests/TrackingTests.antt =====
-- One listing of one project, its page, and a pass over the project.
use searchcar_desktop.Base.{inl, inr, String, ◌≡◌, refl, inl, true, false, none, some, [], ◌∷◌}
use searchcar_desktop.Json.{Json, Fields, fields, lookup, get}
use searchcar_desktop.Tracking.Tables.{
  Car, ProjectCar, Catalog, CarStatus, SearchStatus, find_car, find_link,
}
use searchcar_desktop.Tracking.Details.{merge_reliable_detail, is_missing_value}
use searchcar_desktop.Tracking.Reliable.{merge_reliable_detail-sold}
use searchcar_desktop.Tracking.Stable.{merge_reliable_detail-stable}
use searchcar_desktop.Tracking.Absence.{mark_absent}
use searchcar_desktop.Tracking.Missing.{counted, mark_absent-counted}
use searchcar_desktop.Tracking.Availability.{mark_absent-unsold}
use searchcar_desktop.Tracking.Upsert.{upsert_detail, commit_detail}
use searchcar_desktop.Tracking.Events.{authoritative_price}
use searchcar_desktop.Tracking.Prices.{prices_recorded, last_price}
use searchcar_desktop.Tracking.Ledger.{upsert_detail-recorded}
use searchcar_desktop.Tracking.Identity.{WritesOwn, upsert_detail-WritesOwn}

abbrev stored : Fields
stored = fields (
    ("canonical_car_id", Json.string "111")
    ∷ ("fuel", Json.string "DIESEL")
    ∷ (
      "condition",
      Json.dict (
          fields
            (("accident", Json.dict (fields (("status", Json.string "CONFIRMED") ∷ []))) ∷ [])),
    )
    ∷ [])

abbrev page : Fields
page = fields (
    ("canonical_car_id", Json.string "111")
    ∷ ("source_car_id", Json.string "111")
    ∷ ("fuel", Json.string "UNVERIFIED")
    ∷ ("price_krw", Json.number 900)
    ∷ ("price_source", Json.string "DETAIL_PRIMARY")
    ∷ (
      "condition",
      Json.dict (
          fields
            (("accident", Json.dict (fields (("status", Json.string "UNVERIFIED") ∷ []))) ∷ [])),
    )
    ∷ [])

abbrev sold_page : Fields
sold_page = fields (
    ("canonical_car_id", Json.string "111")
    ∷ ("sold", Json.boolean true)
    ∷ ("fuel", Json.string "GASOLINE")
    ∷ [])

abbrev digest : Fields → String
digest _ = "digest"

abbrev repr : Json → String
repr _ = "?"

abbrev sample_car : Car
sample_car = record {
  id = 1;
  canonical_encar_id = "111";
  url = "u";
  title = none;
  status = CarStatus.new_car;
  current_price = some 1000;
  details = some stored;
  fingerprint = some "digest";
  excluded = false;
  updated_at = 1;
}

abbrev sample_link : ProjectCar
sample_link = record {
  project_id = 5;
  car_id = 1;
  first_seen_at = some 1;
  last_seen_at = some 1;
  last_found_at = some 1;
  consecutive_missing_scans = 2;
  search_status = SearchStatus.not_found_in_search;
  is_new = false;
  tracking_enabled = true;
}

abbrev catalog : Catalog
catalog = record {
  cars = sample_car ∷ [];
  project_cars = sample_link ∷ [];
  events = [];
  price_history =
      (record { car_id = 1; payload = fields (("price_krw", Json.number 1000) ∷ []) }) ∷ [];
  snapshots = [];
  next_car_id = 2;
}

-- the new price of the page becomes the last one of the history
upsert_price :
    last_price 1 (upsert_detail repr digest true 9 5 page catalog).1.price_history ≡ some 900
unfolding upsert_detail commit_detail authoritative_price
upsert_price = refl

upsert_detail-recorded_example :
    prices_recorded (upsert_detail repr digest true 9 5 page catalog).1 ≡ true
upsert_detail-recorded_example = upsert_detail-recorded repr digest true 9 5 page catalog refl

abbrev other_car : Car
other_car = record sample_car { id = 3; canonical_encar_id = "222" }

abbrev two_cars : Catalog
two_cars = record catalog { cars = sample_car ∷ other_car ∷ []; next_car_id = 4 }

upsert_detail-WritesOwn_example :
    WritesOwn repr digest page other_car two_cars (upsert_detail repr digest true 9 5 page two_cars)
upsert_detail-WritesOwn_example =
    upsert_detail-WritesOwn repr digest true 9 5 page two_cars other_car (inr (inl refl))

merge_reliable_detail-sold_example :
    lookup "fuel" (merge_reliable_detail digest stored sold_page) ≡ some (Json.string "DIESEL")
merge_reliable_detail-sold_example =
    merge_reliable_detail-sold digest "fuel" stored sold_page refl refl refl

merge_reliable_detail-stable_example :
    is_missing_value (get "fuel" (merge_reliable_detail digest stored page)) ≡ false
merge_reliable_detail-stable_example =
    merge_reliable_detail-stable digest stored page "fuel" refl refl

mark_absent-counted_example :
    find_link 5 1 (mark_absent 5 ("222" ∷ []) true [] catalog).1
    ≡ some (counted false true false sample_link)
mark_absent-counted_example =
    mark_absent-counted 5 ("222" ∷ []) true [] catalog sample_link sample_car (tt, tt) (inl refl)
      refl refl refl refl

mark_absent-unsold_example :
    find_car 1 (mark_absent 5 ("222" ∷ []) true [] catalog).1 ≡ some sample_car
mark_absent-unsold_example = mark_absent-unsold 5 ("222" ∷ []) true [] catalog sample_car refl refl
