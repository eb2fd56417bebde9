-- ===== src/Tracking/Events.antt =====
-- The rows that `upsert_detail` of backend/app/services.py adds: what it concludes from the stored
-- details of a listing and those of its page.
use searchcar_desktop.Base.{
  ℕ, String, Bool, true, false, ◌&&◌, ◌||◌, not, Option, none, some, List, [], ◌∷◌, if◌then◌else◌,
  ◌==◌, or_else, opt_eq,
}
use searchcar_desktop.Json.{Json, Items, Fields, get, truthy, merge, json_eq}
use searchcar_desktop.Tracking.Tables.{
  Car, ProjectCar, CarEvent, CarRecord, Catalog, CarStatus, SearchStatus, EventKind, is_sold,
  is_missing, save_link, add_link,
}
use searchcar_desktop.Tracking.Changes.{PriceChange, Diff, offer_type, accident_signature, one_of}
use searchcar_desktop.Tracking.Details.{is_empty_dict}

pub data UpsertResult : Type 0 where
  saved : Car → UpsertResult
  cross_listing tracking_disabled key_error : UpsertResult

abbrev pub authoritative_sources : List String
authoritative_sources = "DETAIL_PRIMARY" ∷ "DETAIL_RENTAL_MONTHLY" ∷ "DETAIL_LEASE_MONTHLY" ∷ []

abbrev pub number_of : Json → Option ℕ
number_of (Json.number n) = some n
number_of _ = none

abbrev pub string_of : Json → Option String
string_of (Json.string s) = some s
string_of _ = none

abbrev pub named_in : List String → Json → Bool
named_in names (Json.string s) = one_of names s
named_in names _ = false

unfoldable pub authoritative_price : Fields → Option ℕ
authoritative_price detail =
    if named_in authoritative_sources (get "price_source" detail)
    then number_of (get "price_krw" detail)
    else none

-- {"source_car_id": ..., "price_source": ..., "scan_run_id": ..., "checked_at": ...}
abbrev pub provenance : String → Fields → Fields
provenance source detail = Fields.field "source_car_id" (Json.string source) (
    Fields.field "price_source" (get "price_source" detail) (
      Fields.field "scan_run_id" (get "scan_run_id" detail)
        (Fields.field "checked_at" (get "checked_at" detail) Fields.empty)))

abbrev pub change_kind : PriceChange → EventKind
change_kind c = if c.drop then EventKind.price_drop_event else EventKind.price_increase_event

abbrev pub change_status : PriceChange → CarStatus
change_status c = if c.drop then CarStatus.price_drop else CarStatus.price_increase

abbrev pub change_fields : PriceChange → Fields
change_fields c =
    Fields.field "type" (Json.string (if c.drop then "PRICE_DROP" else "PRICE_INCREASE")) (
      Fields.field "old" (Json.number c.old) (
        Fields.field "new" (Json.number c.new)
          (Fields.field "difference" (Json.number c.difference) Fields.empty)))

abbrev pub car_event : ℕ → EventKind → Fields → CarEvent
car_event car kind payload = record {
  car_id = car;
  kind = kind;
  project_id = none;
  payload = payload;
}

abbrev pub diff_items : List Diff → Items
diff_items [] = Items.end
diff_items (d ∷ ds) =
    Items.item
      (Json.dict (
        Fields.field "field" (Json.string d.name)
          (Fields.field "old" d.old (Fields.field "new" d.new Fields.empty))))
      (diff_items ds)

abbrev pub some_diff : List Diff → Bool
some_diff [] = false
some_diff (_ ∷ _) = true

-- payload={"reason": "encar_sold_or_deleted_page"}
abbrev pub sold_reason : Fields
sold_reason = Fields.field "reason" (Json.string "encar_sold_or_deleted_page") Fields.empty

-- what the branches on `detail.get("sold")`, `change` and the rest make of the status, and the
-- event that they add
unfoldable pub status_update :
    Bool → Option PriceChange → Bool → List Diff → Fields → Car → CarStatus × List CarEvent
status_update true change differs diffs prov car = (
  CarStatus.sold,
  if is_sold car.status then [] else car_event car.id EventKind.sold_event sold_reason ∷ [],
)
status_update false (some c) differs diffs prov car =
    (change_status c, car_event car.id (change_kind c) (merge (change_fields c) prov) ∷ [])
status_update false none differs diffs prov car =
    if is_sold car.status
    then (
      CarStatus.updated,
      car_event car.id EventKind.material_update
            (merge (Fields.field "availability" (Json.string "active") Fields.empty) prov)
          ∷ [],
    )
    else if differs && some_diff diffs
    then (
      CarStatus.updated,
      car_event car.id EventKind.material_update
            (merge (Fields.field "changes" (Json.array (diff_items diffs)) Fields.empty) prov)
          ∷ [],
    )
    else (car.status, [])

abbrev pub mileage_events : ℕ → Fields → Fields → Fields → List CarEvent
mileage_events car old detail prov =
    let before = get "mileage_km" old in
    let after = get "mileage_km" detail in
    if truthy before && (truthy after && not (json_eq after before))
    then car_event car EventKind.mileage_changed
        (merge (Fields.field "old" before (Fields.field "new" after Fields.empty)) prov)
      ∷ []
    else []

abbrev pub accident_events : ℕ → Fields → Fields → Fields → List CarEvent
accident_events car old detail prov =
    if truthy (get "accident" old)
      && not (
          json_eq (accident_signature (get "accident" detail))
            (accident_signature (get "accident" old)))
    then car_event car EventKind.accident_info_changed
        (merge (Fields.field "accident" (get "accident" detail) Fields.empty) prov)
      ∷ []
    else []

abbrev pub relisted_event : ℕ → ℕ → CarEvent
relisted_event project car = record {
  car_id = car;
  kind = EventKind.search_event SearchStatus.relisted;
  project_id = some project;
  payload =
      Fields.field "project_id" (Json.number project)
        (Fields.field "reason" (Json.string "found_again_in_same_project") Fields.empty);
}

abbrev pub new_link : ℕ → ℕ → ℕ → ProjectCar
new_link project car now = record {
  project_id = project;
  car_id = car;
  first_seen_at = some now;
  last_seen_at = none;
  last_found_at = none;
  consecutive_missing_scans = 0;
  search_status = SearchStatus.found;
  is_new = true;
  tracking_enabled = true;
}

abbrev pub found_link : ℕ → ProjectCar → ProjectCar
found_link now link = record link {
  search_status = SearchStatus.found;
  last_seen_at = some now;
  last_found_at = some now;
  consecutive_missing_scans = 0;
}

abbrev pub seen_link : Bool → ℕ → ProjectCar → ProjectCar
seen_link mark now link =
    if mark then found_link now link else record link { last_seen_at = some now }

-- `link or db.get(...)`, then the new link; the former search status decides on RELISTED
unfoldable pub update_link :
    Bool → ℕ → ℕ → ℕ → Option ProjectCar → Catalog → List CarEvent × Catalog
update_link mark now project car none db =
    ([], add_link (seen_link mark now (new_link project car now)) db)
update_link mark now project car (some link) db = (
  if mark && is_missing link.search_status then relisted_event project car ∷ [] else [],
  save_link (seen_link mark now link) db,
)

-- the price_history row, if the page's price is a new one
unfoldable pub price_rows : ℕ → Option ℕ → Option ℕ → Json → String → Fields → List CarRecord
price_rows car none old_price offer source detail = []
price_rows car (some price) old_price offer source detail =
    if price == 0 || opt_eq old_price (some price)
    then []
    else (record {
      car_id = car;
      payload = Fields.field "price_krw" (Json.number price) (
          Fields.field "price_source" (get "price_source" detail) (
            Fields.field "offer_type" offer (
              Fields.field "source_car_id" (Json.string source) (
                Fields.field "scan_run_id" (get "scan_run_id" detail)
                  (Fields.field "checked_at" (get "checked_at" detail) Fields.empty)))));
    })
      ∷ []

abbrev pub offer_type_changed : Fields → Fields → Bool
offer_type_changed old detail =
    not (is_empty_dict old) && not (json_eq (offer_type old) (offer_type detail))

abbrev pub current_price_of : Option ℕ → Option ℕ → Option ℕ
current_price_of none old = old
current_price_of (some p) old = some p

abbrev pub string_or : Json → String → String
string_or v s = if truthy v then or_else (string_of v) s else s

abbrev pub title_or : Json → Option String → Option String
title_or v t = if truthy v then string_of v else t
