-- ===== src/Tracking/Absence.antt =====
-- `mark_found_without_detail` and `mark_absent` of backend/app/services.py.
use searchcar_desktop.Base.{
  ℕ, ◌+◌, String, Bool, true, false, ◌&&◌, ◌||◌, not, Option, none, some, List, [], ◌∷◌, ◌++◌,
  if◌then◌else◌, ◌==◌,
}
use searchcar_desktop.Json.{Json, Fields}
use searchcar_desktop.Tracking.Tables.{
  Car, ProjectCar, CarEvent, Catalog, CarStatus, SearchStatus, EventKind, is_sold, is_missing,
  search_eq, add_event, add_link, save_link, save_car, find_link, find_car,
}
use searchcar_desktop.Tracking.Changes.{apply_missing, one_of}
use searchcar_desktop.Tracking.Events.{sold_reason, relisted_event, new_link, found_link}

-- `mark_found_without_detail`; the result is "RELISTED" or None. `car` is the row of the listing
unfoldable pub mark_found_link : ℕ → ProjectCar → Car → Catalog → Option SearchStatus × Catalog
mark_found_link now link car db =
    if not link.tracking_enabled || car.excluded
    then (none, db)
    else if is_missing link.search_status
    then (
      some SearchStatus.relisted,
      save_link (found_link now link) (add_event (relisted_event link.project_id car.id) db),
    )
    else (none, save_link (found_link now link) db)

unfoldable pub mark_found_without_detail : ℕ → ℕ → Car → Catalog → Option SearchStatus × Catalog
unfolding mark_found_link
mark_found_without_detail now project car db = elim (find_link project car.id db) [
  | none ↦
      mark_found_link now (new_link project car.id now) car
        (add_link (new_link project car.id now) db)
  | some link ↦ mark_found_link now link car db
]

-- the entries of the result, by the id of the car
pub data Outcome : Type 0 where
  went_sold : Outcome
  went : SearchStatus → Outcome

abbrev pub project_event : ℕ → ℕ → EventKind → Fields → CarEvent
project_event project car kind payload = record {
  car_id = car;
  kind = kind;
  project_id = some project;
  payload = Fields.field "project_id" (Json.number project) payload;
}

abbrev pub missing_link : ProjectCar → ProjectCar
missing_link link = record link {
  search_status = SearchStatus.not_found_in_search;
  consecutive_missing_scans = link.consecutive_missing_scans + 1;
}

-- the branch of a listing whose page says that it is sold
unfoldable pub mark_sold : ProjectCar → Car → Catalog → List (ℕ × Outcome) × Catalog
mark_sold link car db =
    let marked = save_link (missing_link link) db in
    if is_sold car.status then ([], marked) else (
      (car.id, went_sold) ∷ [],
      add_event (project_event link.project_id car.id EventKind.sold_event sold_reason)
          (save_car (record car { status = CarStatus.sold }) marked),
    )

-- "FOUND" if status == "RELISTED" else status
abbrev pub stored_status : SearchStatus → SearchStatus
stored_status SearchStatus.relisted = SearchStatus.found
stored_status s = s

abbrev pub is_relisted : SearchStatus → Bool
is_relisted SearchStatus.relisted = true
is_relisted _ = false

abbrev pub counted_link : ℕ → SearchStatus → ProjectCar → ProjectCar
counted_link count status link = record link {
  consecutive_missing_scans = count;
  search_status = stored_status status;
}

-- the other branch, with the result of `apply_missing`
unfoldable pub mark_counted :
    ℕ × SearchStatus → ProjectCar → Car → Catalog → List (ℕ × Outcome) × Catalog
mark_counted (count, status) link car db =
    let marked = save_link (counted_link count status link) db in
    if is_relisted status
    then (
      (car.id, went SearchStatus.relisted) ∷ [],
      add_event (relisted_event link.project_id car.id) marked,
    )
    else if search_eq (stored_status status) link.search_status
    then ([], marked)
    else (
      (car.id, went (stored_status status)) ∷ [],
      add_event
          (project_event link.project_id car.id (EventKind.search_event (stored_status status))
            (Fields.field "missing_scans" (Json.number count) Fields.empty))
          marked,
    )

-- the body of the loop
unfoldable pub mark_row :
    Bool → List String → List String → ProjectCar → Car → Catalog → List (ℕ × Outcome) × Catalog
unfolding mark_sold mark_counted apply_missing
mark_row success found sold link car db =
    if one_of sold car.canonical_encar_id
    then mark_sold link car db
    else mark_counted
        (apply_missing success (one_of found car.canonical_encar_id) link.consecutive_missing_scans
          link.search_status)
        link car db

-- the rows that the query has read, one after the other
unfoldable pub mark_rows :
    Bool
    → List String
    → List String
    → List (ProjectCar × Car)
    → Catalog
    → List (ℕ × Outcome) × Catalog
unfolding mark_row
mark_rows success found sold [] db = ([], db)
mark_rows success found sold ((link, car) ∷ rows) db =
    let (changed, next) = mark_row success found sold link car db in
    let (rest, last) = mark_rows success found sold rows next in (changed ++ rest, last)

abbrev tracked_of : Option Car → ProjectCar → List (ProjectCar × Car)
tracked_of none link = []
tracked_of (some car) link = if car.excluded then [] else (link, car) ∷ []

-- JOIN cars, for a link of the project that is tracked, and a car that is not excluded
unfoldable pub link_rows : ℕ → ProjectCar → Catalog → List (ProjectCar × Car)
link_rows project link db =
    if link.project_id == project && link.tracking_enabled
    then tracked_of (find_car link.car_id db) link
    else []

unfoldable pub tracked_rows : ℕ → List ProjectCar → Catalog → List (ProjectCar × Car)
unfolding link_rows
tracked_rows project [] db = []
tracked_rows project (link ∷ links) db = link_rows project link db ++ tracked_rows project links db

unfoldable pub mark_absent :
    ℕ → List String → Bool → List String → Catalog → List (ℕ × Outcome) × Catalog
unfolding mark_rows tracked_rows
mark_absent project found success sold db =
    mark_rows success found sold (tracked_rows project db.project_cars db) db
