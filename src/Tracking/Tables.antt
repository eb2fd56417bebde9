-- ===== src/Tracking/Tables.antt =====
-- The tables of the tracked listings (backend/app/models.py), with the columns that
-- backend/app/services.py reads or writes. Images are left out.
use searchcar_desktop.Base.{
  ℕ, String, Bool, true, false, ◌&&◌, Option, List, [], ◌∷◌, ◌++◌, map, if◌then◌else◌, ◌==◌,
  find_by, str_eq,
}
use searchcar_desktop.Json.{Fields}

pub data CarStatus : Type 0 where
  new_car price_drop price_increase updated sold : CarStatus

pub data SearchStatus : Type 0 where
  found not_found_in_search relisted removed_from_project : SearchStatus

pub data EventKind : Type 0 where
  new_event sold_event price_drop_event price_increase_event material_update : EventKind
  mileage_changed accident_info_changed : EventKind
  search_event : SearchStatus → EventKind

pub record Car : Type 0 where
  pub id : ℕ
  pub canonical_encar_id : String
  pub url : String
  pub title : Option String
  pub status : CarStatus
  pub current_price : Option ℕ
  pub details : Option Fields
  pub fingerprint : Option String
  pub excluded : Bool
  pub updated_at : ℕ

pub record ProjectCar : Type 0 where
  pub project_id : ℕ
  pub car_id : ℕ
  pub first_seen_at : Option ℕ
  pub last_seen_at : Option ℕ
  pub last_found_at : Option ℕ
  pub consecutive_missing_scans : ℕ
  pub search_status : SearchStatus
  pub is_new : Bool
  pub tracking_enabled : Bool

pub record CarEvent : Type 0 where
  pub car_id : ℕ
  pub kind : EventKind
  pub project_id : Option ℕ
  pub payload : Fields

-- a row of price_history or of car_snapshots
pub record CarRecord : Type 0 where
  pub car_id : ℕ
  pub payload : Fields

pub record Catalog : Type 0 where
  pub cars : List Car
  pub project_cars : List ProjectCar
  pub events : List CarEvent
  pub price_history : List CarRecord
  pub snapshots : List CarRecord
  pub next_car_id : ℕ

abbrev pub is_sold : CarStatus → Bool
is_sold sold = true
is_sold _ = false

abbrev pub is_missing : SearchStatus → Bool
is_missing not_found_in_search = true
is_missing _ = false

abbrev pub search_eq : SearchStatus → SearchStatus → Bool
search_eq found found = true
search_eq not_found_in_search not_found_in_search = true
search_eq relisted relisted = true
search_eq removed_from_project removed_from_project = true
search_eq _ _ = false

-- db.add(CarEvent(...)), after the rows that are there
abbrev pub add_event : CarEvent → Catalog → Catalog
add_event e db = record db { events = db.events ++ e ∷ [] }

abbrev pub add_price : CarRecord → Catalog → Catalog
add_price r db = record db { price_history = db.price_history ++ r ∷ [] }

abbrev pub add_snapshot : CarRecord → Catalog → Catalog
add_snapshot r db = record db { snapshots = db.snapshots ++ r ∷ [] }

abbrev pub is_link : ℕ → ℕ → ProjectCar → Bool
is_link project car l = l.project_id == project && l.car_id == car

-- db.get(ProjectCar, {"project_id": project, "car_id": car})
abbrev pub find_link : ℕ → ℕ → Catalog → Option ProjectCar
find_link project car db = find_by (is_link project car) db.project_cars

-- a changed row, written back by its key
abbrev pub save_link : ProjectCar → Catalog → Catalog
save_link l db = record db {
  project_cars = map (λ m. if is_link l.project_id l.car_id m then l else m) db.project_cars;
}

abbrev pub add_link : ProjectCar → Catalog → Catalog
add_link l db = record db { project_cars = db.project_cars ++ l ∷ [] }

abbrev pub find_car : ℕ → Catalog → Option Car
find_car id db = find_by (λ c. c.id == id) db.cars

abbrev pub find_listing : String → Catalog → Option Car
find_listing canonical db = find_by (λ c. str_eq c.canonical_encar_id canonical) db.cars

abbrev pub save_car : Car → Catalog → Catalog
save_car car db = record db { cars = map (λ c. if c.id == car.id then car else c) db.cars }
