-- ===== src/Tracking/Changes.antt =====
-- `price_change`, `material_changes`, the signatures, `fingerprint_listing`, `detail_read_kind` and
-- `apply_missing` of backend/app/parser.py.
use searchcar_desktop.Base.{
  ℕ, zero, suc, ◌+◌, ◌-◌, String, Bool, true, false, ◌&&◌, ◌||◌, not, Option, none, some, List, [],
  ◌∷◌, ◌++◌, map, if◌then◌else◌, ◌==◌, ltb, str_eq, any, select,
}
use searchcar_desktop.Json.{
  sorted_names, Json, Fields, lookup, get, or_json, as_dict, put, keys, json_eq, texts,
}
use searchcar_desktop.Tracking.Tables.{SearchStatus, is_missing}

-- the result of `price_change`, less its rounded percentage
pub record PriceChange : Type 0 where
  pub drop : Bool
  pub old : ℕ
  pub new : ℕ
  pub difference : ℕ

abbrev pub price_change_of : ℕ → ℕ → Option PriceChange
price_change_of old new =
    if old == 0 || (new == 0 || old == new)
    then none
    else some record {
      drop = ltb new old;
      old = old;
      new = new;
      difference = if ltb new old then old - new else new - old;
    }

unfoldable pub price_change : Option ℕ → Option ℕ → Option PriceChange
price_change none new = none
price_change (some old) none = none
price_change (some old) (some new) = price_change_of old new

abbrev pub tracked_detail_fields : List String
tracked_detail_fields =
    "title" ∷ "trim" ∷ "year_month" ∷ "mileage_km" ∷ "fuel" ∷ "fuel_name_ko" ∷ "drivetrain"
    ∷ "transmission" ∷ "engine_displacement_cc" ∷ "seat_count" ∷ "body_type" ∷ "exterior_color"
    ∷ "interior_color" ∷ "option_codes" ∷ "registration_number" ∷ "condition_summary"
    ∷ "new_car_price_percent" ∷ "under_contract" ∷ "offer_type" ∷ "rental_monthly_payment_krw"
    ∷ "rental_term_months" ∷ "rental_acquisition_price_krw" ∷ "vehicle_price_krw"
    ∷ "lease_monthly_payment_krw" ∷ "lease_term_months" ∷ []

abbrev pub new_spec_fields : List String
new_spec_fields =
    "fuel_name_ko" ∷ "seat_count" ∷ "option_codes" ∷ "body_type" ∷ "engine_displacement_cc"
    ∷ "exterior_color" ∷ []

abbrev pub one_of : List String → String → Bool
one_of names key = any (λ n. str_eq n key) names

abbrev pub is_null : Json → Bool
is_null Json.null = true
is_null _ = false

-- {"field": ..., "old": ..., "new": ...}
pub record Diff : Type 0 where
  pub name : String
  pub old : Json
  pub new : Json

-- get("offer_type") or "SALE"
abbrev pub offer_type : Fields → Json
offer_type d = or_json (get "offer_type" d) (Json.string "SALE")

abbrev pub changed_field : Fields → Fields → String → Bool
changed_field old new key =
    not (json_eq (get key old) (get key new))
    && not (one_of new_spec_fields key && is_null (get key old))

-- xs[:n]
abbrev pub take {ℓ} : {A : Type ℓ} → ℕ → List A → List A
take zero xs = []
take (suc n) [] = []
take (suc n) (x ∷ xs) = x ∷ take n xs

-- the keys on which two dicts differ, by a comparison of the values
abbrev pub changed_keys : (Json → Json) → Fields → Fields → List String
changed_keys view old new =
    select (λ key. not (json_eq (view (get key old)) (view (get key new))))
      (sorted_names (keys old ++ keys new))

-- the entry that is appended if there are such keys
abbrev pub key_diff : String → List String → List Diff
key_diff name [] = []
key_diff name (k ∷ ks) =
    (record { name = name; old = Json.null; new = Json.array (texts (take 12 (k ∷ ks))) }) ∷ []

abbrev kept_if_present : String → Fields → Fields → Fields
kept_if_present key d rest = elim (lookup key d) [ none ↦ rest | some v ↦ Fields.field key v rest ]

-- `_condition_value`
abbrev pub condition_value : Json → Json
condition_value (Json.dict d) =
    Json.dict (kept_if_present "status" d (kept_if_present "value" d Fields.empty))
condition_value v = v

abbrev pub same_value : Json → Json
same_value v = v

unfoldable pub material_changes : Fields → Fields → List Diff
unfolding put json_eq sorted_names
material_changes old new =
    let before = put "offer_type" (offer_type old) old in
    let after = put "offer_type" (offer_type new) new in
    let fields =
      map (λ key. record { name = key; old = get key before; new = get key after })
        (select (changed_field before after) tracked_detail_fields) in
    let options =
      changed_keys same_value (as_dict (get "options" before)) (as_dict (get "options" after)) in
    let condition =
      changed_keys condition_value (as_dict (get "condition" before))
        (as_dict (get "condition" after)) in
    take 12 (fields ++ key_diff "options" options ++ key_diff "condition" condition)

-- `condition_signature`, by the items of the dict
abbrev pub condition_signature : Fields → Fields
condition_signature Fields.empty = Fields.empty
condition_signature (Fields.field k v rest) =
    Fields.field k (condition_value v) (condition_signature rest)

unfoldable pub accident_signature : Json → Json
accident_signature accident =
    let value = as_dict accident in
    Json.dict (
      Fields.field "status" (get "status" value) (
        Fields.field "summary" (get "summary" value) (
          Fields.field "condition"
            (Json.dict (condition_signature (as_dict (get "condition" value)))) Fields.empty)))

abbrev pub fingerprint_keys : List String
fingerprint_keys =
    "canonical_car_id" ∷ "title" ∷ "year_month" ∷ "mileage_km" ∷ "price_krw" ∷ "fuel"
    ∷ "fuel_name_ko" ∷ "drivetrain" ∷ "transmission" ∷ "engine_displacement_cc" ∷ "seat_count"
    ∷ "body_type" ∷ "exterior_color" ∷ "options" ∷ "option_codes" ∷ "condition" ∷ "offer_type"
    ∷ "rental_monthly_payment_krw" ∷ "rental_term_months" ∷ "rental_acquisition_price_krw"
    ∷ "vehicle_price_krw" ∷ "lease_monthly_payment_krw" ∷ "lease_term_months" ∷ []

abbrev pub picked : List String → Fields → Fields
picked [] item = Fields.empty
picked (k ∷ ks) item = Fields.field k (get k item) (picked ks item)

-- what `fingerprint_listing` hashes
unfoldable pub comparable : Fields → Fields
unfolding put
comparable item =
    put "condition" (Json.dict (condition_signature (as_dict (get "condition" item))))
      (put "offer_type" (offer_type item) (picked fingerprint_keys item))

pub data ReadKind : Type 0 where
  full price_status : ReadKind

-- `accurate` is `mode == "ACCURATE"`
unfoldable pub detail_read_kind : Bool → Bool → Bool → Bool → Bool → Bool → Option ReadKind
detail_read_kind accurate is_new list_price_changed list_price_missing missing_from_search manual =
    if accurate || (is_new || manual)
    then some full
    else if list_price_changed || (list_price_missing || missing_from_search)
    then some price_status
    else none

unfoldable pub apply_missing : Bool → Bool → ℕ → SearchStatus → ℕ × SearchStatus
apply_missing success found count status =
    if not success
    then (count, status)
    else if found
    then (0, if is_missing status then SearchStatus.relisted else SearchStatus.found)
    else (count + 1, SearchStatus.not_found_in_search)
