-- ===== src/Tracking/Details.antt =====
-- `merge_reliable_detail` of backend/app/services.py. `digest` stands for the SHA-256 of the sorted
-- JSON text of a dict, which `fingerprint_listing` of backend/app/parser.py takes.
use searchcar_desktop.Base.{
  String, Bool, true, false, ◌&&◌, ◌||◌, not, none, some, List, [], ◌∷◌, if◌then◌else◌, str_eq,
}
use searchcar_desktop.Json.{Json, Fields, lookup, get, truthy, as_dict, put, merge}
use searchcar_desktop.Tracking.Changes.{comparable}

abbrev pub sold_page_fields : List String
sold_page_fields =
    "canonical_car_id" ∷ "source_car_id" ∷ "displayed_car_id" ∷ "source" ∷ "source_url" ∷ "url"
    ∷ "checked_at" ∷ "scan_run_id" ∷ "parse_quality" ∷ "sold" ∷ "unavailable" ∷ "screenshot_path"
    ∷ "screenshot_checksum" ∷ []

abbrev pub stable_fields : List String
stable_fields =
    "trim" ∷ "year_month" ∷ "production_date" ∷ "registration_date" ∷ "registration_number" ∷ "vin"
    ∷ "mileage_km" ∷ "fuel" ∷ "fuel_name_ko" ∷ "drivetrain" ∷ "transmission"
    ∷ "engine_displacement_cc" ∷ "seat_count" ∷ "body_type" ∷ "exterior_color" ∷ "interior_color"
    ∷ "new_car_price_percent" ∷ "option_codes" ∷ []

-- value in missing_values
abbrev pub is_missing_value : Json → Bool
is_missing_value Json.null = true
is_missing_value (Json.string s) = str_eq s "" || str_eq s "UNVERIFIED"
is_missing_value _ = false

abbrev pub is_empty_dict : Fields → Bool
is_empty_dict Fields.empty = true
is_empty_dict (Fields.field _ _ _) = false

-- the fields of the page that are there replace those of the merged dict
unfoldable pub copy_fields : List String → Fields → Fields → Fields
unfolding put
copy_fields [] current merged = merged
copy_fields (f ∷ fs) current merged =
    copy_fields fs current (elim (lookup f current) [ none ↦ merged | some v ↦ put f v merged ])

-- a stable field that the page lacks keeps its former value
unfoldable pub keep_stable : List String → Fields → Fields → Fields → Fields
unfolding put
keep_stable [] previous current merged = merged
keep_stable (f ∷ fs) previous current merged = keep_stable fs previous current (
    if is_missing_value (get f current) && not (is_missing_value (get f previous))
    then put f (get f previous) merged
    else merged)

-- v == s for a string s
abbrev pub string_is : String → Json → Bool
string_is s (Json.string t) = str_eq t s
string_is s _ = false

abbrev pub has_status : String → Json → Bool
has_status s (Json.dict d) = string_is s (get "status" d)
has_status s _ = false

-- a confirmed entry of the condition is not replaced by an unverified one
abbrev pub skips_condition : Json → Json → Bool
skips_condition new old =
    has_status "UNVERIFIED" new && (has_status "CONFIRMED" old || has_status "NOT_FOUND" old)

unfoldable pub merge_condition : Fields → Fields → Fields → Fields
unfolding put
merge_condition old Fields.empty condition = condition
merge_condition old (Fields.field k v rest) condition =
    merge_condition old rest
      (if skips_condition v (get k old) then condition else put k v condition)

-- `merged["condition_summary"]`
abbrev pub keep_summary : Fields → Fields → Fields → Fields
keep_summary previous current merged =
    if string_is "UNVERIFIED" (get "condition_summary" current)
      && not (is_missing_value (get "condition_summary" previous))
    then put "condition_summary" (get "condition_summary" previous) merged
    else merged

module _ (digest : Fields → String) where
  -- `fingerprint_listing`
  abbrev pub fingerprint_listing : Fields → String
  fingerprint_listing item = digest (comparable item)

  abbrev pub with_fingerprint : Fields → Fields
  with_fingerprint merged = put "fingerprint" (Json.string (fingerprint_listing merged)) merged

  -- the page of a sold listing
  unfoldable pub merge_sold : Fields → Fields → Fields
  unfolding copy_fields
  merge_sold previous current = with_fingerprint (
      put "parse_quality" (Json.string "SOLD_PAGE") (
        put "unavailable" (Json.boolean false)
          (put "sold" (Json.boolean true) (copy_fields sold_page_fields current previous))))

  unfoldable pub merge_page : Fields → Fields → Fields
  unfolding merge keep_stable merge_condition
  merge_page previous current =
      let merged = keep_stable stable_fields previous current (merge previous current) in
      let options = merge (as_dict (get "options" previous)) (as_dict (get "options" current)) in
      let old_condition = as_dict (get "condition" previous) in
      let condition =
        merge_condition old_condition (as_dict (get "condition" current)) old_condition in
      with_fingerprint (
        keep_summary previous current
          (put "condition" (Json.dict condition) (put "options" (Json.dict options) merged)))

  unfoldable pub merge_reliable_detail : Fields → Fields → Fields
  unfolding merge_sold merge_page
  merge_reliable_detail previous current =
      if truthy (get "sold" current) && not (is_empty_dict previous)
      then merge_sold previous current
      else merge_page previous current
