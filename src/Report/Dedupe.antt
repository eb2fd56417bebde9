-- ===== src/Report/Dedupe.antt =====
-- `dedupe_report` of backend/app/reporting.py, with its default priority.
use searchcar_desktop.Base.{
  ℕ, suc, Bool, true, false, ◌&&◌, ◌||◌, not, Option, none, some, List, [], ◌∷◌, ◌++◌, map,
  if◌then◌else◌, ltb, leb, ◌==◌,
}
use searchcar_desktop.Store.{ReportItem, Change}
use searchcar_desktop.Report.Context.{ReportKey, key_eq, report_key, with_projects, with_listings}

abbrev pub change_priority : Change → ℕ
change_priority Change.new_listing = 0
change_priority Change.price_drop = 1
change_priority Change.price_increase = 1
change_priority Change.material_update = 2
change_priority _ = 9

-- `default_report_priority`
abbrev pub priority : ReportItem → ℕ
priority item = change_priority item.change

abbrev pub is_sold : Change → Bool
is_sold Change.sold = true
is_sold _ = false

abbrev pub is_relisted : Change → Bool
is_relisted Change.relisted = true
is_relisted _ = false

-- the items of one vehicle: at least one, in the order of the report
abbrev pub Group : Type 0
Group = ReportKey × ReportItem × List ReportItem

-- `grouped.setdefault(key, []).append(item)`
unfoldable pub add_to : ReportKey → ReportItem → List Group → List Group
add_to k item [] = (k, item, []) ∷ []
add_to k item ((j, first, rest) ∷ groups) =
    let later = (j, first, rest) ∷ add_to k item groups in
    if key_eq k j then (j, first, rest ++ item ∷ []) ∷ groups else later

-- the choice of `preferred` in a group
unfoldable pub better : ReportItem → ReportItem → ReportItem
better preferred item =
    if is_sold item.change
      || (not (is_sold preferred.change) && ltb (priority item) (priority preferred))
    then item
    else preferred

unfoldable pub preferred_of : ReportItem → List ReportItem → ReportItem
unfolding better
preferred_of preferred [] = preferred
preferred_of preferred (item ∷ items) = preferred_of (better preferred item) items

unfoldable pub summarise : Group → ReportItem
unfolding preferred_of with_projects with_listings
summarise (k, first, rest) =
    let preferred = preferred_of first rest in
    with_listings (first ∷ rest) preferred (with_projects (first ∷ rest) preferred)

-- `item.get("updated_at") or ""`: an absent time comes first
abbrev time_rank : Option ℕ → ℕ
time_rank none = 0
time_rank (some t) = suc t

abbrev pub item_le : ReportItem → ReportItem → Bool
item_le a b =
    ltb (priority a) (priority b)
    || (priority a == priority b && leb (time_rank a.updated_at) (time_rank b.updated_at))

unfoldable pub insert_item : ReportItem → List ReportItem → List ReportItem
insert_item a [] = a ∷ []
insert_item a (b ∷ bs) = if item_le a b then a ∷ b ∷ bs else b ∷ insert_item a bs

-- `sorted` by (priority, time), stable
unfoldable pub sort_items : List ReportItem → List ReportItem
unfolding insert_item
sort_items [] = []
sort_items (a ∷ rest) = insert_item a (sort_items rest)

module _ (upper : ℕ → List ℕ) (is_space : ℕ → Bool) where
  unfoldable pub group_items : List Group → List ReportItem → List Group
  unfolding add_to report_key
  group_items groups [] = groups
  group_items groups (item ∷ items) =
      group_items
        (if is_relisted item.change
          then groups
          else add_to (report_key upper is_space item) item groups)
        items

  unfoldable pub dedupe_report : List ReportItem → List ReportItem
  unfolding group_items summarise sort_items
  dedupe_report report = sort_items (map summarise (group_items [] report))
