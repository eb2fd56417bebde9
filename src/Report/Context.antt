-- ===== src/Report/Context.antt =====
-- `_report_key`, `_project_context` and `_listing_context` of backend/app/reporting.py.
use searchcar_desktop.Base.{
  ℕ, suc, Bool, true, false, ◌&&◌, ◌||◌, not, Option, none, some, List, [], ◌∷◌, ◌++◌, map,
  if◌then◌else◌, ltb, leb, ◌==◌, opt_eq, any, select, length, text_eq, text_le, is_blank, decimal,
}
use searchcar_desktop.Store.{ReportItem, Text}

pub data ReportKey : Type 0 where
  registration : Text → ReportKey
  car : ℕ → ReportKey
  encar : Text → ReportKey
  whole_report : ReportKey

abbrev pub key_eq : ReportKey → ReportKey → Bool
key_eq (registration s) (registration t) = text_eq s t
key_eq (car a) (car b) = a == b
key_eq (encar s) (encar t) = text_eq s t
key_eq whole_report whole_report = true
key_eq _ _ = false

abbrev pub by_listing : Option ℕ → Text → ReportKey
by_listing (some id) listing = car id
by_listing none listing = if is_blank listing then whole_report else encar listing

-- `str.upper` and `str.split` go by Unicode's tables, which are parameters here.
module _ (upper : ℕ → List ℕ) (is_space : ℕ → Bool) where
  -- "".join(text.upper().split())
  unfoldable pub squeezed : Text → Text
  squeezed [] = []
  squeezed (c ∷ text) = select (λ d. not (is_space d)) (upper c) ++ squeezed text

  unfoldable pub report_key : ReportItem → ReportKey
  unfolding squeezed
  report_key item =
      let plate = squeezed item.registration_number in
      if is_blank plate then by_listing item.car_id item.encar_id else registration plate

abbrev Ctx : Type 0
Ctx = Option ℕ × Text

abbrev ctx_eq : Ctx → Ctx → Bool
ctx_eq (i, s) (j, t) = opt_eq i j && text_eq s t

-- f"#{project_id}"
unfoldable pub numbered : Option ℕ → Text
numbered none = b'#' ∷ b'N' ∷ b'o' ∷ b'n' ∷ b'e' ∷ []
numbered (some id) = b'#' ∷ decimal id

unfoldable pub context_of : ReportItem → Ctx
unfolding numbered
context_of item = (
  item.project_id,
  if is_blank item.project_name then numbered item.project_id else item.project_name,
)

abbrev has_no_project : ReportItem → Bool
has_no_project item = opt_eq item.project_id none && is_blank item.project_name

-- the contexts of the items, each once, in order of appearance
unfoldable pub contexts : List Ctx → List ReportItem → List Ctx
unfolding context_of
contexts seen [] = seen
contexts seen (item ∷ items) =
    let c = context_of item in
    contexts (if has_no_project item || any (ctx_eq c) seen then seen else seen ++ c ∷ []) items

-- `context[0] or -1`, as a number one larger
abbrev id_rank : Option ℕ → ℕ
id_rank none = 0
id_rank (some id) = if id == 0 then 0 else suc id

-- the order of (context != preferred, name, id or -1)
unfoldable pub ctx_le : Ctx → Ctx → Ctx → Bool
ctx_le preferred (i, s) (j, t) =
    let p = ctx_eq (i, s) preferred in
    let q = ctx_eq (j, t) preferred in
    if p && not q
    then true
    else if q && not p
    then false
    else if text_eq s t
    then leb (id_rank i) (id_rank j)
    else text_le s t

unfoldable pub insert_ctx : Ctx → Ctx → List Ctx → List Ctx
unfolding ctx_le
insert_ctx preferred c [] = c ∷ []
insert_ctx preferred c (d ∷ ds) =
    if ctx_le preferred c d then c ∷ d ∷ ds else d ∷ insert_ctx preferred c ds

unfoldable pub sort_ctx : Ctx → List Ctx → List Ctx
unfolding insert_ctx
sort_ctx preferred [] = []
sort_ctx preferred (c ∷ cs) = insert_ctx preferred c (sort_ctx preferred cs)

unfoldable pub known_ids : List Ctx → List ℕ
known_ids [] = []
known_ids ((none, _) ∷ cs) = known_ids cs
known_ids ((some i, _) ∷ cs) = i ∷ known_ids cs

-- `{**preferred, **_project_context(items, preferred)}`
unfoldable pub with_projects : List ReportItem → ReportItem → ReportItem
unfolding contexts sort_ctx known_ids
with_projects items preferred =
    let sorted = sort_ctx (context_of preferred) (contexts [] items) in
    if ltb (length sorted) 2
    then preferred
    else record preferred { project_ids = known_ids sorted; project_names = map (λ c. c.1) sorted }

-- list(dict.fromkeys(...)) over the truthy ids
unfoldable pub listing_ids : List Text → List ReportItem → List Text
listing_ids seen [] = seen
listing_ids seen (item ∷ items) =
    listing_ids
      (if is_blank item.encar_id || any (text_eq item.encar_id) seen
        then seen
        else seen ++ item.encar_id ∷ [])
      items

-- `{..., **_listing_context(items, preferred)}`
unfoldable pub with_listings : List ReportItem → ReportItem → ReportItem → ReportItem
unfolding listing_ids
with_listings items preferred merged =
    let ids = listing_ids [] (preferred ∷ items) in
    if ltb 1 (length ids) then record merged { encar_ids = ids } else merged
