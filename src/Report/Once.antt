-- ===== src/Report/Once.antt =====
-- What `dedupe_report` returns: each vehicle once, none of them lost, the best item of each.
use searchcar_desktop.Base.{
  ℕ, ◌≤◌, ◌≡◌, refl, sym, ap, ◌∙◌, ◌≢◌, ◌⊎◌, inl, inr, Bool, true, false, List, [], ◌∷◌, map, arith,
  All, In, if◌then◌else◌, not, ◌&&◌, ◌||◌, ltb, All-In, In-All, Bool-cases,
}
use searchcar_desktop.Store.{ReportItem}
use searchcar_desktop.Report.Context.{ReportKey, report_key, with_projects, with_listings}
use searchcar_desktop.Report.Dedupe.{
  priority, is_sold, is_relisted, Group, better, preferred_of, summarise, item_le, insert_item,
  sort_items, group_items, dedupe_report,
}
use searchcar_desktop.Report.Sort.{
  InOrder, insert_item-All, sort_items-All, sort_items-In, sort_items-InOrder,
}
use searchcar_desktop.Report.Groups.{
  members, Fresh, Distinct, Members, group_items-Distinct, group_items-Members, group_items-Grouped,
}

-- `r` may stand for `item`: it is sold if `item` is, and otherwise at least as urgent
abbrev pub Covers : ReportItem → ReportItem → Type 0
Covers r item =
    (is_sold item.change ≡ true → is_sold r.change ≡ true)
    × (is_sold r.change ≡ false → priority r ≤ priority item)

Covers-refl : (r : ReportItem) → Covers r r
Covers-refl r = ((λ h. h), (λ h. omega arith))

better-Covers : (p item x : ReportItem) → Covers p x → Covers (better p item) x
unfolding better
better-Covers p item x h = ground (arith, h.0, h.1)

better-Covers_item : (p item : ReportItem) → Covers (better p item) item
unfolding better
better-Covers_item p item = ground arith

preferred_of-Covers :
    (p : ReportItem) (items : List ReportItem) (x : ReportItem)
    → Covers p x ⊎ In x items
    → Covers (preferred_of p items) x
unfolding preferred_of
preferred_of-Covers p [] x (inl h) = h
preferred_of-Covers p [] x (inr m) = elim m [ ]
preferred_of-Covers p (i ∷ is) x (inl h) =
    preferred_of-Covers (better p i) is x (inl (better-Covers p i x h))
preferred_of-Covers p (i ∷ is) x (inr (inl e)) =
    preferred_of-Covers (better p i) is x (inl (rw e (better-Covers_item p i)))
preferred_of-Covers p (i ∷ is) x (inr (inr m)) = preferred_of-Covers (better p i) is x (inr m)

-- the preferred item is one of the items
preferred_of-All :
    (P : ReportItem → Type 0) (p : ReportItem) (items : List ReportItem)
    → P p
    → All P items
    → P (preferred_of p items)
unfolding preferred_of better
preferred_of-All P p [] h hs = h
preferred_of-All P p (i ∷ is) h hs =
    preferred_of-All P (better p i) is
      (pick (is_sold i.change || (not (is_sold p.change) && ltb (priority i) (priority p)))) hs.1
  where
    pick : (b : Bool) → P (if b then i else p)
    pick true = hs.0
    pick false = h

summarise-change : (g : Group) → (summarise g).change ≡ (preferred_of g.1 g.2).change
unfolding summarise with_projects with_listings
summarise-change g = ground arith

module _ (upper : ℕ → List ℕ) (is_space : ℕ → Bool) where
  abbrev key : ReportItem → ReportKey
  key item = report_key upper is_space item

  key-summarise_preferred : (g : Group) → key (summarise g) ≡ key (preferred_of g.1 g.2)
  unfolding summarise with_projects with_listings report_key
  key-summarise_preferred g = ground arith

  -- no two items are of one vehicle
  abbrev pub DistinctKeys : List ReportItem → Type 0
  DistinctKeys [] = Unit
  DistinctKeys (r ∷ rs) = All (λ s. key r ≢ key s) rs × DistinctKeys rs

  insert_item-DistinctKeys :
      (a : ReportItem) (rs : List ReportItem)
      → All (λ s. key a ≢ key s) rs
      → DistinctKeys rs
      → DistinctKeys (insert_item a rs)
  unfolding insert_item
  insert_item-DistinctKeys a [] n h = (tt, tt)
  insert_item-DistinctKeys a (b ∷ bs) n h = elim (Bool-cases (item_le a b)) [
    | inl e ↦ rw e (n, h)
    | inr e ↦ rw e (
      insert_item-All (λ s. key b ≢ key s) a bs (λ p. n.0 (sym p)) h.0,
      insert_item-DistinctKeys a bs n.1 h.1,
    )
  ]

  sort_items-DistinctKeys : (rs : List ReportItem) → DistinctKeys rs → DistinctKeys (sort_items rs)
  unfolding sort_items
  sort_items-DistinctKeys [] h = tt
  sort_items-DistinctKeys (a ∷ rs) h =
      insert_item-DistinctKeys a (sort_items rs) (sort_items-All (λ s. key a ≢ key s) rs h.0)
        (sort_items-DistinctKeys rs h.1)

  -- where the members of each group have the group's key, so has its summary
  abbrev Keyed : List Group → Type 0
  Keyed groups = Members (λ k r. key r ≡ k) groups

  key-summarise :
      (g : Group) → (key g.1 ≡ g.0) × All (λ r. key r ≡ g.0) g.2 → key (summarise g) ≡ g.0
  key-summarise g h =
      key-summarise_preferred g ∙ preferred_of-All (λ r. key r ≡ g.0) g.1 g.2 h.0 h.1

  map-summarise-ne :
      (g : Group) (groups : List Group)
      → key (summarise g) ≡ g.0
      → Fresh g.0 groups
      → Keyed groups
      → All (λ s. key (summarise g) ≢ key s) (map summarise groups)
  map-summarise-ne g [] e f h = tt
  map-summarise-ne g (j ∷ groups) e f h =
      ((λ p. f.0 (sym e ∙ p ∙ key-summarise j h.0)), map-summarise-ne g groups e f.1 h.1)

  map-summarise-DistinctKeys :
      (groups : List Group) → Distinct groups → Keyed groups → DistinctKeys (map summarise groups)
  map-summarise-DistinctKeys [] d h = tt
  map-summarise-DistinctKeys (g ∷ groups) d h = (
    map-summarise-ne g groups (key-summarise g h.0) d.0 h.1,
    map-summarise-DistinctKeys groups d.1 h.1,
  )

  -- where a member comes from
  abbrev pub Origin : List ReportItem → ReportKey → ReportItem → Type 0
  Origin report k r = (key r ≡ k) × In r report × (is_relisted r.change ≡ false)

  grouped-Origin :
      (report : List ReportItem) → Members (Origin report) (group_items upper is_space [] report)
  grouped-Origin report = group_items-Members upper is_space (Origin report) [] report tt (
      In-All (λ r. is_relisted r.change ≡ false → Origin report (key r) r) report
        (λ r m e. (refl, m, e)))

  grouped-Keyed : (report : List ReportItem) → Keyed (group_items upper is_space [] report)
  grouped-Keyed report =
      group_items-Members upper is_space (λ k r. key r ≡ k) [] report tt
        (In-All (λ r. is_relisted r.change ≡ false → key r ≡ key r) report (λ r m e. refl))

  -- No two items of the returned report are of one vehicle, for any report.
  pub dedupe_report-DistinctKeys :
      (report : List ReportItem) → DistinctKeys (dedupe_report upper is_space report)
  unfolding dedupe_report
  dedupe_report-DistinctKeys report =
      let groups = group_items upper is_space [] report in
      sort_items-DistinctKeys (map summarise groups) (
        map-summarise-DistinctKeys groups (group_items-Distinct upper is_space [] report tt)
          (grouped-Keyed report))

  In-map-summarise :
      (g : Group) (groups : List Group) → In g groups → In (summarise g) (map summarise groups)
  In-map-summarise g [] m = elim m [ ]
  In-map-summarise g (h ∷ groups) (inl p) = inl (ap summarise p)
  In-map-summarise g (h ∷ groups) (inr m) = inr (In-map-summarise g groups m)

  summarise-Covers : (g : Group) (x : ReportItem) → In x (members g) → Covers (summarise g) x
  summarise-Covers g x (inl e) =
      rw summarise-change (preferred_of-Covers g.1 g.2 x (inl (rw e (Covers-refl g.1))))
  summarise-Covers g x (inr m) = rw summarise-change (preferred_of-Covers g.1 g.2 x (inr m))

  -- For every item that is not RELISTED, the returned report has an item of the same vehicle; it
  -- is SOLD if the given one is, and if it is not SOLD its priority is at most the given one's.
  pub dedupe_report-Covers :
      (report : List ReportItem) (item : ReportItem)
      → In item report
      → is_relisted item.change ≡ false
      → (r : ReportItem) × In r (dedupe_report upper is_space report)
        × (key r ≡ key item)
        × Covers r item
  unfolding dedupe_report
  dedupe_report-Covers report item m h =
      let groups = group_items upper is_space [] report in
      let (g, mg, e, n) = group_items-Grouped upper is_space item [] report m h in
      (
        summarise g,
        sort_items-In (summarise g) (map summarise groups) (In-map-summarise g groups mg),
        key-summarise g (
              All-In (λ j. (key j.1 ≡ j.0) × All (λ r. key r ≡ j.0) j.2) groups
                (grouped-Keyed report) g mg)
            ∙ e,
        summarise-Covers g item n,
      )

  -- an item of the report, not RELISTED, that has the vehicle and the change
  abbrev pub HasOrigin : List ReportItem → ReportItem → Type 0
  HasOrigin report r =
      (item : ReportItem) × In item report
      × (key r ≡ key item)
      × (r.change ≡ item.change)
      × (is_relisted item.change ≡ false)

  map-summarise-Origin :
      (report : List ReportItem) (groups : List Group)
      → Members (Origin report) groups
      → All (HasOrigin report) (map summarise groups)
  map-summarise-Origin report [] h = tt
  map-summarise-Origin report (g ∷ groups) h =
      let o = preferred_of-All (Origin report g.0) g.1 g.2 h.0.0 h.0.1 in
      (
        (preferred_of g.1 g.2, o.1, key-summarise_preferred g, summarise-change g, o.2),
        map-summarise-Origin report groups h.1,
      )

  -- Every item of the returned report is of the vehicle and has the change of some item of the
  -- given one that is not RELISTED; and the returned items stand in the order of priority, and of
  -- time where the priorities agree.
  pub dedupe_report-Origin :
      (report : List ReportItem)
      → All (HasOrigin report) (dedupe_report upper is_space report)
        × InOrder (dedupe_report upper is_space report)
  unfolding dedupe_report
  dedupe_report-Origin report =
      let groups = group_items upper is_space [] report in
      (
        sort_items-All (HasOrigin report) (map summarise groups)
            (map-summarise-Origin report groups (grouped-Origin report)),
        sort_items-InOrder (map summarise groups),
      )
