-- ===== src/Report/Sort.antt =====
-- `sorted` in `dedupe_report`: the same items, in the order of priority and time.
use searchcar_desktop.Base.{
  ◌≡◌, refl, inl, inr, true, false, List, [], ◌∷◌, arith, All, In, Bool-cases,
}
use searchcar_desktop.Store.{ReportItem}
use searchcar_desktop.Report.Dedupe.{item_le, insert_item, sort_items}

abbrev pub InOrder : List ReportItem → Type 0
InOrder [] = Unit
InOrder (a ∷ rs) = All (λ b. item_le a b ≡ true) rs × InOrder rs

-- a property of all items, and one that relates each item to the later ones, through the insertion
module _ (P : ReportItem → Type 0) where
  pub insert_item-All :
      (a : ReportItem) (rs : List ReportItem) → P a → All P rs → All P (insert_item a rs)
  unfolding insert_item
  insert_item-All a [] p h = (p, tt)
  insert_item-All a (b ∷ bs) p h = elim (Bool-cases (item_le a b)) [
    | inl e ↦ rw e (p, h)
    | inr e ↦ rw e (h.0, insert_item-All a bs p h.1)
  ]

  pub sort_items-All : (rs : List ReportItem) → All P rs → All P (sort_items rs)
  unfolding sort_items
  sort_items-All [] h = tt
  sort_items-All (a ∷ rs) h = insert_item-All a (sort_items rs) h.0 (sort_items-All rs h.1)

-- nothing is lost
insert_item-In_self : (a : ReportItem) (rs : List ReportItem) → In a (insert_item a rs)
unfolding insert_item
insert_item-In_self a [] = inl refl
insert_item-In_self a (b ∷ bs) = elim (Bool-cases (item_le a b)) [
  | inl e ↦ rw e (inl refl)
  | inr e ↦ rw e (inr (insert_item-In_self a bs))
]

insert_item-In : (a x : ReportItem) (rs : List ReportItem) → In x rs → In x (insert_item a rs)
unfolding insert_item
insert_item-In a x [] m = elim m [ ]
insert_item-In a x (b ∷ bs) (inl p) = elim (Bool-cases (item_le a b)) [
  | inl e ↦ rw e (inr (inl p))
  | inr e ↦ rw e (inl p)
]
insert_item-In a x (b ∷ bs) (inr m) = elim (Bool-cases (item_le a b)) [
  | inl e ↦ rw e (inr (inr m))
  | inr e ↦ rw e (inr (insert_item-In a x bs m))
]

pub sort_items-In : (x : ReportItem) (rs : List ReportItem) → In x rs → In x (sort_items rs)
unfolding sort_items
sort_items-In x [] m = m
sort_items-In x (a ∷ rs) (inl p) = rw p (insert_item-In_self a (sort_items rs))
sort_items-In x (a ∷ rs) (inr m) = insert_item-In a x (sort_items rs) (sort_items-In x rs m)

item_le_total : (a b : ReportItem) → item_le a b ≡ false → item_le b a ≡ true
item_le_total a b h = ground arith

item_le_trans : (a b c : ReportItem) → item_le a b ≡ true → item_le b c ≡ true → item_le a c ≡ true
item_le_trans a b c p q = ground arith

All-le_trans :
    (a b : ReportItem) (rs : List ReportItem)
    → item_le a b ≡ true
    → All (λ c. item_le b c ≡ true) rs
    → All (λ c. item_le a c ≡ true) rs
All-le_trans a b [] p h = tt
All-le_trans a b (c ∷ rs) p h = (item_le_trans a b c p h.0, All-le_trans a b rs p h.1)

insert_item-InOrder :
    (a : ReportItem) (rs : List ReportItem) → InOrder rs → InOrder (insert_item a rs)
unfolding insert_item
insert_item-InOrder a [] h = (tt, tt)
insert_item-InOrder a (b ∷ bs) h = elim (Bool-cases (item_le a b)) [
  | inl e ↦ rw e ((e, All-le_trans a b bs e h.0), h)
  | inr e ↦ rw e (
    insert_item-All (λ c. item_le b c ≡ true) a bs (item_le_total a b e) h.0,
    insert_item-InOrder a bs h.1,
  )
]

pub sort_items-InOrder : (rs : List ReportItem) → InOrder (sort_items rs)
unfolding sort_items
sort_items-InOrder [] = tt
sort_items-InOrder (a ∷ rs) = insert_item-InOrder a (sort_items rs) (sort_items-InOrder rs)
