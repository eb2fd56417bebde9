-- ===== src/Report/Groups.antt =====
-- The groups that `dedupe_report` forms: one for each vehicle, with all its items.
use searchcar_desktop.Base.{
  ℕ, ◌≡◌, refl, sym, ◌≢◌, inl, inr, Bool, true, false, List, [], ◌∷◌, ◌++◌, arith, All, In,
  Bool-cases, text_eq_refl, text_eq→eq,
}
use mathlib.Core.Path.{subst}
use searchcar_desktop.Store.{ReportItem}
use searchcar_desktop.Report.Context.{
  ReportKey, registration, car, encar, whole_report, key_eq, report_key,
}
use searchcar_desktop.Report.Dedupe.{is_relisted, Group, add_to, group_items}

key_eq→eq : (k j : ReportKey) → key_eq k j ≡ true → k ≡ j
key_eq→eq (registration s) (registration t) h = cc (text_eq→eq s t h)
key_eq→eq (car a) (car b) h = ground arith
key_eq→eq (encar s) (encar t) h = cc (text_eq→eq s t h)
key_eq→eq whole_report whole_report h = refl
key_eq→eq _ _ h = cc

key_eq_refl : (k : ReportKey) → key_eq k k ≡ true
key_eq_refl (registration s) = text_eq_refl s
key_eq_refl (car a) = ground arith
key_eq_refl (encar s) = text_eq_refl s
key_eq_refl whole_report = refl

key_ne : (k j : ReportKey) → key_eq k j ≡ false → k ≢ j
key_ne k j h e = cc (rw e at h, key_eq_refl j)

abbrev pub members : Group → List ReportItem
members (k, first, rest) = first ∷ rest

abbrev pub Fresh : ReportKey → List Group → Type 0
Fresh k groups = All (λ g. k ≢ g.0) groups

abbrev pub Distinct : List Group → Type 0
Distinct [] = Unit
Distinct (g ∷ groups) = Fresh g.0 groups × Distinct groups

add_to-Fresh :
    (j k : ReportKey) (item : ReportItem) (groups : List Group)
    → j ≢ k
    → Fresh j groups
    → Fresh j (add_to k item groups)
unfolding add_to
add_to-Fresh j k item [] ne h = (ne, tt)
add_to-Fresh j k item ((i, first, rest) ∷ groups) ne h = elim (Bool-cases (key_eq k i)) [
  | inl e ↦ rw e h
  | inr e ↦ rw e (h.0, add_to-Fresh j k item groups ne h.1)
]

add_to-Distinct :
    (k : ReportKey) (item : ReportItem) (groups : List Group)
    → Distinct groups
    → Distinct (add_to k item groups)
unfolding add_to
add_to-Distinct k item [] h = (tt, tt)
add_to-Distinct k item ((i, first, rest) ∷ groups) h = elim (Bool-cases (key_eq k i)) [
  | inl e ↦ rw e h
  | inr e ↦ rw e (
    add_to-Fresh i k item groups (λ p. key_ne k i e (sym p)) h.0,
    add_to-Distinct k item groups h.1,
  )
]

-- an item of a group with the given key
abbrev pub Grouped : ReportKey → ReportItem → List Group → Type 0
Grouped k item groups = (g : Group) × In g groups × (g.0 ≡ k) × In item (members g)

In-append_left : (a b : ReportItem) (xs : List ReportItem) → In a xs → In a (xs ++ b ∷ [])
In-append_left a b [] m = elim m [ ]
In-append_left a b (x ∷ xs) (inl e) = inl e
In-append_left a b (x ∷ xs) (inr m) = inr (In-append_left a b xs m)

In-append_last : (b : ReportItem) (xs : List ReportItem) → In b (xs ++ b ∷ [])
In-append_last b [] = inl refl
In-append_last b (x ∷ xs) = inr (In-append_last b xs)

Grouped-cons :
    (k : ReportKey) (item : ReportItem) (h : Group) (groups : List Group)
    → Grouped k item groups
    → Grouped k item (h ∷ groups)
Grouped-cons k item h groups (g, m, e, n) = (g, inr m, e, n)

add_to-Grouped :
    (k : ReportKey) (item : ReportItem) (groups : List Group)
    → Grouped k item (add_to k item groups)
unfolding add_to
add_to-Grouped k item [] = ((k, item, []), inl refl, refl, inl refl)
add_to-Grouped k item ((j, first, rest) ∷ groups) = elim (Bool-cases (key_eq k j)) [
  | inl e ↦ rw e (
    (j, first, rest ++ item ∷ []),
    inl refl,
    sym (key_eq→eq k j e),
    inr (In-append_last item rest),
  )
  | inr e ↦
      rw e
        (Grouped-cons k item (j, first, rest) (add_to k item groups) (add_to-Grouped k item groups))
]

-- what was grouped stays grouped
Grouped-add_to :
    (k j : ReportKey) (item other : ReportItem) (groups : List Group)
    → Grouped k item groups
    → Grouped k item (add_to j other groups)
unfolding add_to
Grouped-add_to k j item other [] (g, m, e, n) = elim m [ ]
Grouped-add_to k j item other ((i, first, rest) ∷ groups) (g, inl p, e, n) =
    elim (Bool-cases (key_eq j i)) [
      | inl t ↦ rw t (
        (i, first, rest ++ other ∷ []),
        inl refl,
        rw p at e,
        In-append_left item other (first ∷ rest) (rw p at n),
      )
      | inr t ↦ rw t ((i, first, rest), inl refl, (rw p at e), (rw p at n))
    ]
Grouped-add_to k j item other ((i, first, rest) ∷ groups) (g, inr m, e, n) =
    elim (Bool-cases (key_eq j i)) [
      | inl t ↦ rw t (g, inr m, e, n)
      | inr t ↦ rw t (
          Grouped-cons k item (i, first, rest) (add_to j other groups)
            (Grouped-add_to k j item other groups (g, m, e, n)))
    ]

-- every member of a group satisfies a property that may name the key
abbrev pub Members : (ReportKey → ReportItem → Type 0) → List Group → Type 0
Members P groups = All (λ g. P g.0 g.1 × All (P g.0) g.2) groups

All-append_last :
    (P : ReportItem → Type 0) (b : ReportItem) (xs : List ReportItem)
    → All P xs
    → P b
    → All P (xs ++ b ∷ [])
All-append_last P b [] h p = (p, tt)
All-append_last P b (x ∷ xs) h p = (h.0, All-append_last P b xs h.1 p)

add_to-Members :
    (P : ReportKey → ReportItem → Type 0) (k : ReportKey) (item : ReportItem) (groups : List Group)
    → Members P groups
    → P k item
    → Members P (add_to k item groups)
unfolding add_to
add_to-Members P k item [] h p = ((p, tt), tt)
add_to-Members P k item ((j, first, rest) ∷ groups) h p = elim (Bool-cases (key_eq k j)) [
  | inl e ↦ rw e (
    (h.0.0, All-append_last (P j) item rest h.0.1 (subst (λ i. P i item) (key_eq→eq k j e) p)),
    h.1,
  )
  | inr e ↦ rw e (h.0, add_to-Members P k item groups h.1 p)
]

module _ (upper : ℕ → List ℕ) (is_space : ℕ → Bool) where
  pub group_items-Distinct :
      (groups : List Group) (items : List ReportItem)
      → Distinct groups
      → Distinct (group_items upper is_space groups items)
  unfolding group_items
  group_items-Distinct groups [] h = h
  group_items-Distinct groups (item ∷ items) h = elim (Bool-cases (is_relisted item.change)) [
    | inl e ↦ rw e (group_items-Distinct groups items h)
    | inr e ↦
        let k = report_key upper is_space item in
        rw e (group_items-Distinct (add_to k item groups) items (add_to-Distinct k item groups h))
  ]

  pub group_items-Members :
      (P : ReportKey → ReportItem → Type 0) (groups : List Group) (items : List ReportItem)
      → Members P groups
      → All (λ r. is_relisted r.change ≡ false → P (report_key upper is_space r) r) items
      → Members P (group_items upper is_space groups items)
  unfolding group_items
  group_items-Members P groups [] h q = h
  group_items-Members P groups (item ∷ items) h q = elim (Bool-cases (is_relisted item.change)) [
    | inl e ↦ rw e (group_items-Members P groups items h q.1)
    | inr e ↦
        let k = report_key upper is_space item in
        rw e (
          group_items-Members P (add_to k item groups) items
            (add_to-Members P k item groups h (q.0 e)) q.1)
  ]

  Grouped-group_items :
      (k : ReportKey) (item : ReportItem) (groups : List Group) (items : List ReportItem)
      → Grouped k item groups
      → Grouped k item (group_items upper is_space groups items)
  unfolding group_items
  Grouped-group_items k item groups [] h = h
  Grouped-group_items k item groups (x ∷ xs) h = elim (Bool-cases (is_relisted x.change)) [
    | inl e ↦ rw e (Grouped-group_items k item groups xs h)
    | inr e ↦
        let j = report_key upper is_space x in
        rw e
          (Grouped-group_items k item (add_to j x groups) xs (Grouped-add_to k j item x groups h))
  ]

  -- an item that is not RELISTED is in a group under its key
  pub group_items-Grouped :
      (item : ReportItem) (groups : List Group) (items : List ReportItem)
      → In item items
      → is_relisted item.change ≡ false
      → Grouped (report_key upper is_space item) item (group_items upper is_space groups items)
  unfolding group_items
  group_items-Grouped item groups [] m h = elim m [ ]
  group_items-Grouped item groups (x ∷ xs) (inl p) h =
      let k = report_key upper is_space item in
      rw (← p)
        (rw h (Grouped-group_items k item (add_to k item groups) xs (add_to-Grouped k item groups)))
  group_items-Grouped item groups (x ∷ xs) (inr m) h = elim (Bool-cases (is_relisted x.change)) [
    | inl e ↦ rw e (group_items-Grouped item groups xs m h)
    | inr e ↦ rw e (group_items-Grouped item (add_to (report_key upper is_space x) x groups) xs m h)
  ]
