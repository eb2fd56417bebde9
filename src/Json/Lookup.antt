-- ===== src/Json/Lookup.antt =====
-- What a dict holds after an assignment and after `{**a, **b}`.
use text.Mathlib.TextEquality.{eq_iff}
use searchcar_desktop.Base.{
  String, ◌≡◌, refl, inl, inr, true, false, Option, none, some, arith, str_eq, is_some, Bool-cases,
  Option-cases, if◌then◌else◌,
}
use searchcar_desktop.Json.{
  Json, Fields, empty, field, lookup, put, merge, override, extra, append, or_value,
}

pub str_eq→eq : (s t : String) → str_eq s t ≡ true → s ≡ t
str_eq→eq s t h = (eq_iff s t).0 h

pub str_eq_refl : (s : String) → str_eq s s ≡ true
str_eq_refl s = (eq_iff s s).1 refl

-- after d[key] = v
pub lookup-put :
    (k key : String) (v : Json) (d : Fields)
    → lookup k (put key v d) ≡ (if str_eq key k then some v else lookup k d)
unfolding put
lookup-put k key v empty = refl
lookup-put k key v (field j w rest) = elim (Bool-cases (str_eq j key)) [
  | inl e ↦ rw e (
      rw (str_eq→eq j key e)
        (elim (Bool-cases (str_eq key k)) [ inl q ↦ rw q refl | inr q ↦ rw q refl ]))
  | inr e ↦ rw e (elim (Bool-cases (str_eq j k)) [
    | inl q ↦ ground (arith, q, e, other j key k e q)
    | inr q ↦ ground (arith, q, lookup-put k key v rest)
  ])
]
  where
    other : (j key k : String) → str_eq j key ≡ false → str_eq j k ≡ true → str_eq key k ≡ false
    other j key k e q = elim (Bool-cases (str_eq key k)) [
      | inl p ↦ absurd (cc (rw (str_eq→eq j k q, str_eq→eq key k p) at e, str_eq_refl k))
      | inr p ↦ p
    ]

-- the first value that is there
abbrev pub first_of : Option Json → Option Json → Option Json
first_of none w = w
first_of (some v) w = some v

lookup-append :
    (k : String) (a b : Fields) → lookup k (append a b) ≡ first_of (lookup k a) (lookup k b)
lookup-append k empty b = refl
lookup-append k (field j v rest) b = ground (arith, lookup-append k rest b)

-- the value of an overridden field
abbrev overridden : Option Json → Option Json → Option Json
overridden none w = none
overridden (some v) w = some (or_value w v)

lookup-override :
    (k : String) (a b : Fields) → lookup k (override a b) ≡ overridden (lookup k a) (lookup k b)
unfolding override
lookup-override k empty b = refl
lookup-override k (field j v rest) b = elim (Bool-cases (str_eq j k)) [
  | inl e ↦ rw e (rw (str_eq→eq j k e) refl)
  | inr e ↦ ground (arith, e, lookup-override k rest b)
]

lookup-extra : (k : String) (a b : Fields) → lookup k a ≡ none → lookup k (extra a b) ≡ lookup k b
unfolding extra
lookup-extra k a empty h = refl
lookup-extra k a (field j v rest) h = elim (Bool-cases (str_eq j k)) [
  | inl e ↦ rw (str_eq→eq j k e) (rw h (rw (str_eq_refl k) refl))
  | inr e ↦ elim (Bool-cases (is_some (lookup j a))) [
    | inl s ↦ rw s (rw e (lookup-extra k a rest h))
    | inr s ↦ rw s (rw e (lookup-extra k a rest h))
  ]
]

-- after {**a, **b}
pub lookup-merge :
    (k : String) (a b : Fields) → lookup k (merge a b) ≡ first_of (lookup k b) (lookup k a)
unfolding merge
lookup-merge k a b = elim (Option-cases (lookup k a)) [
  | inl e ↦
      rw
        (lookup-append k (override a b) (extra a b), lookup-override k a b, e, lookup-extra k a b e)
        (keeps (lookup k b))
  | inr (v, e) ↦
      rw (lookup-append k (override a b) (extra a b), lookup-override k a b, e)
        (picks (lookup k b) v)
]
  where
    keeps : (w : Option Json) → w ≡ first_of w none
    keeps none = refl
    keeps (some w) = refl

    picks : (w : Option Json) (v : Json) → some (or_value w v) ≡ first_of w (some v)
    picks none v = refl
    picks (some w) v = refl
