-- ===== src/Tracking/Reliable.antt =====
-- What `merge_reliable_detail` never loses.
use searchcar_desktop.Base.{
  String, ◌≡◌, refl, ◌∙◌, inl, inr, true, false, List, [], ◌∷◌, arith, str_eq, Bool-cases,
  Option-cases,
}
use searchcar_desktop.Json.{Json, Fields, lookup, get, truthy, put}
use searchcar_desktop.Json.Lookup.{str_eq→eq, lookup-put}
use searchcar_desktop.Tracking.Changes.{one_of}
use searchcar_desktop.Tracking.Details.{
  sold_page_fields, is_empty_dict, copy_fields, merge_sold, merge_reliable_detail,
}

-- an assignment to another key
pub put-other :
    (k key : String) (v : Json) (d : Fields)
    → str_eq key k ≡ false
    → lookup k (put key v d) ≡ lookup k d
put-other k key v d h = rw (lookup-put k key v d, h) refl

copy_fields-other :
    (k : String) (fs : List String) (current merged : Fields)
    → one_of fs k ≡ false
    → lookup k (copy_fields fs current merged) ≡ lookup k merged
unfolding copy_fields
copy_fields-other k [] current merged h = refl
copy_fields-other k (f ∷ fs) current merged h = elim (Option-cases (lookup f current)) [
  | inl e ↦ rw e (copy_fields-other k fs current merged (ground (arith)))
  | inr (v, e) ↦ rw e (
      copy_fields-other k fs current (put f v merged) (ground (arith))
      ∙ put-other k f v merged (ground (arith)))
]

-- a name of the list is not a name outside it
pub one_of-apart :
    (f k : String) (fs : List String)
    → one_of fs f ≡ true
    → one_of fs k ≡ false
    → str_eq f k ≡ false
one_of-apart f k fs a b = elim (Bool-cases (str_eq f k)) [
  | inl e ↦ absurd (cc (rw (str_eq→eq f k e) at a, b))
  | inr e ↦ e
]

-- what the page of a sold listing may change
abbrev pub sold_keys : List String
sold_keys = "fingerprint" ∷ sold_page_fields

one_of_tail : (f k : String) (fs : List String) → one_of (f ∷ fs) k ≡ false → one_of fs k ≡ false
one_of_tail f k fs h = ground arith

module _ (digest : Fields → String) where
  merge_sold-other :
      (k : String) (previous current : Fields)
      → one_of sold_keys k ≡ false
      → lookup k (merge_sold digest previous current) ≡ lookup k previous
  unfolding merge_sold
  merge_sold-other k previous current h =
      put-other k "fingerprint" _ _ (one_of-apart "fingerprint" k sold_keys refl h)
      ∙ (put-other k "parse_quality" _ _ (one_of-apart "parse_quality" k sold_keys refl h)
          ∙ (put-other k "unavailable" _ _ (one_of-apart "unavailable" k sold_keys refl h)
              ∙ (put-other k "sold" _ _ (one_of-apart "sold" k sold_keys refl h)
                  ∙ copy_fields-other k sold_page_fields current previous
                      (one_of_tail "fingerprint" k sold_page_fields h))))

  -- The page of a sold listing leaves every field of the stored details as it is but for those that
  -- tell of the page and of the sale.
  pub merge_reliable_detail-sold :
      (k : String) (previous current : Fields)
      → truthy (get "sold" current) ≡ true
      → is_empty_dict previous ≡ false
      → one_of sold_keys k ≡ false
      → lookup k (merge_reliable_detail digest previous current) ≡ lookup k previous
  unfolding merge_reliable_detail
  merge_reliable_detail-sold k previous current s p h =
      rw (s, p) (merge_sold-other k previous current h)
