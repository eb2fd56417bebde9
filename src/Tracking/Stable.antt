-- ===== src/Tracking/Stable.antt =====
-- What a page without a field, or without a verified condition, leaves of the stored details.
use searchcar_desktop.Base.{
  String, ◌≡◌, refl, ◌∙◌, inl, inr, Bool, true, false, ◌&&◌, ◌||◌, not, some, List, [], ◌∷◌, arith,
  str_eq, all, Bool-cases, Option-cases,
}
use searchcar_desktop.Json.{Json, Fields, lookup, get, truthy, as_dict, put, merge}
use searchcar_desktop.Json.Lookup.{str_eq→eq, str_eq_refl, lookup-put, lookup-merge}
use searchcar_desktop.Tracking.Changes.{one_of}
use searchcar_desktop.Tracking.Details.{
  stable_fields, is_missing_value, is_empty_dict, keep_stable, fingerprint_listing, has_status,
  skips_condition, merge_condition, merge_page, merge_reliable_detail, string_is, keep_summary,
}
use searchcar_desktop.Tracking.Reliable.{put-other, sold_keys, merge_reliable_detail-sold}

put-same : (k : String) (v : Json) (d : Fields) → lookup k (put k v d) ≡ some v
put-same k v d = rw (lookup-put k k v d, str_eq_refl k) refl

-- a name outside the list is not one of the list
outside :
    (f k : String) (fs : List String)
    → one_of fs f ≡ false
    → one_of fs k ≡ true
    → str_eq f k ≡ false
outside f k fs a b = elim (Bool-cases (str_eq f k)) [
  | inl e ↦ absurd (cc (rw (str_eq→eq f k e) at a, b))
  | inr e ↦ e
]

module _ (previous current : Fields) (k : String) where
  keep_stable-kept :
      (fs : List String) (merged : Fields)
      → is_missing_value (get k current) ≡ false
      → lookup k (keep_stable fs previous current merged) ≡ lookup k merged
  unfolding keep_stable
  keep_stable-kept [] merged h = refl
  keep_stable-kept (f ∷ fs) merged h =
      elim (Bool-cases
        (is_missing_value (get f current) && not (is_missing_value (get f previous)))) [
          | inl e ↦ rw e (
              keep_stable-kept fs (put f (get f previous) merged) h
              ∙ put-other k f (get f previous) merged (differs e))
          | inr e ↦ rw e (keep_stable-kept fs merged h)
        ]
    where
      differs :
          (is_missing_value (get f current) && not (is_missing_value (get f previous))) ≡ true
          → str_eq f k ≡ false
      differs e = elim (Bool-cases (str_eq f k)) [
        | inl q ↦ absurd (ground (arith, rw (str_eq→eq f k q) at e, h))
        | inr q ↦ q
      ]

  keep_stable-held :
      (fs : List String) (merged : Fields)
      → lookup k merged ≡ some (get k previous)
      → lookup k (keep_stable fs previous current merged) ≡ some (get k previous)
  unfolding keep_stable
  keep_stable-held [] merged h = h
  keep_stable-held (f ∷ fs) merged h =
      elim (Bool-cases
        (is_missing_value (get f current) && not (is_missing_value (get f previous)))) [
          | inl e ↦ rw e (keep_stable-held fs (put f (get f previous) merged) (still))
          | inr e ↦ rw e (keep_stable-held fs merged h)
        ]
    where
      still : lookup k (put f (get f previous) merged) ≡ some (get k previous)
      still = elim (Bool-cases (str_eq f k)) [
        | inl q ↦ rw (str_eq→eq f k q) (put-same k (get k previous) merged)
        | inr q ↦ put-other k f (get f previous) merged q ∙ h
      ]

  keep_stable-restored :
      (fs : List String) (merged : Fields)
      → is_missing_value (get k current) ≡ true
      → is_missing_value (get k previous) ≡ false
      → one_of fs k ≡ true
      → lookup k (keep_stable fs previous current merged) ≡ some (get k previous)
  unfolding keep_stable
  keep_stable-restored [] merged c p h = absurd (cc)
  keep_stable-restored (f ∷ fs) merged c p h = elim (Bool-cases (str_eq f k)) [
    | inl q ↦ rw (str_eq→eq f k q) (
        rw (c, p)
          (keep_stable-held fs (put k (get k previous) merged)
            (put-same k (get k previous) merged)))
    | inr q ↦ keep_stable-restored fs _ c p (ground (arith, q))
  ]

  merge-get :
      is_missing_value (get k current) ≡ false → get k (merge previous current) ≡ get k current
  merge-get h = elim (Option-cases (lookup k current)) [
    | inl e ↦ absurd (ground (arith, e))
    | inr (v, e) ↦ rw (lookup-merge k previous current) (rw e refl)
  ]

  -- the merge of the page and the stable fields
  stable-get :
      one_of stable_fields k ≡ true
      → is_missing_value (get k previous) ≡ false
      → is_missing_value
          (get k (keep_stable stable_fields previous current (merge previous current)))
        ≡ false
  stable-get s p = elim (Bool-cases (is_missing_value (get k current))) [
    | inl c ↦ rw (keep_stable-restored stable_fields (merge previous current) c p s) p
    | inr c ↦ rw (keep_stable-kept stable_fields (merge previous current) c) (rw (merge-get c) c)
  ]

keep_summary-other :
    (k : String) (previous current merged : Fields)
    → str_eq "condition_summary" k ≡ false
    → lookup k (keep_summary previous current merged) ≡ lookup k merged
keep_summary-other k previous current merged h =
    elim (Bool-cases (
      string_is "UNVERIFIED" (get "condition_summary" current)
      && not (is_missing_value (get "condition_summary" previous)))) [
        | inl e ↦ rw e (put-other k "condition_summary" (get "condition_summary" previous) merged h)
        | inr e ↦ rw e refl
      ]

lists-apart :
    (fs gs : List String) (k : String)
    → all (λ g. not (one_of fs g)) gs ≡ true
    → one_of fs k ≡ true
    → one_of gs k ≡ false
lists-apart fs [] k a h = refl
lists-apart fs (g ∷ gs) k a h =
    ground (arith, outside g k fs (ground (arith, a)) h, lists-apart fs gs k (ground (arith, a)) h)

abbrev pub verified_before : Json → Bool
verified_before old = has_status "CONFIRMED" old || has_status "NOT_FOUND" old

-- an entry that is verified in the stored condition is never left unverified
merge_condition-verified :
    (k : String) (old entries condition : Fields)
    → verified_before (get k old) ≡ true
    → has_status "UNVERIFIED" (get k condition) ≡ false
    → has_status "UNVERIFIED" (get k (merge_condition old entries condition)) ≡ false
unfolding merge_condition
merge_condition-verified k old Fields.empty condition v h = h
merge_condition-verified k old (Fields.field j w rest) condition v h =
    elim (Bool-cases (skips_condition w (get j old))) [
      | inl e ↦ rw e (merge_condition-verified k old rest condition v h)
      | inr e ↦ rw e (merge_condition-verified k old rest (put j w condition) v (written e))
    ]
  where
    written :
        skips_condition w (get j old) ≡ false
        → has_status "UNVERIFIED" (get k (put j w condition)) ≡ false
    written e = elim (Bool-cases (str_eq j k)) [
      | inl q ↦
          let same = str_eq→eq j k q in
          rw same (rw (put-same k w condition) (ground (arith, rw same at e, v)))
      | inr q ↦ rw (put-other k j w condition q) h
    ]

-- a value is one string only
string_is-only :
    (s t : String) (v : Json) → string_is s v ≡ true → str_eq s t ≡ false → string_is t v ≡ false
string_is-only s t (Json.string u) h d = rw (str_eq→eq u s h) d
string_is-only s t _ h d = refl

verified-not : (v : Json) → verified_before v ≡ true → has_status "UNVERIFIED" v ≡ false
verified-not (Json.dict d) h = elim (Bool-cases (string_is "CONFIRMED" (get "status" d))) [
  | inl e ↦ string_is-only "CONFIRMED" "UNVERIFIED" (get "status" d) e refl
  | inr e ↦ string_is-only "NOT_FOUND" "UNVERIFIED" (get "status" d) (ground (arith, e, h)) refl
]
verified-not _ h = absurd (cc)

module _ (digest : Fields → String) (previous current : Fields) where
  merge_page-other :
      (k : String)
      → one_of stable_fields k ≡ true
      → lookup k (merge_page digest previous current)
        ≡ lookup k (keep_stable stable_fields previous current (merge previous current))
  unfolding merge_page
  merge_page-other k s =
      put-other k "fingerprint" _ _ (outside "fingerprint" k stable_fields refl s)
      ∙ (keep_summary-other k previous current _
            (outside "condition_summary" k stable_fields refl s)
          ∙ (put-other k "condition" _ _ (outside "condition" k stable_fields refl s)
              ∙ put-other k "options" _ _ (outside "options" k stable_fields refl s)))

  -- No page makes a stable field that the stored details have go missing.
  pub merge_reliable_detail-stable :
      (k : String)
      → one_of stable_fields k ≡ true
      → is_missing_value (get k previous) ≡ false
      → is_missing_value (get k (merge_reliable_detail digest previous current)) ≡ false
  unfolding merge_reliable_detail
  merge_reliable_detail-stable k s p =
      elim (Bool-cases (truthy (get "sold" current) && not (is_empty_dict previous))) [
        | inl e ↦
            rw
              (merge_reliable_detail-sold digest k previous current (ground (arith, e))
                (ground (arith, e)) (lists-apart stable_fields sold_keys k refl s))
              p
        | inr e ↦ rw e (rw (merge_page-other k s) (stable-get previous current k s p))
      ]

  merge_page-condition :
      lookup "condition" (merge_page digest previous current)
      ≡ some (
          Json.dict (
            merge_condition
              (as_dict (get "condition" previous))
              (as_dict (get "condition" current))
              (as_dict (get "condition" previous))))
  unfolding merge_page
  merge_page-condition =
      let old = as_dict (get "condition" previous) in
      let condition = Json.dict (merge_condition old (as_dict (get "condition" current)) old) in
      let options =
        Json.dict (merge (as_dict (get "options" previous)) (as_dict (get "options" current))) in
      let base =
        put "options" options
          (keep_stable stable_fields previous current (merge previous current)) in
      let entries = put "condition" condition base in
      let merged = keep_summary previous current entries in
      put-other "condition" "fingerprint" (Json.string (fingerprint_listing digest merged)) merged
        refl
      ∙ (keep_summary-other "condition" previous current entries refl
          ∙ put-same "condition" condition base)

  -- An entry of the condition that is confirmed, or confirmed to be absent, is not left unverified
  -- by a page of a listing that is not sold.
  pub merge_reliable_detail-condition :
      (k : String)
      → truthy (get "sold" current) ≡ false
      → verified_before (get k (as_dict (get "condition" previous))) ≡ true
      → has_status "UNVERIFIED"
          (get k (as_dict (get "condition" (merge_reliable_detail digest previous current))))
        ≡ false
  unfolding merge_reliable_detail
  merge_reliable_detail-condition k s v = rw s (
      rw merge_page-condition (
        merge_condition-verified k (as_dict (get "condition" previous))
          (as_dict (get "condition" current)) (as_dict (get "condition" previous)) v
          (verified-not (get k (as_dict (get "condition" previous))) v)))
