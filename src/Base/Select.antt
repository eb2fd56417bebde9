-- ===== src/Base/Select.antt =====
-- Which items `select` keeps, and what holds of all or some items of a list.
use mathlib.Core.Path.{◌≡◌, refl}
use mathlib.Core.Logic.{◌⊎◌, inl, inr}
use mathlib.Core.Bool.{Bool, true, false}
use mathlib.Core.List.{List, [], ◌∷◌}
use searchcar_desktop.Base.Tests.{if◌then◌else◌}
use searchcar_desktop.Base.Lists.{select, In, All}

module _ {A : Type 0} (p : A → Bool) where
  In-select_if :
      (b : Bool) (a x : A) (xs ys : List A)
      → p x ≡ b
      → (In a ys → In a xs × (p a ≡ true))
      → In a (if b then x ∷ ys else ys)
      → In a (x ∷ xs) × (p a ≡ true)
  In-select_if true a x xs ys e ih (inl q) = (inl q, rw q e)
  In-select_if true a x xs ys e ih (inr m) = (inr (ih m).0, (ih m).1)
  In-select_if false a x xs ys e ih m = (inr (ih m).0, (ih m).1)

  -- what `select` keeps is in the list and passes the test
  pub In-select : (a : A) (xs : List A) → In a (select p xs) → In a xs × (p a ≡ true)
  In-select a [] m = elim m [ ]
  In-select a (x ∷ xs) m = In-select_if (p x) a x xs (select p xs) refl (In-select a xs) m

  select-In_if :
      (b : Bool) (a x : A) (ys : List A)
      → p x ≡ b
      → p a ≡ true
      → (a ≡ x) ⊎ In a ys
      → In a (if b then x ∷ ys else ys)
  select-In_if true a x ys e h m = m
  select-In_if false a x ys e h (inl q) = absurd (cc)
  select-In_if false a x ys e h (inr m) = m

  select-In_tail :
      (a x : A) (xs ys : List A) → (In a xs → In a ys) → (a ≡ x) ⊎ In a xs → (a ≡ x) ⊎ In a ys
  select-In_tail a x xs ys f (inl q) = inl q
  select-In_tail a x xs ys f (inr m) = inr (f m)

  -- and `select` keeps all that passes the test
  pub select-In : (a : A) (xs : List A) → In a xs → p a ≡ true → In a (select p xs)
  select-In a [] m h = elim m [ ]
  select-In a (x ∷ xs) m h =
      select-In_if (p x) a x (select p xs) refl h
        (select-In_tail a x xs (select p xs) (λ n. select-In a xs n h) m)

module _ {A : Type 0} (P : A → Type 0) where
  pub All-In : (xs : List A) → All P xs → (a : A) → In a xs → P a
  All-In [] h a m = elim m [ ]
  All-In (x ∷ xs) h a (inl q) = rw q h.0
  All-In (x ∷ xs) h a (inr m) = All-In xs h.1 a m

  pub In-All : (xs : List A) → ((a : A) → In a xs → P a) → All P xs
  In-All [] h = tt
  In-All (x ∷ xs) h = (h x (inl refl), In-All xs (λ a m. h a (inr m)))
