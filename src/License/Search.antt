-- ===== src/License/Search.antt =====
-- What `evaluate_search_entitlement` allows.
use searchcar_desktop.Base.{
  ℕ, ◌≤◌, String, ◌≡◌, ◌⊎◌, refl, ap, ◌∙◌, inl, inr, Bool, true, false, Option, none, some, List,
  [], ◌∷◌, arith, leb, Bool-cases,
}
use mathlib.Core.Option.{some-injective}
use searchcar_desktop.License.Lease.{
  LicenseError, SignatureError, File, missing, unreadable, content, Checked, raised, ok, Stamp,
  Lease, TrustedTime, LicenseFiles, TimeUpdate, trusted_effective_time, need, then_with, refuse_if,
  time_update, stamp_or, absent, invalid_stamp, at_time,
}
use searchcar_desktop.License.Entitlement.{
  decide, decided, evaluate_at, bound_lease, evaluate_bound, evaluate_search_entitlement,
  store_time, granted, active, past_end, is_invalid_end,
}
use searchcar_desktop.License.Bound.{Genuine, bound_lease-Genuine, bound_lease-other}
use searchcar_desktop.License.Expiry.{highest_in, trusted-effective, Current, decide-Current}

-- the search that is allowed at an effective time at or after the present time, the server's time
-- and each time that was observed before
abbrev pub AllowedAt : ℕ → ℕ → ℕ → Lease → ℕ → Type 0
AllowedAt now server highest lease expires =
    (e : ℕ) × (now ≤ e) × (server ≤ e) × (highest ≤ e) × Current lease e expires

checked-cases :
    {A : Type 0} (c : Checked A) → ((e : LicenseError) × (c ≡ raised e)) ⊎ ((a : A) × (c ≡ ok a))
checked-cases (raised e) = inl (e, refl)
checked-cases (ok a) = inr (a, refl)

module _ (update : Bool) (now : ℕ) where
  evaluate_bound-Allowed :
      (verify : String → String → Lease → Option SignatureError) (lease : Lease)
      (server expires : ℕ) (files : LicenseFiles)
      → (evaluate_bound verify update now (ok (lease, server, expires)) files).0.can_search ≡ true
      → AllowedAt now server (highest_in files.trusted) lease expires
  unfolding evaluate_bound evaluate_at
  evaluate_bound-Allowed verify lease server expires files h =
      elim (checked-cases (trusted_effective_time now server files.trusted)) [
        | inl (e, q) ↦ absurd (cc (rw q at h))
        | inr (t, q) ↦
            let (a, b, c) = trusted-effective now server files.trusted t q in
            (t.effective, a, b, c, decide-Current lease t.effective expires (rw q at h))
      ]

  -- the stored time does not go back
  evaluate_bound-highest :
      (verify : String → String → Lease → Option SignatureError) (c : Checked (Lease × ℕ × ℕ))
      (files : LicenseFiles)
      → highest_in files.trusted ≤ highest_in (evaluate_bound verify update now c files).1.trusted
  unfolding evaluate_bound evaluate_at
  evaluate_bound-highest verify (raised e) files = omega arith
  evaluate_bound-highest verify (ok (lease, server, expires)) files =
      elim (checked-cases (trusted_effective_time now server files.trusted)) [
        | inl (e, q) ↦ rw q (omega arith)
        | inr (t, q) ↦
            let b = trusted-effective now server files.trusted t q in rw q (stored update t b.2)
      ]
    where
      stored :
          (u : Bool) (t : TimeUpdate)
          → highest_in files.trusted ≤ t.effective
          → highest_in files.trusted ≤ highest_in (store_time u t files).trusted
      stored true t k = k
      stored false t k = omega arith

decide-expired :
    (lease : Lease) (effective expires : ℕ)
    → (decided (decide lease effective expires)).reason ≡ some LicenseError.license_lease_expired
    → expires ≤ effective
unfolding decide
decide-expired lease effective expires h = choose lease.search (granted lease.sources) h
  where
    choose :
        (search : Option Bool) (sources : Option (List String))
        → (decided (
            need search LicenseError.license_entitlements_invalid (λ s.
              need sources LicenseError.license_sources_invalid (λ ss.
                refuse_if (leb expires effective) LicenseError.license_lease_expired (
                  refuse_if
                    (is_invalid_end lease.subscription_expires_at)
                    LicenseError.license_subscription_expiry_invalid
                    (refuse_if
                      (past_end effective lease.subscription_expires_at)
                      LicenseError.license_subscription_expired
                      (ok (active s ss effective expires)))))))).reason
          ≡ some LicenseError.license_lease_expired
        → expires ≤ effective
    choose none ss h = absurd (cc)
    choose (some s) none h = absurd (cc)
    choose (some s) (some ss) h = ground (arith, h)

not_expired :
    (now server : ℕ) (trusted : File TrustedTime)
    → trusted_effective_time now server trusted ≡ raised LicenseError.license_lease_expired
    → ⊥
unfolding trusted_effective_time time_update
not_expired now server missing h = ground (arith, h)
not_expired now server (unreadable e) h = cc
not_expired now server (content t) h = stamps t.server_time t.highest_observed_at h
  where
    stamps :
        (a b : Stamp)
        → then_with {B = TimeUpdate}
            (then_with {B = ℕ × ℕ} (stamp_or server a) (λ previous.
              then_with {B = ℕ × ℕ} (stamp_or server b) (λ highest. ok (previous, highest))))
            (λ t. time_update now server t.0 t.1)
          ≡ raised LicenseError.license_lease_expired
        → ⊥
    stamps invalid_stamp b k = cc
    stamps absent invalid_stamp k = cc
    stamps (at_time v) invalid_stamp k = cc
    stamps absent absent k = ground (arith, k)
    stamps absent (at_time u) k = ground (arith, k)
    stamps (at_time v) absent k = ground (arith, k)
    stamps (at_time v) (at_time u) k = ground (arith, k)

-- a lease that is found expired was so at the time that is stored
evaluate_bound-expired :
    (now : ℕ) (verify : String → String → Lease → Option SignatureError) (lease : Lease)
    (server expires : ℕ) (files : LicenseFiles)
    → (evaluate_bound verify true now (ok (lease, server, expires)) files).0.reason
      ≡ some LicenseError.license_lease_expired
    → expires
      ≤ highest_in (evaluate_bound verify true now (ok (lease, server, expires)) files).1.trusted
unfolding evaluate_bound evaluate_at
evaluate_bound-expired now verify lease server expires files h =
    elim (checked-cases (trusted_effective_time now server files.trusted)) [
      | inl (e, q) ↦
          let same : e ≡ LicenseError.license_lease_expired = some-injective _ _ (rw q at h) in
          absurd (not_expired now server files.trusted (q ∙ ap raised same))
      | inr (t, q) ↦ rw q (decide-expired lease t.effective expires (rw q at h))
    ]

module _ (verify : String → String → Lease → Option SignatureError)
    (keys : List (String × String)) where
  -- A required search is allowed only for a lease whose signature verifies with the key that it
  -- names, and which has the license and the device of the binding and was issued at the server's
  -- time, at an effective time that is before the end of the lease and of the subscription, and at or
  -- after the present time, the server's time and the highest time that was observed before.
  pub evaluate_search_entitlement-Allowed :
      (update : Bool) (now : ℕ) (files : LicenseFiles)
      → (evaluate_search_entitlement verify true update now keys files).0.can_search ≡ true
      → (lease : Lease) × (server : ℕ) × (expires : ℕ) × Genuine verify keys files lease server
          expires
        × AllowedAt now server (highest_in files.trusted) lease expires
  unfolding evaluate_search_entitlement evaluate_bound
  evaluate_search_entitlement-Allowed update now files h =
      elim (checked-cases (bound_lease verify keys files)) [
        | inl (e, q) ↦ absurd (cc (rw q at h))
        | inr (l, q) ↦
            let (lease, server, expires) = l in
            (
              lease,
              server,
              expires,
              bound_lease-Genuine verify keys files lease server expires q,
              evaluate_bound-Allowed update now verify lease server expires files (rw q at h),
            )
      ]

  -- The highest observed time that is stored never goes back.
  pub evaluate_search_entitlement-highest :
      (enforced update : Bool) (now : ℕ) (files : LicenseFiles)
      → highest_in files.trusted
        ≤ highest_in (evaluate_search_entitlement verify enforced update now keys files).1.trusted
  unfolding evaluate_search_entitlement
  evaluate_search_entitlement-highest false update now files = omega arith
  evaluate_search_entitlement-highest true update now files =
      evaluate_bound-highest update now verify (bound_lease verify keys files) files

  -- the rest of the files stays
  evaluate_bound-lease :
      (update : Bool) (now : ℕ) (c : Checked (Lease × ℕ × ℕ)) (files : LicenseFiles)
      → bound_lease verify keys (evaluate_bound verify update now c files).1
        ≡ bound_lease verify keys files
  unfolding evaluate_bound evaluate_at bound_lease
  evaluate_bound-lease update now (raised e) files = refl
  evaluate_bound-lease update now (ok (lease, server, expires)) files =
      elim (checked-cases (trusted_effective_time now server files.trusted)) [
        | inl (e, q) ↦ rw q refl
        | inr (t, q) ↦ rw q (stored update t)
      ]
    where
      stored :
          (u : Bool) (t : TimeUpdate)
          → bound_lease verify keys (store_time u t files) ≡ bound_lease verify keys files
      stored true t = refl
      stored false t = refl

  -- the lease of the files is over at the time that is stored
  abbrev pub IsOver : LicenseFiles → Type 0
  IsOver files =
      (l : Lease × ℕ × ℕ) × (bound_lease verify keys files ≡ ok l)
      × (l.2 ≤ highest_in files.trusted)

  found-IsOver :
      (now : ℕ) (files : LicenseFiles)
      → (evaluate_search_entitlement verify true true now keys files).0.reason
        ≡ some LicenseError.license_lease_expired
      → IsOver (evaluate_search_entitlement verify true true now keys files).1
  unfolding evaluate_search_entitlement
  found-IsOver now files h = elim (checked-cases (bound_lease verify keys files)) [
    | inl (e, q) ↦
        let same : e ≡ LicenseError.license_lease_expired =
          some-injective _ _ (rw (q, evaluate_bound) at h) in
        absurd (bound_lease-other verify keys files (q ∙ ap raised same))
    | inr (l, q) ↦ (
      l,
      evaluate_bound-lease true now (bound_lease verify keys files) files ∙ q,
      rw q (evaluate_bound-expired now verify l.0 l.1 l.2 files (rw q at h)),
    )
  ]

  evaluate-IsOver :
      (enforced update : Bool) (now : ℕ) (files : LicenseFiles)
      → IsOver files
      → IsOver (evaluate_search_entitlement verify enforced update now keys files).1
  unfolding evaluate_search_entitlement
  evaluate-IsOver false update now files h = h
  evaluate-IsOver true update now files (l, q, le) = (
    l,
    evaluate_bound-lease update now (bound_lease verify keys files) files ∙ q,
    omega
        (arith, le, evaluate_bound-highest update now verify (bound_lease verify keys files) files),
  )

  -- evaluations, one after the other, each with whether it is enforced, whether it stores the time,
  -- and the clock
  unfoldable pub evaluate_all : List (Bool × Bool × ℕ) → LicenseFiles → LicenseFiles
  unfolding evaluate_search_entitlement
  evaluate_all [] files = files
  evaluate_all ((enforced, update, now) ∷ rest) files =
      evaluate_all rest (evaluate_search_entitlement verify enforced update now keys files).1

  evaluate_all-IsOver :
      (es : List (Bool × Bool × ℕ)) (files : LicenseFiles)
      → IsOver files
      → IsOver (evaluate_all es files)
  unfolding evaluate_all
  evaluate_all-IsOver [] files h = h
  evaluate_all-IsOver ((enforced, update, now) ∷ es) files h =
      evaluate_all-IsOver es (evaluate_search_entitlement verify enforced update now keys files).1
        (evaluate-IsOver enforced update now files h)

  over-refused :
      (update : Bool) (now : ℕ) (files : LicenseFiles)
      → IsOver files
      → (evaluate_search_entitlement verify true update now keys files).0.can_search ≡ false
  unfolding evaluate_search_entitlement
  over-refused update now files (l, q, le) =
      elim (Bool-cases
        (evaluate_search_entitlement verify true update now keys files).0.can_search) [
          | inl h ↦
              let (e, a, b, c, d) =
                evaluate_bound-Allowed update now verify l.0 l.1 l.2 files (rw q at h) in
              absurd (omega (arith, c, d.0, le))
          | inr h ↦ h
        ]

  -- Once an evaluation has found the lease expired and stored the time, no later evaluation that is
  -- enforced allows the search with the same lease, after any sequence of evaluations in between and
  -- whatever the clock says at each.
  pub evaluate_search_entitlement-expired :
      (update : Bool) (now later : ℕ) (between : List (Bool × Bool × ℕ)) (files : LicenseFiles)
      → (evaluate_search_entitlement verify true true now keys files).0.reason
        ≡ some LicenseError.license_lease_expired
      → (evaluate_search_entitlement verify true update later keys (
          evaluate_all between
            (evaluate_search_entitlement verify true true now keys files).1)).0.can_search
        ≡ false
  evaluate_search_entitlement-expired update now later between files h =
      over-refused update later _ (evaluate_all-IsOver between _ (found-IsOver now files h))
