-- ===== src/License/Expiry.antt =====
-- When the search is allowed, and that no setting of the clock brings an expired lease back.
use searchcar_desktop.Base.{
  ℕ, ◌+◌, ◌≤◌, ◌<◌, String, ◌≡◌, refl, ap, inl, inr, Bool, true, false, ◌&&◌, Option, none, some,
  List, arith, leb, ltb, Bool-cases,
}
use searchcar_desktop.License.Lease.{
  LicenseError, File, missing, unreadable, content, Checked, raised, ok, Stamp, absent,
  invalid_stamp, at_time, Lease, TrustedTime, need, then_with, refuse_if, TimeUpdate, time_update,
  trusted_effective_time, trusted_times, stamp_or, clock_rollback_tolerance,
}
use searchcar_desktop.License.Entitlement.{
  decide, decided, past_end, granted, active, is_invalid_end,
}

-- the time that is stored as the highest observed one, if any
abbrev pub stamp_time : Stamp → ℕ
stamp_time (at_time t) = t
stamp_time _ = 0

abbrev pub highest_in : File TrustedTime → ℕ
highest_in (content t) = stamp_time t.highest_observed_at
highest_in _ = 0

abbrev effective_of : Checked TimeUpdate → ℕ
effective_of (raised e) = 0
effective_of (ok t) = t.effective

-- the effective time is at least the observed one, the server's and the highest that is stored
time_update-effective :
    (observed server previous highest : ℕ) (t : TimeUpdate)
    → time_update observed server previous highest ≡ ok t
    → (observed ≤ t.effective) × (server ≤ t.effective) × (highest ≤ t.effective)
unfolding time_update
time_update-effective observed server previous highest t h =
    elim (Bool-cases (ltb server previous)) [
      | inl e ↦ absurd (cc (rw e at h))
      | inr e ↦
          elim (Bool-cases
            (ltb (observed + clock_rollback_tolerance) highest && leb server highest)) [
              | inl q ↦ absurd (cc (rw (e, q) at h))
              | inr q ↦
                  let same = ap effective_of (rw (e, q) at h) in
                  (ground (arith, same), ground (arith, same), ground (arith, same))
            ]
    ]

abbrev second_time : Checked (ℕ × ℕ) → ℕ
second_time (raised e) = 0
second_time (ok (p, h)) = h

times-highest :
    (server p h : ℕ) (trusted : File TrustedTime)
    → trusted_times server trusted ≡ ok (p, h)
    → highest_in trusted ≤ h
times-highest server p h missing k = omega arith
times-highest server p h (unreadable e) k = omega arith
times-highest server p h (content t) k = stored t.server_time t.highest_observed_at k
  where
    stored :
        (a b : Stamp)
        → then_with {B = ℕ × ℕ} (stamp_or server a) (λ previous.
          then_with {B = ℕ × ℕ} (stamp_or server b) (λ highest. ok (previous, highest)))
          ≡ ok (p, h)
        → stamp_time b ≤ h
    stored a absent k = omega arith
    stored a invalid_stamp k = omega arith
    stored absent (at_time u) k = let e = ap second_time k in omega (arith, e)
    stored invalid_stamp (at_time u) k = absurd (cc)
    stored (at_time v) (at_time u) k = let e = ap second_time k in omega (arith, e)

pub trusted-effective :
    (observed server : ℕ) (trusted : File TrustedTime) (t : TimeUpdate)
    → trusted_effective_time observed server trusted ≡ ok t
    → (observed ≤ t.effective) × (server ≤ t.effective) × (highest_in trusted ≤ t.effective)
unfolding trusted_effective_time
trusted-effective observed server trusted t h = split (trusted_times server trusted) refl h
  where
    split :
        (c : Checked (ℕ × ℕ))
        → trusted_times server trusted ≡ c
        → then_with c (λ t. time_update observed server t.0 t.1) ≡ ok t
        → (observed ≤ t.effective) × (server ≤ t.effective) × (highest_in trusted ≤ t.effective)
    split (raised e) q k = absurd (cc)
    split (ok (p, g)) q k =
        let b = time_update-effective observed server p g t k in
        let m = times-highest server p g trusted q in (b.0, b.1, omega (arith, b.2, m))

-- what holds of a lease that allows the search at an effective time
abbrev pub Current : Lease → ℕ → ℕ → Type 0
Current lease effective expires =
    (effective < expires) × (past_end effective lease.subscription_expires_at ≡ false)

pub decide-Current :
    (lease : Lease) (effective expires : ℕ)
    → (decided (decide lease effective expires)).can_search ≡ true
    → Current lease effective expires
unfolding decide
decide-Current lease effective expires h = choose lease.search (granted lease.sources) h
  where
    choose :
        (search : Option Bool) (sources : Option (List String))
        → (decided (
            need search LicenseError.license_entitlements_invalid (λ s.
              need sources LicenseError.license_sources_invalid (λ ss.
                refuse_if (leb expires effective) LicenseError.license_lease_expired (
                  refuse_if
                    (is_invalid_end lease.subscription_expires_at)
                    LicenseError.license_subscription_expiry_invalid
                    (refuse_if
                      (past_end effective lease.subscription_expires_at)
                      LicenseError.license_subscription_expired
                      (ok (active s ss effective expires)))))))).can_search
          ≡ true
        → Current lease effective expires
    choose none ss h = absurd (cc)
    choose (some s) none h = absurd (cc)
    choose (some s) (some ss) h = ground (arith, h)
