-- ===== src/License/Entitlement.antt =====
-- `evaluate_search_entitlement` and `require_search_entitlement` of backend/app/desktop_license.py.
-- `verify key signature lease` is the check of the Ed25519 signature over the canonical JSON of the
-- lease, with the decoding of the key and the signature: none, or the error that is raised.
use searchcar_desktop.Base.{
  ℕ, String, Bool, true, false, ◌&&◌, ◌||◌, not, Option, none, some, List, [], ◌∷◌, if◌then◌else◌,
  leb, ◌==◌, str_eq, any,
}
use searchcar_desktop.Json.{sorted_names}
use searchcar_desktop.License.Lease.{
  LicenseError, SignatureError, content, Checked, raised, ok, Binding, Stamp, invalid_stamp,
  at_time, Sources, unlisted, invalid_sources, listed, Lease, Document, LicenseFiles, need,
  then_with, refuse_if, required, same_id, key_of, TimeUpdate, trusted_effective_time,
}

pub record Decision : Type 0 where
  pub enforced : Bool
  pub can_search : Bool
  pub reason : Option LicenseError
  pub effective_time : Option ℕ
  pub lease_expires_at : Option ℕ
  pub sources : List String

abbrev pub pilot : Decision
pilot = record {
  enforced = false;
  can_search = true;
  reason = none;
  effective_time = none;
  lease_expires_at = none;
  sources = [];
}

abbrev pub blocked : LicenseError → Decision
blocked error = record {
  enforced = true;
  can_search = false;
  reason = some error;
  effective_time = none;
  lease_expires_at = none;
  sources = [];
}

abbrev pub some_source : List String → Bool
some_source [] = false
some_source (_ ∷ _) = true

abbrev pub past_end : ℕ → Stamp → Bool
past_end now (at_time t) = leb t now
past_end now _ = false

abbrev pub is_invalid_end : Stamp → Bool
is_invalid_end invalid_stamp = true
is_invalid_end _ = false

abbrev pub active : Bool → List String → ℕ → ℕ → Decision
active search sources effective expires = record {
  enforced = true;
  can_search = search && some_source sources;
  reason =
      if search && some_source sources then none else some LicenseError.license_search_disabled;
  effective_time = some effective;
  lease_expires_at = some expires;
  sources = sources;
}

-- the times of a lease: server_time, lease_expires_at
abbrev pub lease_times : Lease → Checked (ℕ × ℕ)
lease_times lease = need lease.server_time LicenseError.license_server_time_invalid (λ server.
    need lease.issued_at LicenseError.license_issued_at_invalid (λ issued.
      need lease.lease_expires_at LicenseError.license_lease_expiry_invalid (λ expires.
        refuse_if (not (server == issued) || leb expires issued)
          LicenseError.license_lease_time_invalid (ok (server, expires)))))

-- license_id and device_id are strings, and those of the binding
abbrev pub bound_to : Binding → Lease → Bool
bound_to binding lease = elim lease.license_id [
  | none ↦ false
  | some l ↦ elim lease.device_id [
    | none ↦ false
    | some d ↦ same_id binding.license_id l && same_id binding.device_id d
  ]
]

-- tuple(sorted(set(...))); a lease without a list is valid for Encar only
abbrev pub granted : Sources → Option (List String)
granted unlisted = some ("encar" ∷ [])
granted invalid_sources = none
granted (listed names) = some (sorted_names names)

-- the checks after the effective time is known
unfoldable pub decide : Lease → ℕ → ℕ → Checked Decision
decide lease effective expires =
    need lease.search LicenseError.license_entitlements_invalid (λ search.
      need (granted lease.sources) LicenseError.license_sources_invalid (λ sources.
        refuse_if (leb expires effective) LicenseError.license_lease_expired (
          refuse_if (is_invalid_end lease.subscription_expires_at)
            LicenseError.license_subscription_expiry_invalid
            (refuse_if (past_end effective lease.subscription_expires_at)
              LicenseError.license_subscription_expired
              (ok (active search sources effective expires))))))

abbrev pub decided : Checked Decision → Decision
decided (raised error) = blocked error
decided (ok d) = d

-- `_atomic_json(trusted_path, ...)`, if the call updates the trusted time
abbrev pub store_time : Bool → TimeUpdate → LicenseFiles → LicenseFiles
store_time update t files =
    if update
    then record files {
      trusted =
          content
            record { server_time = at_time t.server; highest_observed_at = at_time t.effective };
    }
    else files

-- from the trusted time on
unfoldable pub evaluate_at :
    Bool → Lease → ℕ → ℕ → Checked TimeUpdate → LicenseFiles → Decision × LicenseFiles
unfolding decide
evaluate_at update lease server expires (raised error) files = (blocked error, files)
evaluate_at update lease server expires (ok t) files =
    (decided (decide lease t.effective expires), store_time update t files)

abbrev pub verified : Option SignatureError → Lease → Checked Lease
verified none lease = ok lease
verified (some error) lease = raised (LicenseError.license_signature error)

module _ (verify : String → String → Lease → Option SignatureError) where
  -- `_verify_lease_document`
  unfoldable pub verify_lease_document : Document → List (String × String) → Checked Lease
  verify_lease_document document keys =
      need document.payload LicenseError.license_lease_invalid (λ lease.
        need document.signature LicenseError.license_lease_invalid (λ signature.
          refuse_if (not lease.protocol_valid) LicenseError.license_lease_protocol_invalid (
            need lease.key_id LicenseError.license_signing_key_unknown (λ id.
              need (key_of id keys) LicenseError.license_signing_key_unknown
                (λ key. verified (verify key signature lease) lease)))))

  -- the lease that is verified and bound to this device, with its times
  unfoldable pub bound_lease : List (String × String) → LicenseFiles → Checked (Lease × ℕ × ℕ)
  unfolding verify_lease_document
  bound_lease keys files = then_with (required files.binding) (λ binding.
      then_with (required files.lease) (λ document.
        then_with (verify_lease_document document keys) (λ lease.
          refuse_if (not (bound_to binding lease)) LicenseError.license_device_mismatch
            (then_with (lease_times lease) (λ t. ok (lease, t.0, t.1))))))

  unfoldable pub evaluate_bound :
      Bool → ℕ → Checked (Lease × ℕ × ℕ) → LicenseFiles → Decision × LicenseFiles
  unfolding evaluate_at trusted_effective_time
  evaluate_bound update now (raised error) files = (blocked error, files)
  evaluate_bound update now (ok (lease, server, expires)) files =
      evaluate_at update lease server expires (trusted_effective_time now server files.trusted)
        files

  -- `evaluate_search_entitlement`; `enforced` is `mode == "required"`
  unfoldable pub evaluate_search_entitlement :
      Bool → Bool → ℕ → List (String × String) → LicenseFiles → Decision × LicenseFiles
  unfolding bound_lease evaluate_bound
  evaluate_search_entitlement enforced update now keys files =
      if enforced then evaluate_bound update now (bound_lease keys files) files else (pilot, files)

abbrev pub or_required : Option LicenseError → LicenseError
or_required none = LicenseError.license_required
or_required (some e) = e

abbrev pub source_allowed : Option String → Decision → Bool
source_allowed none d = true
source_allowed (some key) d = not d.enforced || any (λ s. str_eq s key) d.sources

-- `require_search_entitlement` on the decision of the evaluation
unfoldable pub require_search_entitlement : Option String → Decision → Checked Decision
require_search_entitlement source d =
    refuse_if (not d.can_search) (or_required d.reason)
      (refuse_if (not (source_allowed source d)) LicenseError.license_source_not_allowed (ok d))
