-- ===== src/License/Lease.antt =====
-- The files of the license and the checks on a lease in backend/app/desktop_license.py. A lease is
-- given as its fields parse: a field is none where its type or its timestamp is not valid.
use searchcar_desktop.Base.{
  ℕ, ◌+◌, String, Bool, true, false, ◌&&◌, Option, none, some, List, [], ◌∷◌, if◌then◌else◌, ltb,
  leb, str_eq,
}

-- LICENSE_STATE_SYMLINK_NOT_ALLOWED, _TOO_LARGE and _INVALID
pub data ReadError : Type 0 where
  symlink_not_allowed too_large state_invalid : ReadError

-- LICENSE_ENCODING_INVALID and LICENSE_SIGNATURE_INVALID
pub data SignatureError : Type 0 where
  encoding_invalid signature_invalid : SignatureError

pub data LicenseError : Type 0 where
  license_not_configured license_lease_invalid : LicenseError
  license_lease_protocol_invalid license_signing_key_unknown : LicenseError
  license_state : ReadError → LicenseError
  license_signature : SignatureError → LicenseError
  license_device_mismatch license_server_time_invalid : LicenseError
  license_issued_at_invalid license_lease_expiry_invalid license_lease_time_invalid : LicenseError
  license_trusted_time_invalid license_server_time_rollback license_clock_rollback : LicenseError
  license_entitlements_invalid license_sources_invalid license_lease_expired : LicenseError
  license_subscription_expiry_invalid license_subscription_expired : LicenseError
  license_search_disabled license_source_not_allowed license_required : LicenseError

-- what `_read_json` gives
pub data File (A : Type 0) : Type 0 where
  missing : File A
  unreadable : ReadError → File A
  content : A → File A

-- a value, or the LicenseStateError that was raised
pub data Checked (A : Type 0) : Type 0 where
  raised : LicenseError → Checked A
  ok : A → Checked A

pub record Binding : Type 0 where
  pub license_id : Option String
  pub device_id : Option String

-- an optional timestamp
pub data Stamp : Type 0 where
  absent invalid_stamp : Stamp
  at_time : ℕ → Stamp

-- entitlements["sources"], where invalid stands for a list that is refused
pub data Sources : Type 0 where
  unlisted invalid_sources : Sources
  listed : List String → Sources

pub record Lease : Type 0 where
  pub protocol_valid : Bool
  pub key_id : Option String
  pub license_id : Option String
  pub device_id : Option String
  pub server_time : Option ℕ
  pub issued_at : Option ℕ
  pub lease_expires_at : Option ℕ
  pub search : Option Bool
  pub sources : Sources
  pub subscription_expires_at : Stamp

pub record Document : Type 0 where
  pub payload : Option Lease
  pub signature : Option String

pub record TrustedTime : Type 0 where
  pub server_time : Stamp
  pub highest_observed_at : Stamp

pub record LicenseFiles : Type 0 where
  pub binding : File Binding
  pub lease : File Document
  pub trusted : File TrustedTime

module _ {A B : Type 0} where
  abbrev pub need : Option A → LicenseError → (A → Checked B) → Checked B
  need none error next = raised error
  need (some a) error next = next a

  abbrev pub then_with : Checked A → (A → Checked B) → Checked B
  then_with (raised error) next = raised error
  then_with (ok a) next = next a

module _ {B : Type 0} where
  abbrev pub refuse_if : Bool → LicenseError → Checked B → Checked B
  refuse_if true error next = raised error
  refuse_if false error next = next

-- `_read_json(path)` with required=True
abbrev pub required : {A : Type 0} → File A → Checked A
required missing = raised license_not_configured
required (unreadable error) = raised (license_state error)
required (content a) = ok a

abbrev pub same_id : Option String → String → Bool
same_id none s = false
same_id (some t) s = str_eq t s

-- public_keys[key_id]
abbrev pub key_of : String → List (String × String) → Option String
key_of id [] = none
key_of id ((k, v) ∷ rest) = if str_eq k id then some v else key_of id rest

abbrev pub max_of : ℕ → ℕ → ℕ
max_of a b = if ltb a b then b else a

-- CLOCK_ROLLBACK_TOLERANCE, five minutes
abbrev pub clock_rollback_tolerance : ℕ
clock_rollback_tolerance = 300_000_000

-- `_timestamp(trusted.get(key, default), ...)`
abbrev pub stamp_or : ℕ → Stamp → Checked ℕ
stamp_or default absent = ok default
stamp_or default invalid_stamp = raised license_trusted_time_invalid
stamp_or default (at_time t) = ok t

-- the two times of the file, which may be missing
abbrev pub trusted_times : ℕ → File TrustedTime → Checked (ℕ × ℕ)
trusted_times server missing = ok (server, server)
trusted_times server (unreadable error) = raised (license_state error)
trusted_times server (content t) = then_with (stamp_or server t.server_time) (λ previous.
    then_with (stamp_or server t.highest_observed_at) (λ highest. ok (previous, highest)))

pub record TimeUpdate : Type 0 where
  pub effective : ℕ
  pub server : ℕ

-- the checks on the two times, and the effective time with the server's time to store
unfoldable pub time_update : ℕ → ℕ → ℕ → ℕ → Checked TimeUpdate
time_update observed server previous highest =
    refuse_if (ltb server previous) license_server_time_rollback (
      refuse_if (ltb (observed + clock_rollback_tolerance) highest && leb server highest)
        license_clock_rollback
        (ok record {
          effective = max_of (max_of observed server) highest;
          server = max_of server previous;
        }))

-- `_trusted_effective_time`
unfoldable pub trusted_effective_time : ℕ → ℕ → File TrustedTime → Checked TimeUpdate
unfolding time_update
trusted_effective_time observed server trusted =
    then_with (trusted_times server trusted) (λ t. time_update observed server t.0 t.1)
