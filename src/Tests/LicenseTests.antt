-- ===== src/Tests/LicenseTests.antt =====
-- A lease that ends at 2000, at three times.
use searchcar_desktop.Base.{
  ℕ, String, ◌≡◌, refl, true, false, Bool, Option, none, some, List, [], ◌∷◌,
}
use searchcar_desktop.Json.{sorted_names}
use searchcar_desktop.License.Lease.{
  LicenseError, SignatureError, missing, content, absent, listed, Lease, LicenseFiles,
}
use searchcar_desktop.License.Entitlement.{evaluate_search_entitlement}
use searchcar_desktop.License.Bound.{Genuine}
use searchcar_desktop.License.Expiry.{highest_in}
use searchcar_desktop.License.Search.{
  AllowedAt, evaluate_all, evaluate_search_entitlement-Allowed, evaluate_search_entitlement-expired,
}

abbrev verify : String → String → Lease → Option SignatureError
verify key signature lease = none

abbrev keys : List (String × String)
keys = ("k1", "public") ∷ []

abbrev sample_lease : Lease
sample_lease = record {
  protocol_valid = true;
  key_id = some "k1";
  license_id = some "l";
  device_id = some "d";
  server_time = some 1000;
  issued_at = some 1000;
  lease_expires_at = some 2000;
  search = some true;
  sources = listed ("encar" ∷ []);
  subscription_expires_at = absent;
}

abbrev files : LicenseFiles
files = record {
  binding = content record { license_id = some "l"; device_id = some "d" };
  lease = content record { payload = some sample_lease; signature = some "s" };
  trusted = missing;
}

allowed_before : (evaluate_search_entitlement verify true true 1500 keys files).0.can_search ≡ true
unfolding evaluate_search_entitlement sorted_names
allowed_before = refl

evaluate_search_entitlement-Allowed_example :
    (lease : Lease) × (server : ℕ) × (expires : ℕ) × Genuine verify keys files lease server expires
    × AllowedAt 1500 server (highest_in files.trusted) lease expires
evaluate_search_entitlement-Allowed_example =
    evaluate_search_entitlement-Allowed verify keys true 1500 files allowed_before

expired_after :
    (evaluate_search_entitlement verify true true 2500 keys files).0.reason
    ≡ some LicenseError.license_lease_expired
unfolding evaluate_search_entitlement sorted_names
expired_after = refl

abbrev between : List (Bool × Bool × ℕ)
between = (true, true, 1600) ∷ (true, false, 900) ∷ []

evaluate_search_entitlement-expired_example :
    (evaluate_search_entitlement verify true true 1500 keys (
      evaluate_all verify keys between
        (evaluate_search_entitlement verify true true 2500 keys files).1)).0.can_search
    ≡ false
evaluate_search_entitlement-expired_example =
    evaluate_search_entitlement-expired verify keys true 2500 1500 between files expired_after
