-- ===== src/License.antt =====
-- The desktop's license: the search entitlement of backend/app/desktop_license.py.
pub mod Lease
pub mod Entitlement
pub mod Bound
pub mod Expiry
pub mod Search
