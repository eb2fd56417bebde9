-- ===== src/Accounts.antt =====
-- auth.py: the accounts, their sessions and the attempts to log in. Hashes, tokens and the
-- normalisation of names come from other libraries: a hash function and a check of passwords are
-- parameters, and a token is what the random generator gives.
pub mod Requests
pub mod Users
pub mod Admin
pub mod Changes
pub mod Steps
mod Effects
mod Admins
mod Entries
pub mod Safety
use searchcar_desktop.Base.{
  ℕ, ◌+◌, ◌-◌, ◌*◌, String, Bool, true, false, not, ◌&&◌, ◌||◌, Option, none, some, List, [], ◌∷◌,
  ◌++◌, map, any, find_by, count_by, if◌then◌else◌, ltb, leb, ◌==◌, text_eq, is_some,
}
use searchcar_desktop.Store.{Db, Text}

pub data Role : Type 0 where
  admin_role user_role : Role

pub data AccountStatus : Type 0 where
  active blocked pending_approval : AccountStatus

pub record Account : Type 0 where
  pub id : ℕ
  pub username : Text
  pub username_key : Text
  pub password_hash : Text
  pub role : Role
  pub status : AccountStatus
  pub project_limit : Option ℕ
  pub must_change_password : Bool
  pub preferred_locale : Text
  pub last_login_at : Option ℕ
  pub last_activity_at : Option ℕ

-- The hashes of the address and of the browser, which nothing reads, are left out.
pub record AuthSession : Type 0 where
  pub id : ℕ
  pub user_id : ℕ
  pub token_hash : Text
  pub csrf_hash : Text
  pub expires_at : ℕ
  pub last_seen_at : ℕ
  pub revoked_at : Option ℕ

pub record AuthAttempt : Type 0 where
  pub username_key : Text
  pub ip_hash : Option Text
  pub success : Bool
  pub created_at : ℕ

-- `db` holds the tables of the scans, which the deletion and the blocking of a user change; what the
-- scans see of the users there (`db.users`) follows `users` and is not written twice
pub record Accounts : Type 0 where
  pub users : List Account
  pub sessions : List AuthSession
  pub attempts : List AuthAttempt
  pub next_user : ℕ
  pub next_session : ℕ
  pub db : Db

abbrev pub is_admin : Account → Bool
is_admin u = elim u.role [ admin_role ↦ true | user_role ↦ false ]

abbrev pub is_active : AccountStatus → Bool
is_active active = true
is_active _ = false

-- role == "ADMIN" and status == "ACTIVE"
abbrev pub is_active_admin : Account → Bool
is_active_admin u = is_admin u && is_active u.status

abbrev pub find_user : ℕ → List Account → Option Account
find_user id users = find_by (λ u. u.id == id) users

-- UPDATE users SET ... WHERE id = ...
unfoldable pub update_user : ℕ → (Account → Account) → List Account → List Account
update_user id f [] = []
update_user id f (x ∷ xs) =
    let rest = update_user id f xs in if x.id == id then f x ∷ xs else x ∷ rest

unfoldable pub remove_user : ℕ → List Account → List Account
remove_user id [] = []
remove_user id (x ∷ xs) = let rest = remove_user id xs in if x.id == id then xs else x ∷ rest

abbrev pub set_user : ℕ → (Account → Account) → Accounts → Accounts
set_user id f a = record a { users = update_user id f a.users }

unfoldable pub update_session : ℕ → (AuthSession → AuthSession) → AuthSession → AuthSession
update_session id f s = if s.id == id then f s else s

abbrev pub set_session : ℕ → (AuthSession → AuthSession) → Accounts → Accounts
set_session id f a = record a { sessions = map (update_session id f) a.sessions }

abbrev is_except : Option ℕ → ℕ → Bool
is_except none id = false
is_except (some e) id = id == e

-- one row of `revoke_user_sessions`
unfoldable pub revoke_row : ℕ → Option ℕ → ℕ → AuthSession → AuthSession
revoke_row user except now s =
    if s.user_id == user && not (is_some s.revoked_at) && not (is_except except s.id)
    then record s { revoked_at = some now }
    else s

unfoldable pub revoke_user_sessions : ℕ → Option ℕ → ℕ → Accounts → Accounts
unfolding revoke_row
revoke_user_sessions user except now a = record a {
  sessions = map (revoke_row user except now) a.sessions;
}
