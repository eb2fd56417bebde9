-- ===== src/Accounts/Users.antt =====
-- The endpoints of main.py on accounts: login and logout, passwords and profiles, registration, and
-- what an administrator may do. The entries of the audit log are left out.
use searchcar_desktop.Base.{
  ℕ, ◌+◌, ◌-◌, Bool, true, false, not, ◌&&◌, ◌||◌, Option, none, some, List, [], ◌∷◌, ◌++◌, any,
  find_by, count_by, if◌then◌else◌, leb, ◌==◌, text_eq, text,
}
use searchcar_desktop.Store.{Text}
use searchcar_desktop.Accounts.{
  Role, admin_role, user_role, AccountStatus, Account, AuthSession, AuthAttempt, Accounts, is_admin,
  is_active, is_active_admin, set_user, set_session, revoke_user_sessions,
}
use searchcar_desktop.Accounts.Requests.{
  Reply, done, logged_in, pending_approval, too_many_login_attempts, invalid_username_or_password,
  origin_not_allowed, admin_required, current_password_invalid, new_password_must_differ,
  registration_disabled, username_exists, verify_request_origin, minutes, days, sync_csrf,
}

-- what the other libraries and the settings give
pub record Env : Type 0 where
  pub secure_hash : Text → Text
  pub hash_password : Text → Text
  pub verify : Text → Text → Bool
  pub normalize_username : Text → Text
  pub strip : Text → Text
  pub allowed_origins : List Text
  pub auth_session_days : ℕ
  pub registration_enabled : Bool

abbrev pub username_taken : Text → List Account → Bool
username_taken key users = any (λ u. text_eq u.username_key key) users

abbrev pub active_admins : List Account → ℕ
active_admins users = count_by is_active_admin users

-- failed attempts since a time
abbrev pub failures : (AuthAttempt → Bool) → ℕ → List AuthAttempt → ℕ
failures test cutoff attempts =
    count_by (λ (t : AuthAttempt). test t && (not t.success && leb cutoff t.created_at)) attempts

abbrev pub of_username : Text → AuthAttempt → Bool
of_username key t = text_eq t.username_key key

abbrev pub opt_text_eq : Option Text → Option Text → Bool
opt_text_eq none none = true
opt_text_eq (some a) (some b) = text_eq a b
opt_text_eq _ _ = false

abbrev pub of_ip : Option Text → AuthAttempt → Bool
of_ip ip t = opt_text_eq t.ip_hash ip

abbrev find_key : Text → List Account → Option Account
find_key key users = find_by (λ u. text_eq u.username_key key) users

-- the row that `db.add` of a new user inserts
unfoldable pub add_user :
    Text → Text → Text → Role → AccountStatus → Option ℕ → Bool → Accounts → Accounts
add_user name key password role status limit must_change a = record a {
  users =
      a.users
      ++ record {
        id = a.next_user;
        username = name;
        username_key = key;
        password_hash = password;
        role = role;
        status = status;
        project_limit = limit;
        must_change_password = must_change;
        preferred_locale = text "ru";
        last_login_at = none;
        last_activity_at = none;
      }
        ∷ [];
  next_user = a.next_user + 1;
}

starts_with_mark : Text → Bool
starts_with_mark [] = false
starts_with_mark (c ∷ _) = c == b'!'

-- the columns of a new user that the request gives
pub record NewUser : Type 0 where
  pub username : Text
  pub password : Text
  pub role : Role
  pub status : AccountStatus
  pub project_limit : Option ℕ
  pub must_change_password : Bool

module _ (env : Env) where
  -- a hash that starts with "!" stands for no password
  unfoldable pub verify_password : Text → Text → Bool
  unfolding starts_with_mark
  verify_password password stored =
      if starts_with_mark stored
      then env.verify password (env.hash_password (text "invalid-password-sentinel"))
      else env.verify password stored

  -- the session that `create_session` and `sync_csrf_cookie` make
  unfoldable pub create_session :
      Account → ℕ → Text → Text → Option Text → Text → Accounts → Accounts
  create_session u now token csrf cookie fresh a = record a {
    sessions =
        a.sessions
        ++ sync_csrf env.secure_hash cookie fresh (record {
          id = a.next_session;
          user_id = u.id;
          token_hash = env.secure_hash token;
          csrf_hash = env.secure_hash csrf;
          expires_at = now + days env.auth_session_days;
          last_seen_at = now;
          revoked_at = none;
        })
          ∷ [];
    next_session = a.next_session + 1;
  }

  unfoldable pub add_attempt : Text → Option Text → Bool → ℕ → Accounts → Accounts
  add_attempt key ip success created a = record a {
    attempts =
        a.attempts
        ++ record { username_key = key; ip_hash = ip; success = success; created_at = created }
          ∷ [];
  }

  unfoldable pub password_valid : Text → Option Account → Bool
  unfolding verify_password
  password_valid password none = verify_password password (text "!unknown-user")
  password_valid password (some u) = verify_password password u.password_hash

  -- `tokens` are the three that the random generator gives: the session's, its CSRF token, and the
  -- one of the cookie; `created` is the time that the database gives to the attempt
  unfoldable pub log_in :
      Bool
      → Option Account
      → Text
      → Option Text
      → ℕ
      → ℕ
      → Text × Text × Text
      → Option Text
      → Accounts
      → Reply × Accounts
  unfolding add_attempt create_session
  log_in valid none key ip now created tokens cookie a =
      (invalid_username_or_password, add_attempt key ip false created a)
  log_in valid (some u) key ip now created (token, csrf, fresh) cookie a =
      if valid && is_active u.status
      then (
        logged_in,
        set_user u.id (λ x. record x { last_login_at = some now; last_activity_at = some now })
            (create_session u now token csrf cookie fresh (add_attempt key ip true created a)),
      )
      else (invalid_username_or_password, add_attempt key ip false created a)

  unfoldable pub login :
      Text
      → Text
      → Option Text
      → Option Text
      → Option Text
      → ℕ
      → ℕ
      → Text × Text × Text
      → Accounts
      → Reply × Accounts
  unfolding log_in password_valid
  login username password origin ip cookie now created tokens a =
      let key = env.normalize_username username in
      let cutoff = now - minutes 15 in
      let found = find_key key a.users in
      if not (verify_request_origin env.allowed_origins origin)
      then (origin_not_allowed, a)
      else if leb 5 (failures (of_username key) cutoff a.attempts)
          || leb 10 (failures (of_ip ip) cutoff a.attempts)
      then (too_many_login_attempts, a)
      else log_in (password_valid password found) found key ip now created tokens cookie a

  unfoldable pub logout : ℕ → Account → AuthSession → Accounts → Reply × Accounts
  logout now u s a = (done, set_session s.id (λ x. record x { revoked_at = some now }) a)

  unfoldable pub change_password :
      Text → Text → ℕ → Account → AuthSession → Accounts → Reply × Accounts
  unfolding verify_password revoke_user_sessions
  change_password current new now u s a =
      if not (verify_password current u.password_hash)
      then (current_password_invalid, a)
      else if text_eq current new
      then (new_password_must_differ, a)
      else (
        done,
        revoke_user_sessions u.id (some s.id) now (
            set_user u.id
              (λ x. record x {
                password_hash = env.hash_password new;
                must_change_password = false;
              })
              a),
      )

  unfoldable pub update_profile : Text → Account → AuthSession → Accounts → Reply × Accounts
  update_profile locale u s a =
      (done, set_user u.id (λ x. record x { preferred_locale = locale }) a)

  unfoldable pub register : Text → Text → Option Text → Accounts → Reply × Accounts
  unfolding add_user
  register username password origin a =
      let key = env.normalize_username username in
      if not (verify_request_origin env.allowed_origins origin)
      then (origin_not_allowed, a)
      else if not env.registration_enabled
      then (registration_disabled, a)
      else if username_taken key a.users
      then (pending_approval, a)
      else (
        pending_approval,
        add_user (env.strip username) key (env.hash_password password) user_role
            AccountStatus.pending_approval (some 1) false a,
      )

  unfoldable pub admin_create_user : NewUser → Account → AuthSession → Accounts → Reply × Accounts
  unfolding add_user
  admin_create_user body admin s a =
      let key = env.normalize_username body.username in
      if not (is_admin admin)
      then (admin_required, a)
      else if username_taken key a.users
      then (username_exists, a)
      else (
        done,
        add_user (env.strip body.username) key (env.hash_password body.password) body.role
            body.status (elim body.role [ admin_role ↦ none | user_role ↦ body.project_limit ])
            body.must_change_password a,
      )
