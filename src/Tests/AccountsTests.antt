-- ===== src/Tests/AccountsTests.antt =====
-- An administrator with a session, who deletes and blocks accounts, and a token after its logout.
use searchcar_desktop.Base.{
  ℕ, ◌≡◌, ◌≤◌, ◌<◌, refl, arith, true, false, none, some, [], ◌∷◌, text, text_eq,
}
use searchcar_desktop.Store.{Text}
use searchcar_desktop.Accounts.{
  Role, admin_role, user_role, active, Account, AuthSession, Accounts, update_session,
}
use searchcar_desktop.Accounts.Requests.{
  Caller, cannot_delete_self, invalid_username_or_password, get_auth_context, verify_request_origin,
  with_csrf,
}
use searchcar_desktop.Accounts.Users.{Env, active_admins, logout, login}
use searchcar_desktop.Accounts.Admin.{AdminUserPatch, unset, sent, admin_delete_user}
use searchcar_desktop.Accounts.Steps.{
  Operation, logs_in, logs_out, deletes_user, patches_user, perform, perform_all,
}
use searchcar_desktop.Accounts.Changes.{recent}
use searchcar_desktop.Accounts.Safety.{perform_all-admin, perform_all-rejected, perform_all-limited}
use searchcar_desktop.Tests.Samples.{sample_db}

abbrev sample_env : Env
sample_env = record {
  secure_hash = λ t. b'#' ∷ t;
  hash_password = λ t. b'*' ∷ t;
  verify = λ password stored. text_eq (b'*' ∷ password) stored;
  normalize_username = λ t. t;
  strip = λ t. t;
  allowed_origins = [];
  auth_session_days = 30;
  registration_enabled = true;
}

abbrev sample_account : ℕ → Text → Role → Account
sample_account id name role = record {
  id = id;
  username = name;
  username_key = name;
  password_hash = text "*secret";
  role = role;
  status = active;
  project_limit = none;
  must_change_password = false;
  preferred_locale = text "ru";
  last_login_at = none;
  last_activity_at = none;
}

abbrev admin_session : AuthSession
admin_session = record {
  id = 1;
  user_id = 1;
  token_hash = text "#t";
  csrf_hash = text "#c";
  expires_at = 1000000;
  last_seen_at = 10;
  revoked_at = none;
}

abbrev sample_accounts : Accounts
sample_accounts = record {
  users = sample_account 1 (text "ann") admin_role ∷ sample_account 2 (text "bob") user_role ∷ [];
  sessions = admin_session ∷ [];
  attempts = [];
  next_user = 3;
  next_session = 2;
  db = sample_db;
}

abbrev admin_caller : Caller
admin_caller = record { token = some (text "t"); csrf = text "c"; origin = none }

abbrev demotion : AdminUserPatch
demotion = record {
  username = unset;
  role = sent user_role;
  status = unset;
  project_limit = unset;
  must_change_password = unset;
}

abbrev wrong_login : Operation
wrong_login = logs_in (text "ann") (text "guess") none none none 20 (text "x", text "y", text "z")

abbrev good_login : Operation
good_login = logs_in (text "ann") (text "secret") none none none 20 (text "x", text "y", text "z")

self_deletion :
    (perform sample_env 20 (deletes_user admin_caller 1) sample_accounts).0 ≡ cannot_delete_self
unfolding perform with_csrf admin_delete_user
self_deletion = refl

wrong_password :
    (perform sample_env 20 wrong_login sample_accounts).0 ≡ invalid_username_or_password
unfolding perform login verify_request_origin
wrong_password = refl

user_deleted :
    active_admins (perform sample_env 20 (deletes_user admin_caller 2) sample_accounts).1.users ≡ 1
unfolding perform with_csrf admin_delete_user
user_deleted = refl

perform_all-admin_example :
    0
    < active_admins
        (perform_all sample_env
          ((20, deletes_user admin_caller 1) ∷ (21, patches_user admin_caller 1 demotion) ∷ [])
          sample_accounts).users
perform_all-admin_example =
    perform_all-admin sample_env
      ((20, deletes_user admin_caller 1) ∷ (21, patches_user admin_caller 1 demotion) ∷ [])
      sample_accounts (omega arith)

abbrev logged_out : Accounts
logged_out = (perform sample_env 20 (logs_out admin_caller) sample_accounts).1

perform_all-rejected_example :
    get_auth_context sample_env.secure_hash
      (some (text "t"))
      30
      (perform_all sample_env ((25, good_login) ∷ []) logged_out)
    ≡ none
unfolding perform with_csrf logout update_session
perform_all-rejected_example =
    perform_all-rejected sample_env (text "t") 30 ((25, good_login) ∷ []) logged_out refl refl

perform_all-limited_example :
    recent (text "ann") 22 (
      perform_all sample_env
        ((20, wrong_login) ∷ (21, wrong_login) ∷ (22, good_login) ∷ [])
        sample_accounts)
    ≤ 5
perform_all-limited_example =
    perform_all-limited sample_env (text "ann") 20
      ((20, wrong_login) ∷ (21, wrong_login) ∷ (22, good_login) ∷ []) sample_accounts
      (omega arith, (omega arith, (omega arith, tt))) (omega arith)
