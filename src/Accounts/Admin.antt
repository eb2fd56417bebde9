-- ===== src/Accounts/Admin.antt =====
-- What an administrator may do with the account of a user (main.py).
use searchcar_desktop.Base.{
  ℕ, Bool, true, false, not, ◌&&◌, ◌||◌, Option, none, some, List, map, any, select, if◌then◌else◌,
  leb, ◌==◌, text_eq,
}
use searchcar_desktop.Store.{
  Text, ScanRun, Project, SchedulerSetting, RunStatus, is_queued, is_unfinished,
}
use searchcar_desktop.Accounts.{
  Role, admin_role, user_role, AccountStatus, Account, AuthSession, Accounts, is_admin, is_active,
  is_active_admin, find_user, remove_user, set_user, revoke_user_sessions,
}
use searchcar_desktop.Accounts.Requests.{
  Reply, done, admin_required, username_exists, user_not_found, cannot_restrict_self,
  cannot_delete_self, last_active_admin, user_has_active_scans, server_error,
}
use searchcar_desktop.Accounts.Users.{Env, active_admins}

-- a field of a PATCH body: not sent, sent as null, or sent
pub data Sent (A : Type 0) : Type 0 where
  unset null : Sent A
  sent : A → Sent A

pub record AdminUserPatch : Type 0 where
  pub username : Sent Text
  pub role : Sent Role
  pub status : Sent AccountStatus
  pub project_limit : Sent ℕ
  pub must_change_password : Sent Bool

-- whether the value after the patch is the wanted one; a null is not
abbrev pub still : {A : Type 0} → (A → Bool) → A → Sent A → Bool
still wanted old unset = wanted old
still wanted old null = false
still wanted old (sent new) = wanted new

abbrev pub is_admin_role : Role → Bool
is_admin_role admin_role = true
is_admin_role user_role = false

unfoldable pub restricts : Account → AdminUserPatch → Bool
restricts u p = not (still is_active u.status p.status) || not (still is_admin_role u.role p.role)

-- `ensure_not_last_admin`: whether it raises
unfoldable pub is_last_admin : List Account → Account → AdminUserPatch → Bool
unfolding restricts
is_last_admin users u p = is_admin u && restricts u p && leb (active_admins users) 1

-- a column that may not be null, after the patch
abbrev pub required : {A : Type 0} → A → Sent A → Option A
required old unset = some old
required old null = none
required old (sent new) = some new

abbrev limit_of : Option ℕ → Sent ℕ → Option ℕ
limit_of old unset = old
limit_of old null = none
limit_of old (sent n) = some n

abbrev pub limit_for : Role → Option ℕ → Option ℕ
limit_for admin_role limit = none
limit_for user_role limit = limit

-- none for a null that the commit refuses
unfoldable pub with_columns :
    Account → Option ℕ → Option Role → Option AccountStatus → Option Bool → Option Account
with_columns u limit (some role) (some status) (some must_change) = some (record u {
  role = role;
  status = status;
  project_limit = limit_for role limit;
  must_change_password = must_change;
})
with_columns u limit _ _ _ = none

-- `setattr` for each column, with the limit of an administrator
unfoldable pub patched : Account → AdminUserPatch → Option Account
unfolding with_columns
patched u p =
    with_columns u (limit_of u.project_limit p.project_limit) (required u.role p.role)
      (required u.status p.status) (required u.must_change_password p.must_change_password)

-- the scans of a user who is not active any more
unfoldable pub stop_run : ℕ → ℕ → ScanRun → ScanRun
stop_run user now r =
    if r.owner_id == user && is_unfinished r.status
    then (if is_queued r.status
        then record r { status = RunStatus.cancelled; finished_at = some now }
        else record r { status = RunStatus.cancel_requested })
    else r

unfoldable pub stop_user : ℕ → ℕ → Accounts → Accounts
unfolding stop_run revoke_user_sessions
stop_user user now a =
    let b = revoke_user_sessions user none now a in
    record b { db = record b.db { scan_runs = map (stop_run user now) b.db.scan_runs } }

unfoldable pub store_patch : Option Account → ℕ → Accounts → Reply × Accounts
unfolding stop_user
store_patch none now a = (server_error, a)
store_patch (some u) now a =
    let saved = set_user u.id (λ _. u) a in
    (done, if is_active u.status then saved else stop_user u.id now saved)

module _ (env : Env) where
  unfoldable pub rename : Account → Sent Text → List Account → Option (Option Account)
  rename u unset users = some (some u)
  rename u null users = none
  rename u (sent name) users =
      let key = env.normalize_username name in
      if any (λ (x : Account). text_eq x.username_key key && not (x.id == u.id)) users
      then some none
      else some (some (record u { username = env.strip name; username_key = key }))

  -- the rename fails, is refused, or gives the row for the rest of the patch
  unfoldable pub patch_renamed :
      Option (Option Account) → AdminUserPatch → ℕ → Accounts → Reply × Accounts
  unfolding store_patch patched
  patch_renamed none p now a = (server_error, a)
  patch_renamed (some none) p now a = (username_exists, a)
  patch_renamed (some (some u)) p now a = store_patch (patched u p) now a

  unfoldable pub patch_found :
      Option Account → AdminUserPatch → ℕ → Account → Accounts → Reply × Accounts
  unfolding patch_renamed rename is_last_admin restricts
  patch_found none p now admin a = (user_not_found, a)
  patch_found (some u) p now admin a =
      if u.id == admin.id && restricts u p
      then (cannot_restrict_self, a)
      else if is_last_admin a.users u p
      then (last_active_admin, a)
      else patch_renamed (rename u p.username a.users) p now a

  unfoldable pub admin_patch_user :
      ℕ → AdminUserPatch → ℕ → Account → AuthSession → Accounts → Reply × Accounts
  unfolding patch_found
  admin_patch_user id p now admin s a =
      if not (is_admin admin)
      then (admin_required, a)
      else patch_found (find_user id a.users) p now admin a

  unfoldable pub reset_found : Option Account → Text → Bool → ℕ → Accounts → Reply × Accounts
  unfolding revoke_user_sessions
  reset_found none password must_change now a = (user_not_found, a)
  reset_found (some u) password must_change now a = (
    done,
    revoke_user_sessions u.id none now (
        set_user u.id
          (λ x. record x {
            password_hash = env.hash_password password;
            must_change_password = must_change;
          })
          a),
  )

  unfoldable pub admin_reset_password :
      ℕ → Text → Bool → ℕ → Account → AuthSession → Accounts → Reply × Accounts
  unfolding reset_found
  admin_reset_password id password must_change now admin s a =
      if not (is_admin admin)
      then (admin_required, a)
      else reset_found (find_user id a.users) password must_change now a

-- `delete_user_account_data`, with the rows of auth_sessions that the database deletes with the user;
-- the rows that it deletes with a scan or a project are left out
unfoldable pub delete_user_account_data : Account → Accounts → Accounts
delete_user_account_data u a = record a {
  users = remove_user u.id a.users;
  sessions = select (λ (s : AuthSession). not (s.user_id == u.id)) a.sessions;
  db = record (a.db) {
    settings = select (λ (x : SchedulerSetting). not (x.user_id == u.id)) a.db.settings;
    scan_runs = select (λ (r : ScanRun). not (r.owner_id == u.id)) a.db.scan_runs;
    projects = select (λ (p : Project). not (p.owner_id == u.id)) a.db.projects;
  };
}

unfoldable pub delete_found : Option Account → ℕ → Account → Accounts → Reply × Accounts
unfolding delete_user_account_data revoke_user_sessions
delete_found none now admin a = (user_not_found, a)
delete_found (some u) now admin a =
    if u.id == admin.id
    then (cannot_delete_self, a)
    else if is_active_admin u && leb (active_admins a.users) 1
    then (last_active_admin, a)
    else if any (λ (r : ScanRun). r.owner_id == u.id && is_unfinished r.status) a.db.scan_runs
    then (user_has_active_scans, a)
    else (done, delete_user_account_data u (revoke_user_sessions u.id none now a))

unfoldable pub admin_delete_user : ℕ → ℕ → Account → AuthSession → Accounts → Reply × Accounts
unfolding delete_found
admin_delete_user id now admin s a =
    if not (is_admin admin)
    then (admin_required, a)
    else delete_found (find_user id a.users) now admin a
