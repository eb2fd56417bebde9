-- ===== src/Accounts/Steps.antt =====
-- The operations on accounts, one after the other, and what each may change.
use searchcar_desktop.Base.{ℕ, Bool, Option, List, [], ◌∷◌}
use searchcar_desktop.Store.{Text}
use searchcar_desktop.Accounts.{Account, AuthSession, Accounts}
use searchcar_desktop.Accounts.Requests.{Reply, Caller, with_csrf}
use searchcar_desktop.Accounts.Users.{
  Env, NewUser, login, logout, change_password, update_profile, register, admin_create_user,
}
use searchcar_desktop.Accounts.Admin.{
  AdminUserPatch, admin_patch_user, admin_reset_password, admin_delete_user,
}

pub data Operation : Type 0 where
  logs_in :
      Text → Text → Option Text → Option Text → Option Text → ℕ → Text × Text × Text → Operation
  registers : Text → Text → Option Text → Operation
  logs_out : Caller → Operation
  changes_password : Caller → Text → Text → Operation
  updates_profile : Caller → Text → Operation
  creates_user : Caller → NewUser → Operation
  patches_user : Caller → ℕ → AdminUserPatch → Operation
  deletes_user : Caller → ℕ → Operation
  resets_password : Caller → ℕ → Text → Bool → Operation

module _ (env : Env) where
  as_user :
      Caller
      → ℕ
      → (Account → AuthSession → Accounts → Reply × Accounts)
      → Accounts
      → Reply × Accounts
  as_user caller now endpoint a =
      with_csrf env.secure_hash env.allowed_origins caller now endpoint a

  unfoldable pub perform : ℕ → Operation → Accounts → Reply × Accounts
  unfolding as_user
  perform now (logs_in username password origin ip cookie created tokens) a =
      login env username password origin ip cookie now created tokens a
  perform now (registers username password origin) a = register env username password origin a
  perform now (logs_out caller) a = as_user caller now (logout env now) a
  perform now (changes_password caller current new) a =
      as_user caller now (change_password env current new now) a
  perform now (updates_profile caller locale) a = as_user caller now (update_profile env locale) a
  perform now (creates_user caller body) a = as_user caller now (admin_create_user env body) a
  perform now (patches_user caller id patch) a =
      as_user caller now (admin_patch_user env id patch now) a
  perform now (deletes_user caller id) a = as_user caller now (admin_delete_user id now) a
  perform now (resets_password caller id password must_change) a =
      as_user caller now (admin_reset_password env id password must_change now) a

  unfoldable pub perform_all : List (ℕ × Operation) → Accounts → Accounts
  unfolding perform
  perform_all [] a = a
  perform_all ((now, o) ∷ rest) a = perform_all rest (perform now o a).1
