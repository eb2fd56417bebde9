-- ===== src/Accounts/Entries.antt =====
-- What a login may change, and with it every operation.
use searchcar_desktop.Base.{
  ℕ, ◌-◌, ◌<◌, ◌≡◌, refl, arith, Bool, not, ◌&&◌, ◌||◌, Option, none, some, leb,
}
use searchcar_desktop.Store.{Text}
use searchcar_desktop.Accounts.{Account, AuthSession, Accounts, is_active}
use searchcar_desktop.Accounts.Requests.{
  minutes, sync_csrf, sync_with, given, verify_request_origin,
}
use searchcar_desktop.Accounts.Users.{
  Env, failures, of_username, of_ip, add_attempt, create_session, log_in, login, logout,
  change_password, update_profile, admin_create_user,
}
use searchcar_desktop.Accounts.Admin.{admin_patch_user, admin_reset_password, admin_delete_user}
use searchcar_desktop.Accounts.Steps.{
  Operation, logs_in, registers, logs_out, changes_password, updates_profile, creates_user,
  patches_user, deletes_user, resets_password, perform,
}
use searchcar_desktop.Accounts.Changes.{Change, stays, opens, attempts, both}
use searchcar_desktop.Accounts.Effects.{
  Allowed, allowed, change_of, branch, set_user-Change, with_csrf-Change, logout-Change,
  change_password-Change, update_profile-Change, register-Change, admin_create_user-Change,
  admin_reset_password-Change,
}
use searchcar_desktop.Accounts.Admins.{admin_patch_user-Change, admin_delete_user-Change}

-- the CSRF token is not the session's own
sync_with-token :
    (secure_hash : Text → Text) (cookie : Option Text) (fresh : Text) (s : AuthSession)
    → (sync_with secure_hash cookie fresh s).token_hash ≡ s.token_hash
unfolding sync_with
sync_with-token secure_hash none fresh s = refl
sync_with-token secure_hash (some c) fresh s = refl

sync_csrf-token :
    (secure_hash : Text → Text) (cookie : Option Text) (fresh : Text) (s : AuthSession)
    → (sync_csrf secure_hash cookie fresh s).token_hash ≡ s.token_hash
unfolding sync_csrf
sync_csrf-token secure_hash cookie fresh s = sync_with-token secure_hash (given cookie) fresh s

module _ (env : Env) (now : ℕ) where
  log_in-Change :
      (valid : Bool) (found : Option Account) (key : Text) (ip : Option Text) (created : ℕ)
      (tokens : Text × Text × Text) (cookie : Option Text) (a : Accounts)
      → failures (of_username key) (now - minutes 15) a.attempts < 5
      → Allowed now
          (env.secure_hash tokens.0)
          a
          (log_in env valid found key ip now created tokens cookie a)
  unfolding log_in add_attempt create_session
  log_in-Change valid none key ip created tokens cookie a l = allowed (attempts _ l)
  log_in-Change valid (some u) key ip created (token, csrf, fresh) cookie a l =
      branch now (env.secure_hash token) (valid && is_active u.status)
        (λ _. allowed (
          both (attempts _ l) (
            both (opens _ _ (sync_csrf-token env.secure_hash cookie fresh _)) (
              set_user-Change now (env.secure_hash token) u.id
                (λ x. record x { last_login_at = some now; last_activity_at = some now }) _
                (λ x. omega arith)))))
        (λ _. allowed (attempts _ l))

  login-Change :
      (username password : Text) (origin ip cookie : Option Text) (created : ℕ)
      (tokens : Text × Text × Text) (a : Accounts)
      → Allowed now
          (env.secure_hash tokens.0)
          a
          (login env username password origin ip cookie now created tokens a)
  unfolding login
  login-Change username password origin ip cookie created tokens a =
      let key = env.normalize_username username in
      let h = env.secure_hash tokens.0 in
      branch now h (not (verify_request_origin env.allowed_origins origin)) (λ _. allowed stays)
        (λ _.
          branch now h
            (leb 5 (failures (of_username key) (now - minutes 15) a.attempts)
              || leb 10 (failures (of_ip ip) (now - minutes 15) a.attempts))
            (λ _. allowed stays)
            (λ few. log_in-Change _ _ key ip created tokens cookie a (ground (arith, few))))

  -- the hash of the token that an operation gives out, if it succeeds
  abbrev pub issues : Operation → Text → Text
  issues (logs_in _ _ _ _ _ _ tokens) other = env.secure_hash tokens.0
  issues _ other = other

  pub perform-Change :
      (o : Operation) (other : Text) (a : Accounts)
      → Change now (issues o other) a (perform env now o a).1
  unfolding perform
  perform-Change (logs_in username password origin ip cookie created tokens) other a =
      change_of now _ (login-Change username password origin ip cookie created tokens a)
  perform-Change (registers username password origin) other a =
      change_of now other (register-Change now other env username password origin a)
  perform-Change (logs_out caller) other a = change_of now other (
      with_csrf-Change now other env caller now (logout env now) a
        (logout-Change now other env now))
  perform-Change (changes_password caller current new) other a = change_of now other (
      with_csrf-Change now other env caller now (change_password env current new now) a
        (change_password-Change now other env current new now))
  perform-Change (updates_profile caller locale) other a = change_of now other (
      with_csrf-Change now other env caller now (update_profile env locale) a
        (update_profile-Change now other env locale))
  perform-Change (creates_user caller body) other a = change_of now other (
      with_csrf-Change now other env caller now (admin_create_user env body) a
        (admin_create_user-Change now other env body))
  perform-Change (patches_user caller id patch) other a = change_of now other (
      with_csrf-Change now other env caller now (admin_patch_user env id patch now) a
        (admin_patch_user-Change now other env id patch now))
  perform-Change (deletes_user caller id) other a = change_of now other (
      with_csrf-Change now other env caller now (admin_delete_user id now) a
        (admin_delete_user-Change now other id now))
  perform-Change (resets_password caller id password must) other a = change_of now other (
      with_csrf-Change now other env caller now (admin_reset_password env id password must now) a
        (admin_reset_password-Change now other env id password must now))
