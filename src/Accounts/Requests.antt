-- ===== src/Accounts/Requests.antt =====
-- Who asks: the session that a token names, the origin and the CSRF token of a request (auth.py).
use searchcar_desktop.Base.{
  ℕ, ◌-◌, ◌*◌, Bool, true, not, ◌||◌, Option, none, some, List, any, find_by, if◌then◌else◌, ltb,
  leb, text_eq, is_blank, is_some,
}
use searchcar_desktop.Store.{Text}
use searchcar_desktop.Accounts.{
  Account, AuthSession, Accounts, is_active, find_user, set_user, set_session,
}

pub data Reply : Type 0 where
  done logged_in pending_approval : Reply
  origin_not_allowed authentication_required csrf_validation_failed admin_required : Reply
  too_many_login_attempts invalid_username_or_password : Reply
  current_password_invalid new_password_must_differ : Reply
  registration_disabled username_exists user_not_found : Reply
  cannot_restrict_self cannot_delete_self last_active_admin user_has_active_scans : Reply
  server_error : Reply

-- the cookie of the session, the CSRF header, and the origin without the slashes at its end
pub record Caller : Type 0 where
  pub token : Option Text
  pub csrf : Text
  pub origin : Option Text

unfoldable pub verify_request_origin : List Text → Option Text → Bool
verify_request_origin allowed none = true
verify_request_origin allowed (some origin) = is_blank origin || any (text_eq origin) allowed

-- times are in microseconds
abbrev pub minutes : ℕ → ℕ
minutes n = n * 60000000

abbrev pub days : ℕ → ℕ
days n = n * 86400000000

-- the cookie, if it is not empty
unfoldable pub given : Option Text → Option Text
given none = none
given (some t) = if is_blank t then none else some t

unfoldable pub user_of : AuthSession → List Account → Option (Account × AuthSession)
user_of s users = elim (find_user s.user_id users) [
  | none ↦ none
  | some u ↦ if is_active u.status then some (u, s) else none
]

unfoldable pub context_of : Option AuthSession → ℕ → List Account → Option (Account × AuthSession)
unfolding user_of
context_of none now users = none
context_of (some s) now users =
    if is_some s.revoked_at || leb s.expires_at now then none else user_of s users

module _ (secure_hash : Text → Text) where
  unfoldable pub named_context : Option Text → ℕ → Accounts → Option (Account × AuthSession)
  unfolding context_of
  named_context none now a = none
  named_context (some token) now a =
      context_of (find_by (λ s. text_eq s.token_hash (secure_hash token)) a.sessions) now a.users

  -- `get_auth_context`; none is 401
  unfoldable pub get_auth_context : Option Text → ℕ → Accounts → Option (Account × AuthSession)
  unfolding named_context given
  get_auth_context cookie now a = named_context (given cookie) now a

  -- the note of when the session and the user were last seen
  unfoldable pub touch : Account → AuthSession → ℕ → Accounts → Accounts
  touch u s now a =
      if ltb s.last_seen_at (now - minutes 5)
      then set_user u.id (λ x. record x { last_activity_at = some now })
          (set_session s.id (λ x. record x { last_seen_at = now }) a)
      else a

  -- `require_csrf` and the endpoint, in the session of the request
  unfoldable pub in_session :
      List Text
      → Caller
      → ℕ
      → (Account → AuthSession → Accounts → Reply × Accounts)
      → Option (Account × AuthSession)
      → Accounts
      → Reply × Accounts
  unfolding touch verify_request_origin
  in_session allowed caller now endpoint none a = (authentication_required, a)
  in_session allowed caller now endpoint (some (u, s)) a =
      let seen = touch u s now a in
      if not (verify_request_origin allowed caller.origin)
      then (origin_not_allowed, seen)
      else if is_blank caller.csrf || not (text_eq (secure_hash caller.csrf) s.csrf_hash)
      then (csrf_validation_failed, seen)
      else endpoint u s seen

  -- an endpoint that depends on `require_csrf`
  unfoldable pub with_csrf :
      List Text
      → Caller
      → ℕ
      → (Account → AuthSession → Accounts → Reply × Accounts)
      → Accounts
      → Reply × Accounts
  unfolding get_auth_context in_session
  with_csrf allowed caller now endpoint a =
      in_session allowed caller now endpoint (get_auth_context caller.token now a) a

  unfoldable pub sync_with : Option Text → Text → AuthSession → AuthSession
  sync_with none fresh s = record s { csrf_hash = secure_hash fresh }
  sync_with (some c) fresh s = record s {
    csrf_hash = if text_eq (secure_hash c) s.csrf_hash then s.csrf_hash else secure_hash fresh;
  }

  -- `sync_csrf_cookie`, with the token that it makes when the cookie's is not the session's
  unfoldable pub sync_csrf : Option Text → Text → AuthSession → AuthSession
  unfolding sync_with given
  sync_csrf cookie fresh s = sync_with (given cookie) fresh s
