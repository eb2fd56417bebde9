-- ===== src/Accounts/Effects.antt =====
-- Each operation makes such changes as `Change` allows.
use searchcar_desktop.Base.{
  ℕ, ◌-◌, ◌≤◌, ◌≡◌, inl, inr, refl, arith, Bool, true, false, not, ◌||◌, Option, none, some,
  if◌then◌else◌, ltb, ◌==◌, text_eq, is_blank, Bool-cases,
}
use searchcar_desktop.Store.{Text}
use searchcar_desktop.Accounts.{
  Role, AccountStatus, Account, AuthSession, Accounts, is_admin, find_user, update_session,
  set_user, set_session, revoke_row, revoke_user_sessions,
}
use searchcar_desktop.Accounts.Requests.{
  Reply, Caller, minutes, get_auth_context, touch, in_session, with_csrf, verify_request_origin,
}
use searchcar_desktop.Accounts.Users.{
  Env, NewUser, verify_password, add_user, logout, change_password, update_profile, register,
  admin_create_user, username_taken,
}
use searchcar_desktop.Accounts.Admin.{reset_found, admin_reset_password}
use searchcar_desktop.Accounts.Changes.{
  Change, stays, rewrites, adds, updates, both, admin_weight, dead,
}

module _ (now : ℕ) (h : Text) where
  pub set_user-Change :
      (id : ℕ) (f : Account → Account) (a : Accounts)
      → ((x : Account) → admin_weight x ≤ admin_weight (f x))
      → Change now h a (set_user id f a)
  set_user-Change id f a w = rewrites id f (λ x e. inl (w x))

  pub set_session-Change :
      (id : ℕ) (f : AuthSession → AuthSession) (a : Accounts)
      → ((k : Text) (s : AuthSession) → dead k s ≡ true → dead k (f s) ≡ true)
      → Change now h a (set_session id f a)
  unfolding update_session
  set_session-Change id f a d =
      updates (update_session id f)
        (λ k s e. elim (Bool-cases (s.id == id)) [ inl q ↦ rw q (d k s e) | inr q ↦ rw q e ])

  pub revoke-Change :
      (id : ℕ) (except : Option ℕ) (at : ℕ) (a : Accounts)
      → Change now h a (revoke_user_sessions id except at a)
  unfolding revoke_user_sessions
  revoke-Change id except at a = updates (revoke_row id except at) (λ k s e. ground (arith, e))

  pub touch-Change :
      (env : Env) (u : Account) (s : AuthSession) (at : ℕ) (a : Accounts)
      → Change now h a (touch env.secure_hash u s at a)
  unfolding touch
  touch-Change env u s at a = elim (Bool-cases (ltb s.last_seen_at (at - minutes 5))) [
    | inl q ↦ rw q (
        both (set_session-Change s.id (λ x. record x { last_seen_at = at }) a (λ k x e. e)) (
          set_user-Change u.id (λ x. record x { last_activity_at = some at }) _ (λ x. omega arith)))
    | inr q ↦ rw q stays
  ]

  -- an outcome: the tables after it
  pub data Allowed (a : Accounts) (r : Reply × Accounts) : Type 0 where
    allowed : Change now h a r.1 → Allowed a r

  pub change_of : {a : Accounts} {r : Reply × Accounts} → Allowed a r → Change now h a r.1
  change_of (allowed c) = c

  -- a test between two outcomes
  pub branch :
      {a : Accounts} (b : Bool) {x y : Reply × Accounts}
      → (b ≡ true → Allowed a x)
      → (b ≡ false → Allowed a y)
      → Allowed a (if b then x else y)
  branch true t f = t refl
  branch false t f = f refl

  in_session-Change :
      (env : Env) (caller : Caller) (at : ℕ)
      (endpoint : Account → AuthSession → Accounts → Reply × Accounts) (a : Accounts)
      → ((u : Account) (s : AuthSession) (b : Accounts) → Allowed b (endpoint u s b))
      → (found : Option (Account × AuthSession))
      → Allowed a (in_session env.secure_hash env.allowed_origins caller at endpoint found a)
  unfolding in_session
  in_session-Change env caller at endpoint a c none = allowed stays
  in_session-Change env caller at endpoint a c (some (u, s)) =
      let seen = touch env.secure_hash u s at a in
      let t : Change now h a seen = touch-Change env u s at a in
      branch (not (verify_request_origin env.allowed_origins caller.origin)) (λ _. allowed t)
        (λ _.
          branch (is_blank caller.csrf || not (text_eq (env.secure_hash caller.csrf) s.csrf_hash))
            (λ _. allowed t) (λ _. allowed (both t (change_of (c u s seen)))))

  pub with_csrf-Change :
      (env : Env) (caller : Caller) (at : ℕ)
      (endpoint : Account → AuthSession → Accounts → Reply × Accounts) (a : Accounts)
      → ((u : Account) (s : AuthSession) (b : Accounts) → Allowed b (endpoint u s b))
      → Allowed a (with_csrf env.secure_hash env.allowed_origins caller at endpoint a)
  unfolding with_csrf
  with_csrf-Change env caller at endpoint a c =
      in_session-Change env caller at endpoint a c
        (get_auth_context env.secure_hash caller.token at a)

  pub logout-Change :
      (env : Env) (at : ℕ) (u : Account) (s : AuthSession) (a : Accounts)
      → Allowed a (logout env at u s a)
  unfolding logout
  logout-Change env at u s a = allowed (
      set_session-Change s.id (λ x. record x { revoked_at = some at }) a
        (λ k x e. ground (arith, e)))

  pub change_password-Change :
      (env : Env) (current new : Text) (at : ℕ) (u : Account) (s : AuthSession) (a : Accounts)
      → Allowed a (change_password env current new at u s a)
  unfolding change_password
  change_password-Change env current new at u s a =
      branch (not (verify_password env current u.password_hash)) (λ _. allowed stays)
        (λ _.
          branch (text_eq current new) (λ _. allowed stays)
            (λ _. allowed (
              both
                (set_user-Change u.id
                  (λ x. record x {
                    password_hash = env.hash_password new;
                    must_change_password = false;
                  })
                  a (λ x. omega arith))
                (revoke-Change u.id (some s.id) at _))))

  pub update_profile-Change :
      (env : Env) (locale : Text) (u : Account) (s : AuthSession) (a : Accounts)
      → Allowed a (update_profile env locale u s a)
  unfolding update_profile
  update_profile-Change env locale u s a =
      allowed
        (set_user-Change u.id (λ x. record x { preferred_locale = locale }) a (λ x. omega arith))

  add_user-Change :
      (name key password : Text) (role : Role) (status : AccountStatus) (limit : Option ℕ)
      (must : Bool) (a : Accounts)
      → Change now h a (add_user name key password role status limit must a)
  unfolding add_user
  add_user-Change name key password role status limit must a = adds _ _

  pub register-Change :
      (env : Env) (username password : Text) (origin : Option Text) (a : Accounts)
      → Allowed a (register env username password origin a)
  unfolding register
  register-Change env username password origin a =
      branch (not (verify_request_origin env.allowed_origins origin)) (λ _. allowed stays)
        (λ _.
          branch (not env.registration_enabled) (λ _. allowed stays)
            (λ _.
              branch (username_taken (env.normalize_username username) a.users) (λ _. allowed stays)
                (λ _. allowed (add_user-Change _ _ _ _ _ _ _ a))))

  pub admin_create_user-Change :
      (env : Env) (body : NewUser) (u : Account) (s : AuthSession) (a : Accounts)
      → Allowed a (admin_create_user env body u s a)
  unfolding admin_create_user
  admin_create_user-Change env body u s a =
      branch (not (is_admin u)) (λ _. allowed stays)
        (λ _.
          branch (username_taken (env.normalize_username body.username) a.users)
            (λ _. allowed stays) (λ _. allowed (add_user-Change _ _ _ _ _ _ _ a)))

  reset_found-Change :
      (env : Env) (found : Option Account) (password : Text) (must : Bool) (at : ℕ) (a : Accounts)
      → Allowed a (reset_found env found password must at a)
  unfolding reset_found
  reset_found-Change env none password must at a = allowed stays
  reset_found-Change env (some u) password must at a = allowed (
      both
        (set_user-Change u.id
          (λ x. record x {
            password_hash = env.hash_password password;
            must_change_password = must;
          })
          a (λ x. omega arith))
        (revoke-Change u.id none at _))

  pub admin_reset_password-Change :
      (env : Env) (id : ℕ) (password : Text) (must : Bool) (at : ℕ) (u : Account) (s : AuthSession)
      (a : Accounts)
      → Allowed a (admin_reset_password env id password must at u s a)
  unfolding admin_reset_password
  admin_reset_password-Change env id password must at u s a =
      branch (not (is_admin u)) (λ _. allowed stays)
        (λ _. reset_found-Change env (find_user id a.users) password must at a)
