-- ===== src/Accounts/Admins.antt =====
-- What a patch or a deletion by an administrator may change: never the last active administrator.
use mathlib.Core.Path.{subst}
use searchcar_desktop.Base.{
  ℕ, ◌≤◌, ◌≡◌, ◌⊎◌, inl, inr, refl, sym, ap, ◌∙◌, arith, Bool, true, false, not, ◌&&◌, Option, none,
  some, List, [], ◌∷◌, any, if◌then◌else◌, leb, ◌==◌, ==→eq, text_eq, Bool-cases,
}
use searchcar_desktop.Store.{Text, ScanRun, is_unfinished}
use searchcar_desktop.Accounts.{
  Role, AccountStatus, Account, AuthSession, Accounts, is_admin, is_active, is_active_admin,
  find_user, set_user, revoke_user_sessions,
}
use searchcar_desktop.Accounts.Users.{Env, active_admins}
use searchcar_desktop.Accounts.Admin.{
  AdminUserPatch, Sent, unset, null, sent, still, required, is_admin_role, restricts, is_last_admin,
  limit_for, with_columns, patched, stop_user, store_patch, rename, patch_renamed, patch_found,
  admin_patch_user, delete_user_account_data, delete_found, admin_delete_user,
}
use searchcar_desktop.Accounts.Changes.{
  Change, stays, rewrites, removes, ends, scans, both, admin_weight,
}
use searchcar_desktop.Accounts.Effects.{Allowed, allowed, branch, revoke-Change}

find_user-id : (id : ℕ) (xs : List Account) {u : Account} → find_user id xs ≡ some u → u.id ≡ id
find_user-id id [] e = cc
find_user-id id (x ∷ xs) e = elim (Bool-cases (x.id == id)) [
  | inl k ↦ cc (==→eq x.id id k, rw k at e)
  | inr k ↦ find_user-id id xs (rw k at e)
]

still-required :
    {A : Type 0} (wanted : A → Bool) (old : A) (s : Sent A) {x : A}
    → still wanted old s ≡ true
    → required old s ≡ some x
    → wanted x ≡ true
still-required wanted old unset h e = cc
still-required wanted old null h e = cc
still-required wanted old (sent new) h e = cc

-- what a patch that is stored makes of the row
record Stored (u : Account) (p : AdminUserPatch) (v : Account) : Type 0 where
  id : v.id ≡ u.id
  role : required u.role p.role ≡ some v.role
  status : required u.status p.status ≡ some v.status

with_columns-kept :
    (u : Account) (limit : Option ℕ) (r : Option Role) (st : Option AccountStatus) (m : Option Bool)
    {v : Account}
    → with_columns u limit r st m ≡ some v
    → (v.id ≡ u.id) × (r ≡ some v.role) × (st ≡ some v.status)
unfolding with_columns
with_columns-kept u limit (some role) (some status) (some must) {v} e = (
  ap (λ (w : Account). w.id) (sym same),
  ap (λ (w : Account). some w.role) same,
  ap (λ (w : Account). some w.status) same,
)
  where
    same :
        record u {
          role = role;
          status = status;
          project_limit = limit_for role limit;
          must_change_password = must;
        }
        ≡ v
    same = cc
with_columns-kept u limit none st m e = cc
with_columns-kept u limit (some role) none m e = cc
with_columns-kept u limit (some role) (some status) none e = cc

patched-Stored :
    (u : Account) (p : AdminUserPatch) {v : Account} → patched u p ≡ some v → Stored u p v
unfolding patched
patched-Stored u p e =
    let (i, r, s) = with_columns-kept u _ _ _ _ e in record { id = i; role = r; status = s }

Stored-admin :
    (u : Account) (p : AdminUserPatch) (v : Account)
    → Stored u p v
    → restricts u p ≡ false
    → is_active_admin v ≡ true
unfolding restricts
Stored-admin u p v t r = ground (arith, role, status)
  where
    kept : (still is_active u.status p.status ≡ true) × (still is_admin_role u.role p.role ≡ true)
    kept = ground (arith, r)

    status : is_active v.status ≡ true
    status = still-required is_active u.status p.status kept.0 t.status

    role : is_admin_role v.role ≡ true
    role = still-required is_admin_role u.role p.role kept.1 t.role

-- the row that was found is the one that a change of that key finds again
found_again :
    (id : ℕ) (xs : List Account) {u x : Account}
    → find_user id xs ≡ some u
    → find_user u.id xs ≡ some x
    → x ≡ u
found_again id xs {u} {x} e f =
    let again : find_user u.id xs ≡ some u =
      subst (λ (k : ℕ). find_user k xs ≡ some u) (sym (find_user-id id xs e)) e in
    cc

module _ (now : ℕ) (h : Text) where
  -- an administrator who is restricted is not the last one
  not_last :
      (us : List Account) (u x v : Account) (p : AdminUserPatch)
      → is_last_admin us u p ≡ false
      → restricts u p ≡ true
      → admin_weight x ≡ admin_weight u
      → (admin_weight x ≤ admin_weight v) ⊎ (2 ≤ active_admins us)
  unfolding is_last_admin
  not_last us u x v p l r w = elim (Bool-cases (is_admin u)) [
    | inl i ↦ inr (ground (arith, last i))
    | inr i ↦ inl (ground (arith, w, i))
  ]
    where
      last : is_admin u ≡ true → leb (active_admins us) 1 ≡ false
      last i = cc (l, r, i)

  store-Change :
      (id : ℕ) (u v : Account) (p : AdminUserPatch) (at : ℕ) (a : Accounts)
      → find_user id a.users ≡ some u
      → is_last_admin a.users u p ≡ false
      → Stored u p v
      → Allowed now h a (store_patch (some v) at a)
  unfolding store_patch stop_user is_last_admin
  store-Change id u v p at a e l t = allowed (after (is_active v.status))
    where
      saved : Change now h a (set_user v.id (λ _. v) a)
      saved = rewrites v.id (λ _. v) (λ x f. kept x (found_again id a.users e (rw t.id at f)))
        where
          kept :
              (x : Account)
              → x ≡ u
              → (admin_weight x ≤ admin_weight v) ⊎ (2 ≤ active_admins a.users)
          kept x q = elim (Bool-cases (restricts u p)) [
            | inl r ↦ not_last a.users u x v p l r (ap admin_weight q)
            | inr r ↦ inl (ground (arith, Stored-admin u p v t r))
          ]

      after :
          (b : Bool)
          → Change now h a
              (if b then set_user v.id (λ _. v) a else stop_user v.id at (set_user v.id (λ _. v) a))
      after true = saved
      after false = both saved (both (revoke-Change now h v.id none at _) (scans _))

  store_patch-Change :
      (id : ℕ) (u w : Account) (p : AdminUserPatch) (at : ℕ) (a : Accounts) (o : Option Account)
      → patched w p ≡ o
      → find_user id a.users ≡ some u
      → is_last_admin a.users u p ≡ false
      → (w.id ≡ u.id) × (w.role ≡ u.role) × (w.status ≡ u.status)
      → Allowed now h a (store_patch o at a)
  unfolding store_patch
  store_patch-Change id u w p at a none q e l s = allowed stays
  store_patch-Change id u w p at a (some v) q e l (i, r, s) =
      let t = patched-Stored w p q in
      store-Change id u v p at a e l (record {
        id = t.id ∙ i;
        role = ap (λ x. required x p.role) (sym r) ∙ t.role;
        status = ap (λ x. required x p.status) (sym s) ∙ t.status;
      })

  patch_renamed-Change :
      (env : Env) (id : ℕ) (u : Account) (name : Sent Text) (p : AdminUserPatch) (at : ℕ)
      (a : Accounts)
      → find_user id a.users ≡ some u
      → is_last_admin a.users u p ≡ false
      → Allowed now h a (patch_renamed env (rename env u name a.users) p at a)
  unfolding patch_renamed rename
  patch_renamed-Change env id u unset p at a e l =
      store_patch-Change id u u p at a (patched u p) refl e l (refl, refl, refl)
  patch_renamed-Change env id u null p at a e l = allowed stays
  patch_renamed-Change env id u (sent name) p at a e l = after (
      any
        (λ (x : Account).
          text_eq x.username_key (env.normalize_username name) && not (x.id == u.id))
        a.users)
    where
      w : Account
      w = record u { username = env.strip name; username_key = env.normalize_username name }

      after :
          (b : Bool)
          → Allowed now h a (patch_renamed env (if b then some none else some (some w)) p at a)
      after true = allowed stays
      after false = store_patch-Change id u w p at a (patched w p) refl e l (refl, refl, refl)

  patch_found-Change :
      (env : Env) (id : ℕ) (found : Option Account) (p : AdminUserPatch) (at : ℕ) (admin : Account)
      (a : Accounts)
      → find_user id a.users ≡ found
      → Allowed now h a (patch_found env found p at admin a)
  unfolding patch_found
  patch_found-Change env id none p at admin a e = allowed stays
  patch_found-Change env id (some u) p at admin a e =
      branch now h (u.id == admin.id && restricts u p) (λ _. allowed stays)
        (λ _.
          branch now h (is_last_admin a.users u p) (λ _. allowed stays)
            (λ l. patch_renamed-Change env id u p.username p at a e l))

  pub admin_patch_user-Change :
      (env : Env) (id : ℕ) (p : AdminUserPatch) (at : ℕ) (admin : Account) (s : AuthSession)
      (a : Accounts)
      → Allowed now h a (admin_patch_user env id p at admin s a)
  unfolding admin_patch_user
  admin_patch_user-Change env id p at admin s a =
      branch now h (not (is_admin admin)) (λ _. allowed stays)
        (λ _. patch_found-Change env id (find_user id a.users) p at admin a refl)

  delete-Change :
      (id : ℕ) (u : Account) (at : ℕ) (a : Accounts)
      → find_user id a.users ≡ some u
      → (is_active_admin u && leb (active_admins a.users) 1) ≡ false
      → Change now h a (delete_user_account_data u (revoke_user_sessions u.id none at a))
  unfolding delete_user_account_data revoke_user_sessions
  delete-Change id u at a e l = both (revoke-Change now h u.id none at a) (
      both
        (removes u.id u
          (subst (λ (k : ℕ). find_user k a.users ≡ some u) (sym (find_user-id id a.users e)) e)
          (ground (arith, l)))
        (both (ends _) (scans _)))

  delete_found-Change :
      (id : ℕ) (found : Option Account) (at : ℕ) (admin : Account) (a : Accounts)
      → find_user id a.users ≡ found
      → Allowed now h a (delete_found found at admin a)
  unfolding delete_found
  delete_found-Change id none at admin a e = allowed stays
  delete_found-Change id (some u) at admin a e =
      branch now h (u.id == admin.id) (λ _. allowed stays)
        (λ _.
          branch now h (is_active_admin u && leb (active_admins a.users) 1) (λ _. allowed stays)
            (λ l.
              branch now h
                (any (λ (r : ScanRun). r.owner_id == u.id && is_unfinished r.status) a.db.scan_runs)
                (λ _. allowed stays) (λ _. allowed (delete-Change id u at a e l))))

  pub admin_delete_user-Change :
      (id at : ℕ) (admin : Account) (s : AuthSession) (a : Accounts)
      → Allowed now h a (admin_delete_user id at admin s a)
  unfolding admin_delete_user
  admin_delete_user-Change id at admin s a =
      branch now h (not (is_admin admin)) (λ _. allowed stays)
        (λ _. delete_found-Change id (find_user id a.users) at admin a refl)
