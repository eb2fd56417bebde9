-- ===== src/Accounts/Changes.antt =====
-- What an operation may change in the tables of the accounts, and what all such changes keep: an
-- active administrator, the end of a session that has ended, and the limit on failed attempts.
use searchcar_desktop.Base.{
  ℕ, ◌+◌, ◌-◌, ◌≤◌, ◌<◌, ◌≡◌, ◌⊎◌, inl, inr, refl, ap, arith, Bool, true, false, not, ◌||◌, some,
  List, [], ◌∷◌, ◌++◌, map, all, count_by, select, if◌then◌else◌, ◌==◌, text_eq, text_eq→eq,
  is_some, Bool-cases,
}
use searchcar_desktop.Store.{Text, Db}
use searchcar_desktop.Accounts.{
  Account, AuthSession, AuthAttempt, Accounts, is_active_admin, find_user, update_user, remove_user,
}
use searchcar_desktop.Accounts.Requests.{minutes}
use searchcar_desktop.Accounts.Users.{active_admins, failures, of_username}

abbrev pub admin_weight : Account → ℕ
admin_weight u = if is_active_admin u then 1 else 0

-- a session with the hash of a token that is not accepted any more, or with another hash
abbrev pub dead : Text → AuthSession → Bool
dead h s = not (text_eq s.token_hash h) || is_some s.revoked_at

-- changes of one operation at a time, which may issue a token of that hash
pub data Change (now : ℕ) (h : Text) : Accounts → Accounts → Type 0 where
  stays : {a : Accounts} → Change now h a a
  rewrites :
      {a : Accounts} (id : ℕ) (f : Account → Account)
      → ((x : Account)
          → find_user id a.users ≡ some x
          → (admin_weight x ≤ admin_weight (f x)) ⊎ (2 ≤ active_admins a.users))
      → Change now h a (record a { users = update_user id f a.users })
  removes :
      {a : Accounts} (id : ℕ) (old : Account)
      → find_user id a.users ≡ some old
      → (admin_weight old ≡ 0) ⊎ (2 ≤ active_admins a.users)
      → Change now h a (record a { users = remove_user id a.users })
  adds :
      {a : Accounts} (us : List Account) (n : ℕ)
      → Change now h a (record a { users = a.users ++ us; next_user = n })
  updates :
      {a : Accounts} (g : AuthSession → AuthSession)
      → ((k : Text) (s : AuthSession) → dead k s ≡ true → dead k (g s) ≡ true)
      → Change now h a (record a { sessions = map g a.sessions })
  ends :
      {a : Accounts} (test : AuthSession → Bool)
      → Change now h a (record a { sessions = select test a.sessions })
  opens :
      {a : Accounts} (s : AuthSession) (n : ℕ)
      → s.token_hash ≡ h
      → Change now h a (record a { sessions = a.sessions ++ s ∷ []; next_session = n })
  attempts :
      {a : Accounts} (t : AuthAttempt)
      → failures (of_username t.username_key) (now - minutes 15) a.attempts < 5
      → Change now h a (record a { attempts = a.attempts ++ t ∷ [] })
  scans : {a : Accounts} (d : Db) → Change now h a (record a { db = d })
  both : {a b c : Accounts} → Change now h a b → Change now h b c → Change now h a c

-- the change of one row, if it is there
update_user-count :
    (id : ℕ) (f : Account → Account) (xs : List Account)
    → (active_admins (update_user id f xs) ≡ active_admins xs)
      ⊎ ((x : Account) × (find_user id xs ≡ some x)
          × (active_admins (update_user id f xs) + admin_weight x
              ≡ active_admins xs + admin_weight (f x)))
unfolding update_user
update_user-count id f [] = inl refl
update_user-count id f (x ∷ xs) = elim (Bool-cases (x.id == id)) [
  | inl k ↦ inr (x, rw k refl, rw k (omega arith))
  | inr k ↦ elim (update_user-count id f xs) [
    | inl e ↦ inl (rw k (omega (arith, e)))
    | inr (y, e, c) ↦ inr (y, rw k e, rw k (omega (arith, c)))
  ]
]

remove_user-count :
    (id : ℕ) (old : Account) (xs : List Account)
    → find_user id xs ≡ some old
    → active_admins (remove_user id xs) + admin_weight old ≡ active_admins xs
unfolding remove_user
remove_user-count id old [] e = cc
remove_user-count id old (x ∷ xs) e = elim (Bool-cases (x.id == id)) [
  | inl k ↦ let same : x ≡ old = first (rw k at e) in rw k (omega (arith, ap admin_weight same))
  | inr k ↦ rw k (omega (arith, remove_user-count id old xs (rw k at e)))
]
  where
    first : {y z : Account} → some y ≡ some z → y ≡ z
    first q = cc

count_by_append {ℓ} :
    {A : Type ℓ} (p : A → Bool) (xs ys : List A)
    → count_by p (xs ++ ys) ≡ count_by p xs + count_by p ys
count_by_append p [] ys = omega arith
count_by_append p (x ∷ xs) ys = omega (arith, count_by_append p xs ys)

weight-le : (u : Account) → admin_weight u ≤ 1
weight-le u = ground arith

-- some administrator is active
pub Change-admin :
    {now : ℕ} {h : Text} {a b : Accounts}
    → Change now h a b
    → 0 < active_admins a.users
    → 0 < active_admins b.users
Change-admin stays p = p
Change-admin {a} (rewrites id f c) p = elim (update_user-count id f a.users) [
  | inl e ↦ omega (arith, e, p)
  | inr (x, e, n) ↦ elim (c x e) [
    | inl w ↦ omega (arith, n, w, p)
    | inr m ↦ omega (arith, n, m, weight-le x)
  ]
]
Change-admin {a} (removes id old e c) p =
    ground (arith, remove_user-count id old a.users e, c, p, weight-le old)
Change-admin {a} (adds us n) p = omega (arith, count_by_append is_active_admin a.users us, p)
Change-admin (updates g d) p = p
Change-admin (ends test) p = p
Change-admin (opens s n e) p = p
Change-admin (attempts t l) p = p
Change-admin (scans d) p = p
Change-admin (both c d) p = Change-admin d (Change-admin c p)

all-map :
    (p : AuthSession → Bool) (g : AuthSession → AuthSession)
    → ((s : AuthSession) → p s ≡ true → p (g s) ≡ true)
    → (xs : List AuthSession) → all p xs ≡ true
    → all p (map g xs) ≡ true
all-map p g f [] h = refl
all-map p g f (x ∷ xs) h = ground (arith, f x, all-map p g f xs)

all-select :
    (p test : AuthSession → Bool) (xs : List AuthSession)
    → all p xs ≡ true
    → all p (select test xs) ≡ true
all-select p test [] h = refl
all-select p test (x ∷ xs) h = ground (arith, all-select p test xs)

all-append :
    (p : AuthSession → Bool) (xs ys : List AuthSession)
    → all p xs ≡ true
    → all p ys ≡ true
    → all p (xs ++ ys) ≡ true
all-append p [] ys h k = k
all-append p (x ∷ xs) ys h k = ground (arith, all-append p xs ys)

-- a token that is not accepted any more stays so, as long as it is not issued again
pub Change-dead :
    {now : ℕ} {h : Text} {a b : Accounts} (k : Text)
    → text_eq h k ≡ false
    → Change now h a b
    → all (dead k) a.sessions ≡ true
    → all (dead k) b.sessions ≡ true
Change-dead k n stays p = p
Change-dead k n (rewrites id f c) p = p
Change-dead k n (removes id old e c) p = p
Change-dead k n (adds us m) p = p
Change-dead {a} k n (updates g d) p = all-map (dead k) g (d k) a.sessions p
Change-dead {a} k n (ends test) p = all-select (dead k) test a.sessions p
Change-dead {a} k n (opens s m e) p = all-append (dead k) a.sessions (s ∷ []) p (rw (e, n) refl)
Change-dead k n (attempts t l) p = p
Change-dead k n (scans d) p = p
Change-dead k n (both c d) p = Change-dead k n d (Change-dead k n c p)

-- failures of a name in the last quarter of an hour
abbrev pub recent : Text → ℕ → Accounts → ℕ
recent key now a = failures (of_username key) (now - minutes 15) a.attempts

recent_attempt :
    (key : Text) (cutoff : ℕ) (t : AuthAttempt) (ts : List AuthAttempt)
    → failures (of_username t.username_key) cutoff ts < 5
    → failures (of_username key) cutoff ts ≤ 5
    → failures (of_username key) cutoff (ts ++ t ∷ []) ≤ 5
recent_attempt key cutoff t ts l p = elim (Bool-cases (text_eq t.username_key key)) [
  | inl e ↦
      let same : failures (of_username t.username_key) cutoff ts
          ≡ failures (of_username key) cutoff ts =
        ap (λ k. failures (of_username k) cutoff ts) (text_eq→eq t.username_key key e) in
      ground (arith, appended, same, l, e)
  | inr e ↦ ground (arith, appended, p, e)
]
  where
    appended :
        failures (of_username key) cutoff (ts ++ t ∷ [])
        ≡ failures (of_username key) cutoff ts + failures (of_username key) cutoff (t ∷ [])
    appended = count_by_append _ ts (t ∷ [])

-- never more than five
pub Change-recent :
    {now : ℕ} {h : Text} {a b : Accounts} (key : Text)
    → Change now h a b
    → recent key now a ≤ 5
    → recent key now b ≤ 5
Change-recent key stays p = p
Change-recent key (rewrites id f c) p = p
Change-recent key (removes id old e c) p = p
Change-recent key (adds us m) p = p
Change-recent key (updates g d) p = p
Change-recent key (ends test) p = p
Change-recent key (opens s m e) p = p
Change-recent {now} {a} key (attempts t l) p =
    recent_attempt key (now - minutes 15) t a.attempts l p
Change-recent key (scans d) p = p
Change-recent key (both c d) p = Change-recent key d (Change-recent key c p)
