-- ===== src/Accounts/Safety.antt =====
-- After any sequence of operations on accounts: some administrator is active, a token that has ended
-- is not accepted, and the failed attempts on a name are few.
use searchcar_desktop.Base.{
  ℕ, ◌-◌, ◌≤◌, ◌<◌, ◌≡◌, inl, inr, refl, ap, arith, Bool, true, false, not, none, some, List, [],
  ◌∷◌, all, find_by, if◌then◌else◌, text_eq, text_eq→eq, length, is_some, is_blank, Bool-cases,
}
use searchcar_desktop.Store.{Text}
use searchcar_desktop.Accounts.{Account, AuthSession, AuthAttempt, Accounts}
use searchcar_desktop.Accounts.Requests.{minutes, get_auth_context, context_of, named_context}
use searchcar_desktop.Accounts.Users.{Env, active_admins, failures, of_username}
use searchcar_desktop.Accounts.Changes.{dead}
use searchcar_desktop.Accounts.Changes.{Change-admin, Change-dead, Change-recent, recent}
use searchcar_desktop.Accounts.Steps.{
  Operation, logs_in, registers, logs_out, changes_password, updates_profile, creates_user,
  patches_user, deletes_user, resets_password, perform, perform_all,
}
use searchcar_desktop.Accounts.Entries.{issues, perform-Change}

module _ (env : Env) where
  -- If some administrator is active, then after every sequence of operations some administrator is.
  pub perform_all-admin :
      (os : List (ℕ × Operation)) (a : Accounts)
      → 0 < active_admins a.users
      → 0 < active_admins (perform_all env os a).users
  unfolding perform_all
  perform_all-admin [] a h = h
  perform_all-admin ((now, o) ∷ os) a h =
      perform_all-admin os (perform env now o a).1 (Change-admin (perform-Change env now o [] a) h)

  -- the operation is not a login that gives out a token with this hash
  abbrev pub spares : Text → Operation → Bool
  spares k (logs_in _ _ _ _ _ _ tokens) = not (text_eq (env.secure_hash tokens.0) k)
  spares k _ = true

  abbrev pub NotIssued : Text → List (ℕ × Operation) → Type 0
  NotIssued k os = all (λ (e : ℕ × Operation). spares k e.1) os ≡ true

  -- a token whose sessions have all ended, or that has none
  abbrev pub HasEnded : Text → Accounts → Type 0
  HasEnded token a = all (dead (env.secure_hash token)) a.sessions ≡ true

  longer : (c : ℕ) (k : Text) → text_eq (c ∷ k) k ≡ false
  longer c k = elim (Bool-cases (text_eq (c ∷ k) k)) [
    | inl e ↦ absurd (omega (arith, ap length (text_eq→eq (c ∷ k) k e)))
    | inr e ↦ e
  ]

  spares-issues :
      (now : ℕ) (k : Text) (o : Operation)
      → spares k o ≡ true
      → text_eq (issues env now o (0 ∷ k)) k ≡ false
  spares-issues now k (logs_in _ _ _ _ _ _ tokens) h = ground (arith, h)
  spares-issues now k (registers _ _ _) h = longer 0 k
  spares-issues now k (logs_out _) h = longer 0 k
  spares-issues now k (changes_password _ _ _) h = longer 0 k
  spares-issues now k (updates_profile _ _) h = longer 0 k
  spares-issues now k (creates_user _ _) h = longer 0 k
  spares-issues now k (patches_user _ _ _) h = longer 0 k
  spares-issues now k (deletes_user _ _) h = longer 0 k
  spares-issues now k (resets_password _ _ _ _) h = longer 0 k

  found-rejected :
      (k : Text) (now : ℕ) (users : List Account) (xs : List AuthSession)
      → all (dead k) xs ≡ true
      → context_of (find_by (λ s. text_eq s.token_hash k) xs) now users ≡ none
  unfolding context_of
  found-rejected k now users [] h = refl
  found-rejected k now users (x ∷ xs) h = elim (Bool-cases (text_eq x.token_hash k)) [
    | inl e ↦ elim (Bool-cases (is_some x.revoked_at)) [
      | inl r ↦ rw (e, r) refl
      | inr r ↦ absurd (ground (arith, e, r, h))
    ]
    | inr e ↦ rw e (found-rejected k now users xs (ground (arith, h)))
  ]

  named-rejected :
      (token : Text) (now : ℕ) (a : Accounts)
      → HasEnded token a
      → (b : Bool) → named_context env.secure_hash (if b then none else some token) now a ≡ none
  unfolding named_context
  named-rejected token now a h true = refl
  named-rejected token now a h false =
      found-rejected (env.secure_hash token) now a.users a.sessions h

  ended-rejected :
      (token : Text) (now : ℕ) (a : Accounts)
      → HasEnded token a
      → get_auth_context env.secure_hash (some token) now a ≡ none
  unfolding get_auth_context
  ended-rejected token now a h = named-rejected token now a h (is_blank token)

  perform_all-dead :
      (k : Text) (os : List (ℕ × Operation)) (a : Accounts)
      → NotIssued k os
      → all (dead k) a.sessions ≡ true
      → all (dead k) (perform_all env os a).sessions ≡ true
  unfolding perform_all
  perform_all-dead k [] a n h = h
  perform_all-dead k ((now, o) ∷ os) a n h =
      perform_all-dead k os (perform env now o a).1 (ground (arith, n)) (
        Change-dead k (spares-issues now k o (ground (arith, n)))
          (perform-Change env now o (0 ∷ k) a) h)

  -- A token whose sessions have all ended, because of a logout, a new password, a block or a reset,
  -- is not accepted after any sequence of operations in which no login gives it out again.
  pub perform_all-rejected :
      (token : Text) (now : ℕ) (os : List (ℕ × Operation)) (a : Accounts)
      → HasEnded token a
      → NotIssued (env.secure_hash token) os
      → get_auth_context env.secure_hash (some token) now (perform_all env os a) ≡ none
  perform_all-rejected token now os a h n =
      ended-rejected token now (perform_all env os a)
        (perform_all-dead (env.secure_hash token) os a n h)

  -- the operations come one after the other, from that time on
  abbrev pub IsFrom : ℕ → List (ℕ × Operation) → Type 0
  IsFrom start [] = Unit
  IsFrom start ((now, o) ∷ os) = (start ≤ now) × IsFrom now os

  abbrev pub end_of : ℕ → List (ℕ × Operation) → ℕ
  end_of start [] = start
  end_of start ((now, o) ∷ os) = end_of now os

  recent-later :
      (key : Text) (start now : ℕ) (a : Accounts)
      → start ≤ now
      → recent key now a ≤ recent key start a
  recent-later key start now a h = go a.attempts
    where
      go :
          (ts : List AuthAttempt)
          → failures (of_username key) (now - minutes 15) ts
            ≤ failures (of_username key) (start - minutes 15) ts
      go [] = omega arith
      go (t ∷ ts) = ground (arith, go ts, h)

  -- If at first at most five attempts on a name have failed in the last quarter of an hour, then
  -- it is so after every sequence of operations in the order of their times.
  pub perform_all-limited :
      (key : Text) (start : ℕ) (os : List (ℕ × Operation)) (a : Accounts)
      → IsFrom start os
      → recent key start a ≤ 5
      → recent key (end_of start os) (perform_all env os a) ≤ 5
  unfolding perform_all
  perform_all-limited key start [] a f h = h
  perform_all-limited key start ((now, o) ∷ os) a f h =
      perform_all-limited key now os (perform env now o a).1 f.1 (
        Change-recent key (perform-Change env now o [] a)
          (omega (arith, recent-later key start now a f.0, h)))
