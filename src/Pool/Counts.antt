-- ===== src/Pool/Counts.antt =====
-- Sums over the threads of a pool and over its queues.
use searchcar_desktop.Base.{
  ℕ, zero, suc, ◌+◌, ◌≡◌, refl, ◌≤◌, Bool, List, [], ◌∷◌, ◌++◌, arith, length, count_by,
}
use searchcar_desktop.Pool.{
  DetailTask, Entry, job, stop_mark, Phase, opening, taking, holding, delayed, cleared, reading,
  leaving, ended, repeat,
}

-- a weight, summed over the threads
abbrev pub tally : (Phase → ℕ) → List Phase → ℕ
tally w [] = 0
tally w (p ∷ ps) = w p + tally w ps

pub tally-append :
    (w : Phase → ℕ) (ps qs : List Phase) → tally w (ps ++ qs) ≡ tally w ps + tally w qs
tally-append w [] qs = omega arith
tally-append w (p ∷ ps) qs = omega (arith, tally-append w ps qs)

-- what replacing one thread's phase does to the sum
pub tally_moves :
    (w : Phase → ℕ) (before after : List Phase) (p q : Phase)
    → tally w (before ++ q ∷ after) + w p ≡ tally w (before ++ p ∷ after) + w q
tally_moves w [] after p q = omega arith
tally_moves w (x ∷ before) after p q = omega (arith, tally_moves w before after p q)

-- the tasks among the entries of the queue
abbrev pub waiting : List Entry → List DetailTask
waiting [] = []
waiting (job t ∷ es) = t ∷ waiting es
waiting (stop_mark ∷ es) = waiting es

pub append_assoc {ℓ} : {A : Type ℓ} (xs ys zs : List A) → (xs ++ ys) ++ zs ≡ xs ++ (ys ++ zs)
append_assoc [] ys zs = refl
append_assoc (x ∷ xs) ys zs = rw (append_assoc xs ys zs)

pub append_one {ℓ} :
    {A : Type ℓ} (xs : List A) (x : A) (ys : List A) → (xs ++ x ∷ []) ++ ys ≡ xs ++ x ∷ ys
append_one [] x ys = refl
append_one (z ∷ xs) x ys = rw (append_one xs x ys)

pub append_nil {ℓ} : {A : Type ℓ} (xs : List A) → xs ++ [] ≡ xs
append_nil [] = refl
append_nil (x ∷ xs) = rw (append_nil xs)

pub length-append {ℓ} : {A : Type ℓ} (xs ys : List A) → length (xs ++ ys) ≡ length xs + length ys
length-append [] ys = omega arith
length-append (x ∷ xs) ys = omega (arith, length-append xs ys)

pub count_by-append {ℓ} :
    {A : Type ℓ} (p : A → Bool) (xs ys : List A)
    → count_by p (xs ++ ys) ≡ count_by p xs + count_by p ys
count_by-append p [] ys = omega arith
count_by-append p (x ∷ xs) ys = omega (arith, count_by-append p xs ys)

pub waiting-append : (es fs : List Entry) → waiting (es ++ fs) ≡ waiting es ++ waiting fs
waiting-append [] fs = refl
waiting-append (job t ∷ es) fs = rw (waiting-append es fs)
waiting-append (stop_mark ∷ es) fs = waiting-append es fs

-- the same, for the threads of a state
pub tally_step :
    (w : Phase → ℕ) (ps before after : List Phase) (p q : Phase)
    → ps ≡ before ++ p ∷ after
    → tally w (before ++ q ∷ after) + w p ≡ tally w ps + w q
tally_step w ps before after p q e = rw e (tally_moves w before after p q)

pub tally-repeat : (w : Phase → ℕ) (p : Phase) (n : ℕ) → w p ≡ 0 → tally w (repeat n p) ≡ 0
tally-repeat w p zero h = refl
tally-repeat w p (suc n) h = omega (arith, tally-repeat w p n h, h)

-- each thread counts
pub tally-member :
    (w : Phase → ℕ) (ps before after : List Phase) (p : Phase)
    → ps ≡ before ++ p ∷ after
    → w p ≤ tally w ps
tally-member w ps before after p e = rw e (omega (arith, tally-append w before (p ∷ after)))

-- how many threads have a task, and how many stand at certain places
abbrev pub busy : Phase → ℕ
busy (holding _) = 1
busy (delayed _ _) = 1
busy (cleared _) = 1
busy (reading _ _) = 1
busy _ = 0

abbrev pub is_opening : Phase → ℕ
is_opening opening = 1
is_opening _ = 0

abbrev pub is_leaving : Phase → ℕ
is_leaving leaving = 1
is_leaving _ = 0

abbrev pub is_ended : Phase → ℕ
is_ended ended = 1
is_ended _ = 0

abbrev pub is_taking : Phase → ℕ
is_taking taking = 1
is_taking _ = 0
