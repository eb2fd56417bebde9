-- ===== src/Pool/Staged.antt =====
-- What each stage of the coordinator says of a pool that is not stopped.
use searchcar_desktop.Base.{
  ◌+◌, ◌≡◌, ◌≤◌, ◌<◌, Bool, true, Option, none, some, is_some, List, [], ◌∷◌, ◌++◌, arith, count_by,
  length,
}
use searchcar_desktop.Pool.{Error, Stage, entering, entered, consuming, closed, Pool, note_failure}
use searchcar_desktop.Pool.Counts.{tally, count_by-append, length-append, is_opening, is_ended}

abbrev pub Staged : Pool → Stage → Type 0
Staged s (entering got es) =
    (got + (length s.ready + tally is_opening s.threads) ≡ s.workers)
    × (length es + count_by is_some s.ready ≡ tally is_ended s.threads)
    × (length es ≤ got)
Staged s (closed _) = ⊥
Staged s _ =
    (s.start_event ≡ true)
    × (tally is_opening s.threads ≡ 0)
    × (tally is_ended s.threads < s.workers)

-- the same, for a stage that is given
pub Staged-same :
    (g : Stage) (s t : Pool)
    → t.ready ≡ s.ready
    → t.start_event ≡ s.start_event
    → t.workers ≡ s.workers
    → tally is_opening t.threads ≡ tally is_opening s.threads
    → tally is_ended t.threads ≡ tally is_ended s.threads
    → Staged s g
    → Staged t g
Staged-same (entering got es) s t r a w o e h = rw (r, w, o, e) h
Staged-same entered s t r a w o e h = rw (a, w, o, e) h
Staged-same consuming s t r a w o e h = rw (a, w, o, e) h
Staged-same (closed _) s t r a w o e h = h

-- a thread has its reader, or has failed to open it
pub Staged-reports :
    (g : Stage) (r : Option Error) (s t : Pool)
    → t.ready ≡ s.ready ++ r ∷ []
    → t.workers ≡ s.workers
    → tally is_opening t.threads + 1 ≡ tally is_opening s.threads
    → tally is_ended t.threads ≡ tally is_ended s.threads + count_by is_some (r ∷ [])
    → Staged s g
    → Staged t g
Staged-reports (entering got es) r s t k w o e (total, failed, within) = rw k (
  omega (arith, total, o, w, length-append s.ready (r ∷ [])),
  omega (arith, failed, e, count_by-append is_some s.ready (r ∷ [])),
  within,
)
Staged-reports entered r s t k w o e h = absurd (omega (arith, o, h.1))
Staged-reports consuming r s t k w o e h = absurd (omega (arith, o, h.1))
Staged-reports (closed _) r s t k w o e h = h

pub count_by-le_length {ℓ} : {A : Type ℓ} (p : A → Bool) (xs : List A) → count_by p xs ≤ length xs
count_by-le_length p [] = omega arith
count_by-le_length p (x ∷ xs) = ground (arith, count_by-le_length p xs)

pub note_failure-length :
    (r : Option Error) (es : List Error)
    → length (note_failure r es) ≡ length es + count_by is_some (r ∷ [])
unfolding note_failure
note_failure-length none es = omega arith
note_failure-length (some e) es = length-append es (e ∷ [])
