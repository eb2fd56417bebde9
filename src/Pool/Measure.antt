-- ===== src/Pool/Measure.antt =====
-- How many steps the threads and the coordinator can take until all tasks are read.
use searchcar_desktop.Base.{
  ℕ, suc, ◌+◌, ◌*◌, ◌≡◌, ap, ◌≤◌, ◌<◌, some, List, [], ◌∷◌, ◌++◌, arith, length,
}
use searchcar_desktop.Pool.{
  DetailResult, Phase, opening, opened, looping, leaving, taking, holding, delayed, cleared,
  reading, ended, Pool, next_result, work, Outcome,
}
use searchcar_desktop.Pool.Counts.{waiting, tally, tally_step, length-append}
use searchcar_desktop.Pool.Filling.{filled}
use searchcar_desktop.Pool.Calls.{Yielded, yielded, next_result-Yielded}
use searchcar_desktop.Pool.Turns.{
  Turn, reports, fails, starts_loop, continues, breaks, takes, stops, books, gives_up, clears,
  begins as begins_reading, finishes, closes, closes_badly, work-Turn,
}

-- the steps that a thread, its task included, still has before it
abbrev left : Phase → ℕ
left opening = 5
left opened = 4
left looping = 3
left taking = 2
left (holding _) = 8
left (delayed _ _) = 7
left (cleared _) = 6
left (reading _ _) = 5
left leaving = 1
left ended = 0

abbrev pub measure : Pool → ℕ
measure s =
    7 * (length (waiting s.tasks) + length s.pending) + (length s.results + tally left s.threads)

-- steps of the threads and results taken, counted, with time passing between them
pub data Moves (s : Pool) : ℕ → Pool → Type 0 where
  rests : Moves s 0 s
  waits_on :
      {n : ℕ} {t : Pool} → Moves s n t → (m : ℕ) → Moves s n (record t { clock = t.clock + m })
  reads :
      {n : ℕ} {t u : Pool} {r : DetailResult}
      → Moves s n t
      → next_result t ≡ some (r, u)
      → Moves s (suc n) u
  moves :
      {n : ℕ} {t u : Pool}
      → Moves s n t
      → (o : Outcome) (before after : List Phase) (p : Phase) {q : Phase}
      → t.threads ≡ before ++ p ∷ after
      → work o t p ≡ some (u, q)
      → Moves s (suc n) (record u { threads = before ++ q ∷ after })

Yielded-measure : {s t : Pool} {r : DetailResult} → Yielded s r t → measure t < measure s
Yielded-measure {s} (yielded r rest e k i (filled q ps w b m d)) = omega (
  arith,
  ap length i,
  ap length w,
  length-append (waiting q) ps,
  length-append (waiting s.tasks) s.pending,
)

Turn-measure :
    {s t : Pool} (before after : List Phase) (p q : Phase)
    → s.threads ≡ before ++ p ∷ after
    → Turn s p t q
    → measure (record t { threads = before ++ q ∷ after }) < measure s
Turn-measure {s} before after p q e m = lower m (tally_step left s.threads before after p q e)
  where
    lower :
        {x y : Phase} {u : Pool}
        → Turn s x u y
        → tally left (before ++ y ∷ after) + left x ≡ tally left s.threads + left y
        → measure (record u { threads = before ++ y ∷ after }) < measure s
    lower reports k = omega (arith, k)
    lower (fails _) k = omega (arith, k)
    lower (starts_loop _) k = omega (arith, k)
    lower (continues _) k = omega (arith, k)
    lower (breaks _) k = omega (arith, k)
    lower (takes t rest c) k = omega (arith, k, ap length (ap waiting c))
    lower (stops rest c) k = omega (arith, k, ap length (ap waiting c))
    lower (books _) k = omega (arith, k)
    lower (gives_up _ _ _) k = omega (arith, k)
    lower (clears _ _ _ _) k = omega (arith, k)
    lower (begins_reading _) k = omega (arith, k)
    lower (finishes t u r c) k = omega (arith, k, length-append s.results (r ∷ []))
    lower closes k = omega (arith, k)
    lower (closes_badly _) k = omega (arith, k)

-- From any state the threads and the coordinator, as it takes results, take no more steps in all
-- than the measure of the state says, however long they wait in between and in whatever order
-- they move.
pub Moves-bounded : {s t : Pool} {n : ℕ} → Moves s n t → n + measure t ≤ measure s
Moves-bounded rests = omega arith
Moves-bounded (waits_on m k) = Moves-bounded m
Moves-bounded (reads {t} m e) =
    omega (arith, Moves-bounded m, Yielded-measure (next_result-Yielded t e))
Moves-bounded (moves {t} m o before after p e k) =
    omega (arith, Moves-bounded m, Turn-measure before after p _ e (work-Turn t o p k))
