-- ===== src/Pool/Shape.antt =====
-- What a pool keeps to: as many threads as workers, a queue within its bound, and, while it is not
-- stopped, threads that stay until all tasks are read.
use searchcar_desktop.Base.{
  ℕ, zero, suc, ◌≡◌, refl, ap, ◌∙◌, ◌≤◌, ◌<◌, Option, List, ◌∷◌, ◌++◌, arith, length,
}
use searchcar_desktop.Pool.{
  Error, DetailTask, DetailResult, Phase, opening, Pool, start_pool, worker_count, capacity, close,
  cancel, repeat,
}
use searchcar_desktop.Pool.Counts.{length-append}
use searchcar_desktop.Pool.Filling.{filled, put_stops-bound}
use searchcar_desktop.Pool.Calls.{
  Call, collected, exits, Collected, waits, begins, refuses, Submitted, submitted, Yielded, yielded,
  collect_ready-Call, time_out-Call, leave-Call, submit_all-Submitted, next_result-Yielded,
}
use searchcar_desktop.Pool.Turns.{
  Turn, reports, fails, starts_loop, continues, breaks, takes, stops, books, gives_up, clears,
  begins as begins_reading, finishes, closes, closes_badly, work-Turn,
}
use searchcar_desktop.Pool.Moves.{
  History, Step, passes, collects, times_out, submits, yields, cancels, leaves, works, Reach,
  starts, later,
}

pub record Sized (s : Pool) : Type 0 where
  pub some_worker : 0 < s.workers
  pub few : s.workers ≤ 2
  pub sized : length s.threads ≡ s.workers
  pub bound : length s.tasks ≤ capacity s

length_step :
    (ps before after : List Phase) (p q : Phase)
    → ps ≡ before ++ p ∷ after
    → length (before ++ q ∷ after) ≡ length ps
length_step ps before after p q e =
    rw e (omega (arith, length-append before (q ∷ after), length-append before (p ∷ after)))

module _ {s : Pool} (z : Sized s) where
  Collected-Sized :
      {got : ℕ} {es : List Error} {rest : List (Option Error)} {t : Pool}
      → Collected s got es rest t
      → Sized t
  unfolding close
  Collected-Sized (waits _) = record {
    some_worker = z.some_worker;
    few = z.few;
    sized = z.sized;
    bound = z.bound;
  }
  Collected-Sized (begins _ _) = record {
    some_worker = z.some_worker;
    few = z.few;
    sized = z.sized;
    bound = z.bound;
  }
  Collected-Sized (refuses _) = record {
    some_worker = z.some_worker;
    few = z.few;
    sized = z.sized;
    bound = put_stops-bound (capacity s) s.threads s.tasks z.bound;
  }

  Call-Sized : {t : Pool} → Call s t → Sized t
  unfolding close
  Call-Sized (collected _ _ _ _ _ _ c) = Collected-Sized c
  Call-Sized (exits e _) = record {
    some_worker = z.some_worker;
    few = z.few;
    sized = z.sized;
    bound = put_stops-bound (capacity s) s.threads s.tasks z.bound;
  }

  Submitted-Sized : {tasks : List DetailTask} {t : Pool} → Submitted s tasks t → Sized t
  Submitted-Sized (submitted _ (filled _ _ _ b _ _)) = record {
    some_worker = z.some_worker;
    few = z.few;
    sized = z.sized;
    bound = b z.bound;
  }

  Yielded-Sized : {r : DetailResult} {t : Pool} → Yielded s r t → Sized t
  Yielded-Sized (yielded _ _ _ _ _ (filled _ _ _ b _ _)) = record {
    some_worker = z.some_worker;
    few = z.few;
    sized = z.sized;
    bound = b z.bound;
  }

  -- the queue after a step of a thread
  Turn-tasks :
      {p q : Phase} {t : Pool}
      → Turn s p t q
      → (length t.tasks ≤ length s.tasks) × (t.workers ≡ s.workers)
  Turn-tasks reports = (omega arith, refl)
  Turn-tasks (fails _) = (omega arith, refl)
  Turn-tasks (starts_loop _) = (omega arith, refl)
  Turn-tasks (continues _) = (omega arith, refl)
  Turn-tasks (breaks _) = (omega arith, refl)
  Turn-tasks (takes t rest k) = (omega (arith, ap length k), refl)
  Turn-tasks (stops rest k) = (omega (arith, ap length k), refl)
  Turn-tasks (books t) = (omega arith, refl)
  Turn-tasks (gives_up t u k) = (omega arith, refl)
  Turn-tasks (clears _ _ _ _) = (omega arith, refl)
  Turn-tasks (begins_reading _) = (omega arith, refl)
  Turn-tasks (finishes t u r k) = (omega arith, refl)
  Turn-tasks closes = (omega arith, refl)
  Turn-tasks (closes_badly _) = (omega arith, refl)

  Turn-Sized :
      (before after : List Phase) (p q : Phase) {t : Pool}
      → s.threads ≡ before ++ p ∷ after
      → Turn s p t q
      → Sized (record t { threads = before ++ q ∷ after })
  Turn-Sized before after p q {t} e m =
      let (shorter, same) = Turn-tasks m in
      record {
        some_worker = rw same z.some_worker;
        few = rw same z.few;
        sized = rw same (length_step s.threads before after p q e ∙ z.sized);
        bound = rw same (omega (arith, shorter, z.bound));
      }

Step-Sized : {s t : Pool} {h k : History} → Step s h t k → Sized s → Sized t
unfolding cancel
Step-Sized (passes n) z = record {
  some_worker = z.some_worker;
  few = z.few;
  sized = z.sized;
  bound = z.bound;
}
Step-Sized {s} (collects e) z = Call-Sized z (collect_ready-Call s e)
Step-Sized {s} (times_out e) z = Call-Sized z (time_out-Call s e)
Step-Sized {s} (submits tasks e) z = Submitted-Sized z (submit_all-Submitted s tasks e)
Step-Sized {s} (yields e) z = Yielded-Sized z (next_result-Yielded s e)
Step-Sized cancels z = record {
  some_worker = z.some_worker;
  few = z.few;
  sized = z.sized;
  bound = z.bound;
}
Step-Sized {s} (leaves e) z = Call-Sized z (leave-Call s e)
Step-Sized {s} (works r before after p e k) z = Turn-Sized z before after p _ e (work-Turn s r p k)

length-repeat : (p : Phase) (n : ℕ) → length (repeat n p) ≡ n
length-repeat p zero = refl
length-repeat p (suc n) = omega (arith, length-repeat p n)

pub Reach-Sized : {n interval : ℕ} {s : Pool} {h : History} → Reach n interval s h → Sized s
unfolding start_pool
Reach-Sized {n} (starts now) = record {
  some_worker = ground arith;
  few = ground arith;
  sized = length-repeat opening (worker_count n);
  bound = omega arith;
}
Reach-Sized (later r st) = Step-Sized st (Reach-Sized r)
