-- ===== src/Pool/Ending.antt =====
-- The threads come to an end after `close`: none of them waits for ever.
use searchcar_desktop.Base.{
  ℕ, ◌+◌, ◌≡◌, ◌≢◌, refl, ap, ◌∙◌, sym, ◌≤◌, true, false, Option, none, some, List, [], ◌∷◌, ◌++◌,
  arith, length,
}
use searchcar_desktop.Pool.{
  Error, DetailTask, DetailResult, Phase, opening, opened, looping, leaving, taking, holding,
  delayed, cleared, reading, ended, closed, Pool, start_pool, turn, capacity, close, cancel, work,
}
use searchcar_desktop.Pool.Counts.{tally, tally_step, tally-member, is_taking}
use searchcar_desktop.Pool.Filling.{filled, put_stops-enough}
use searchcar_desktop.Pool.Calls.{
  is_inside, Call, collected, exits, Collected, waits, begins, refuses, Submitted, submitted,
  Yielded, yielded, collect_ready-Call, time_out-Call, leave-Call, submit_all-Submitted,
  next_result-Yielded,
}
use searchcar_desktop.Pool.Turns.{
  Turn, reports, fails, starts_loop, continues, breaks, takes, stops, books, gives_up, clears,
  begins as begins_reading, finishes, closes, closes_badly, work-Turn,
}
use searchcar_desktop.Pool.Moves.{
  History, Step, passes, collects, times_out, submits, yields, cancels, leaves, works, Reach,
  starts, later,
}
use searchcar_desktop.Pool.Shape.{Sized, Reach-Sized}
use searchcar_desktop.Pool.Progress.{Enabled, take_entry-some, opening-Enabled, leaving-Enabled}

-- once the coordinator is out of the `with`, every thread that waits for an entry has one
record Closing (s : Pool) : Type 0 where
  stopped : s.stop_event ≡ true
  started : s.start_event ≡ true
  enough : tally is_taking s.threads ≤ length s.tasks

tally_taking-le : (ps : List Phase) → tally is_taking ps ≤ length ps
tally_taking-le [] = omega arith
tally_taking-le (p ∷ ps) = omega (arith, one p, tally_taking-le ps)
  where
    one : (q : Phase) → is_taking q ≤ 1
    one opening = omega arith
    one opened = omega arith
    one looping = omega arith
    one taking = omega arith
    one (holding _) = omega arith
    one (delayed _ _) = omega arith
    one (cleared _) = omega arith
    one (reading _ _) = omega arith
    one leaving = omega arith
    one ended = omega arith

close-Closing : (e : Option Error) (s : Pool) → Sized s → Closing (close e s)
unfolding close
close-Closing e s z = record {
  stopped = refl;
  started = refl;
  enough = ground (
    arith,
    put_stops-enough (capacity s) s.threads s.tasks,
    tally_taking-le s.threads,
    z.sized,
    z.bound,
  );
}

module _ {s : Pool} where
  Collected-Closing :
      {got : ℕ} {es : List Error} {rest : List (Option Error)} {t : Pool}
      → Sized s
      → Collected s got es rest t
      → is_inside t.stage ≡ false
      → Closing t
  Collected-Closing z (waits _) i = cc
  Collected-Closing z (begins _ _) i = cc
  Collected-Closing {rest} z (refuses e) i =
      close-Closing (some e) (record s { ready = rest })
        (record { some_worker = z.some_worker; few = z.few; sized = z.sized; bound = z.bound })

  Call-Closing : {t : Pool} → Sized s → Call s t → is_inside t.stage ≡ false → Closing t
  Call-Closing z (collected _ _ _ _ _ _ c) i = Collected-Closing z c i
  Call-Closing z (exits e _) i = close-Closing e s z

  Submitted-Closing :
      {tasks : List DetailTask} {t : Pool} → Submitted s tasks t → is_inside t.stage ≡ true
  Submitted-Closing (submitted _ (filled _ _ _ _ _ _)) = refl

  Yielded-Closing : {r : DetailResult} {t : Pool} → Yielded s r t → is_inside t.stage ≡ true
  Yielded-Closing (yielded _ _ e _ _ (filled _ _ _ _ _ _)) = rw e refl

  module _ (before after : List Phase) (c : Closing s) where
    shifts :
        (p q : Phase) (t : Pool)
        → s.threads ≡ before ++ p ∷ after
        → t.stop_event ≡ s.stop_event
        → t.start_event ≡ s.start_event
        → length t.tasks + is_taking p ≡ length s.tasks
        → is_taking q ≡ 0
        → Closing (record t { threads = before ++ q ∷ after })
    shifts p q t e a b n w = record {
      stopped = a ∙ c.stopped;
      started = b ∙ c.started;
      enough = omega (arith, c.enough, n, w, tally_step is_taking s.threads before after p q e);
    }

    Turn-Closing :
        {p q : Phase} {t : Pool}
        → s.threads ≡ before ++ p ∷ after
        → Turn s p t q
        → Closing (record t { threads = before ++ q ∷ after })
    Turn-Closing e reports =
        shifts opening opened (record s { ready = s.ready ++ none ∷ [] }) e refl refl (omega arith)
          refl
    Turn-Closing e (fails x) =
        shifts opening ended (record s { ready = s.ready ++ some x ∷ [] }) e refl refl (omega arith)
          refl
    Turn-Closing e (starts_loop _) = shifts opened looping s e refl refl (omega arith) refl
    Turn-Closing e (continues k) = absurd (cc (k, c.stopped))
    Turn-Closing e (breaks k) = shifts looping leaving s e refl refl (omega arith) refl
    Turn-Closing e (takes t rest k) =
        shifts taking (holding t) (record s { tasks = rest }) e refl refl
          (omega (arith, ap length k)) refl
    Turn-Closing e (stops rest k) =
        shifts taking leaving (record s { tasks = rest }) e refl refl (omega (arith, ap length k))
          refl
    Turn-Closing e (books t) =
        shifts (holding t) (delayed t (turn s))
          (record s { next_start_at = turn s + s.min_start_interval }) e refl refl (omega arith)
          refl
    Turn-Closing e (gives_up t u k) = shifts (delayed t u) leaving s e refl refl (omega arith) refl
    Turn-Closing e (clears t u k _) = absurd (cc (k, c.stopped))
    Turn-Closing e (begins_reading t) =
        shifts (cleared t) (reading t s.clock) s e refl refl (omega arith) refl
    Turn-Closing e (finishes t u r k) =
        shifts (reading t u) looping (record s { results = s.results ++ r ∷ [] }) e refl refl
          (omega arith) refl
    Turn-Closing e closes = shifts leaving ended s e refl refl (omega arith) refl
    Turn-Closing e (closes_badly x) =
        shifts leaving ended (record s { ready = s.ready ++ some x ∷ [] }) e refl refl (omega arith)
          refl

Turn-stage : {s : Pool} {p q : Phase} {t : Pool} → Turn s p t q → t.stage ≡ s.stage
Turn-stage reports = refl
Turn-stage (fails _) = refl
Turn-stage (starts_loop _) = refl
Turn-stage (continues _) = refl
Turn-stage (breaks _) = refl
Turn-stage (takes _ _ _) = refl
Turn-stage (stops _ _) = refl
Turn-stage (books _) = refl
Turn-stage (gives_up _ _ _) = refl
Turn-stage (clears _ _ _ _) = refl
Turn-stage (begins_reading _) = refl
Turn-stage (finishes _ _ _ _) = refl
Turn-stage closes = refl
Turn-stage (closes_badly _) = refl

Step-Closing :
    {s t : Pool} {h k : History}
    → Step s h t k
    → Sized s
    → (is_inside s.stage ≡ false → Closing s)
    → is_inside t.stage ≡ false
    → Closing t
unfolding cancel
Step-Closing (passes n) z c i =
    let o = c i in record { stopped = o.stopped; started = o.started; enough = o.enough }
Step-Closing {s} (collects e) z c i = Call-Closing z (collect_ready-Call s e) i
Step-Closing {s} (times_out e) z c i = Call-Closing z (time_out-Call s e) i
Step-Closing {s} (submits tasks e) z c i =
    absurd (cc (i, Submitted-Closing (submit_all-Submitted s tasks e)))
Step-Closing {s} (yields e) z c i = absurd (cc (i, Yielded-Closing (next_result-Yielded s e)))
Step-Closing cancels z c i =
    let o = c i in record { stopped = refl; started = o.started; enough = o.enough }
Step-Closing {s} (leaves e) z c i = Call-Closing z (leave-Call s e) i
Step-Closing {s} (works r before after p e k) z c i =
    let m = work-Turn s r p k in
    Turn-Closing before after (c (sym (ap is_inside (Turn-stage m)) ∙ i)) e m

Reach-Closing :
    {n interval : ℕ} {s : Pool} {h : History}
    → Reach n interval s h
    → is_inside s.stage ≡ false
    → Closing s
unfolding start_pool
Reach-Closing (starts now) i = cc
Reach-Closing (later r st) i = Step-Closing st (Reach-Sized r) (Reach-Closing r) i

module _ (s : Pool) (c : Closing s) where
  closed-Enabled : (p : Phase) → is_taking p ≤ length s.tasks → p ≢ ended → Enabled 0 s p
  unfolding work
  closed-Enabled opening q d = opening-Enabled s
  closed-Enabled opened q d = λ o. rw c.started refl
  closed-Enabled looping q d = λ o. refl
  closed-Enabled taking q d = λ o. take_entry-some s.tasks _ q
  closed-Enabled (holding t) q d = λ o. refl
  closed-Enabled (delayed t u) q d = λ o. rw c.stopped refl
  closed-Enabled (cleared t) q d = λ o. refl
  closed-Enabled (reading t u) q d = λ o. refl
  closed-Enabled leaving q d = leaving-Enabled s
  closed-Enabled ended q d = absurd (d refl)

-- Once the coordinator has closed the pool, at the end or because `__enter__` has failed, every
-- thread that has not ended can take a step at once, however its call ends: none waits for ever for
-- the start, a task or its turn.
pub Reach-ending :
    {n interval : ℕ} {s : Pool} {h : History} {e : Option Error}
    → Reach n interval s h
    → s.stage ≡ closed e
    → (before after : List Phase) (p : Phase) → s.threads ≡ before ++ p ∷ after
    → p ≢ ended
    → Enabled 0 s p
Reach-ending {s} r e before after p k d =
    closed-Enabled s c p
      (omega (arith, c.enough, tally-member is_taking s.threads before after p k)) d
  where
    c : Closing s
    c = Reach-Closing r (rw e refl)
