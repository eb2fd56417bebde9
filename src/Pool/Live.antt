-- ===== src/Pool/Live.antt =====
-- What holds of a pool while it is not stopped: no thread leaves, the threads that have failed have
-- told so, and what is pending is pending because the rest of the way is full.
use mathlib.Core.Path.{subst}
use searchcar_desktop.Base.{
  ℕ, zero, suc, ◌+◌, ◌≡◌, ◌⊎◌, inl, refl, ap, ◌∙◌, sym, ◌≤◌, false, Option, none, some, is_some,
  List, [], ◌∷◌, ◌++◌, arith, count_by, length,
}
use searchcar_desktop.Pool.{
  Error, DetailTask, DetailResult, Phase, opening, opened, looping, leaving, taking, holding,
  delayed, cleared, reading, ended, entering, Pool, start_pool, turn, worker_count, capacity, close,
  cancel, repeat, note_failure,
}
use searchcar_desktop.Pool.Counts.{
  tally, tally_step, tally-member, tally-repeat, length-append, busy, is_opening, is_leaving,
  is_ended,
}
use searchcar_desktop.Pool.Filling.{marks, filled}
use searchcar_desktop.Pool.Calls.{
  Call, collected, exits, Collected, waits, begins, refuses, Submitted, submitted, Yielded, yielded,
  collect_ready-Call, time_out-Call, leave-Call, submit_all-Submitted, next_result-Yielded,
}
use searchcar_desktop.Pool.Turns.{
  Turn, reports, fails, starts_loop, continues, breaks, takes, stops, books, gives_up, clears,
  begins as begins_reading, finishes, closes, closes_badly, work-Turn,
}
use searchcar_desktop.Pool.Moves.{
  History, Step, passes, collects, times_out, submits, yields, cancels, leaves, works, Reach,
  starts, later,
}
use searchcar_desktop.Pool.Shape.{Sized, Reach-Sized}
use searchcar_desktop.Pool.Staged.{
  Staged, Staged-same, Staged-reports, count_by-le_length, note_failure-length,
}
use searchcar_desktop.Pool.Stops.{Turn-stop, Step-stop}

pub record Live (s : Pool) : Type 0 where
  pub unmarked : marks s.tasks ≡ 0
  pub staying : tally is_leaving s.threads ≡ 0
  pub full :
      (s.pending ≡ []) ⊎ (capacity s ≤ length s.tasks + (tally busy s.threads + length s.results))
  pub staged : Staged s s.stage

module _ {s : Pool} (l : Live s) where
  -- one more thread has reported
  one_more :
      (got : ℕ) (es : List Error) (r : Option Error) (rest : List (Option Error))
      → s.stage ≡ entering got es
      → s.ready ≡ r ∷ rest
      → (suc got + (length rest + tally is_opening s.threads) ≡ s.workers)
        × (length (note_failure r es) + count_by is_some rest ≡ tally is_ended s.threads)
        × (length (note_failure r es) ≤ suc got)
  one_more got es r rest e k = (
    omega (arith, was.0, ap length k),
    omega (arith, was.1, note_failure-length r es, ap (count_by is_some) k),
    omega (arith, was.2, note_failure-length r es, count_by-le_length is_some (r ∷ [])),
  )
    where
      was : Staged s (entering got es)
      was = subst (Staged s) e l.staged

  Collected-Live :
      (got : ℕ) (es : List Error) (r : Option Error) (rest : List (Option Error)) {t : Pool}
      → Sized s
      → t.stop_event ≡ false
      → s.stage ≡ entering got es
      → s.ready ≡ r ∷ rest
      → Collected s got (note_failure r es) rest t
      → Live t
  unfolding close
  Collected-Live got es r rest z f e k (waits w) = record {
    unmarked = l.unmarked;
    staying = l.staying;
    full = l.full;
    staged = one_more got es r rest e k;
  }
  Collected-Live got es r rest z f e k (begins g d) = record {
    unmarked = l.unmarked;
    staying = l.staying;
    full = l.full;
    staged =
        let now = one_more got es r rest e k in
        (
          refl,
          omega (arith, now.0, g),
          ground (arith, now.0, now.1, now.2, g, d, count_by-le_length is_some rest, z.some_worker),
        );
  }
  Collected-Live got es r rest z f e k (refuses x) = cc

  Call-Live : {t : Pool} → Sized s → t.stop_event ≡ false → Call s t → Live t
  unfolding close
  Call-Live z f (collected got es r rest e k c) = Collected-Live got es r rest z f e k c
  Call-Live z f (exits e _) = cc

  Submitted-Live :
      {tasks : List DetailTask} {t : Pool} → t.stop_event ≡ false → Submitted s tasks t → Live t
  Submitted-Live f (submitted e (filled q ps w b m d)) = record {
    unmarked = m ∙ l.unmarked;
    staying = l.staying;
    full = ground (arith, d f);
    staged = subst (Staged s) e l.staged;
  }

  Yielded-Live : {r : DetailResult} {t : Pool} → t.stop_event ≡ false → Yielded s r t → Live t
  Yielded-Live f (yielded r rest e k i (filled q ps w b m d)) = record {
    unmarked = m ∙ l.unmarked;
    staying = l.staying;
    full = ground (arith, d f);
    staged = l.staged;
  }

  module _ (before after : List Phase) where
    -- a step of a thread that stays, after its reader has opened
    stays :
        (p q : Phase) (t : Pool)
        → s.threads ≡ before ++ p ∷ after
        → t.ready ≡ s.ready
        → t.start_event ≡ s.start_event
        → t.workers ≡ s.workers
        → t.stage ≡ s.stage
        → t.pending ≡ s.pending
        → marks t.tasks ≡ 0
        → length s.tasks + (busy p + length s.results)
          ≡ length t.tasks + (busy q + length t.results)
        → (is_opening p ≡ 0)
          × (is_opening q ≡ 0)
          × (is_ended p ≡ 0)
          × (is_ended q ≡ 0)
          × (is_leaving q ≡ is_leaving p)
        → Live (record t { threads = before ++ q ∷ after })
    stays p q t e r a w g d m n (o, o', x, x', y) = record {
      unmarked = m;
      staying = omega (arith, l.staying, y, tally_step is_leaving s.threads before after p q e);
      full = rw (d, w) (ground (arith, l.full, n, tally_step busy s.threads before after p q e));
      staged = rw g (
          Staged-same s.stage s (record t { threads = before ++ q ∷ after }) r a w
            (omega (arith, o, o', tally_step is_opening s.threads before after p q e))
            (omega (arith, x, x', tally_step is_ended s.threads before after p q e)) l.staged);
    }

    -- a thread reports
    told :
        (r : Option Error) (q : Phase)
        → s.threads ≡ before ++ opening ∷ after
        → is_ended q ≡ count_by is_some (r ∷ [])
        → (is_opening q ≡ 0) × (is_leaving q ≡ 0) × (busy q ≡ 0)
        → Live (record s { ready = s.ready ++ r ∷ []; threads = before ++ q ∷ after })
    told r q e x (o, y, b) = record {
      unmarked = l.unmarked;
      staying =
          omega (arith, l.staying, y, tally_step is_leaving s.threads before after opening q e);
      full = ground (arith, l.full, b, tally_step busy s.threads before after opening q e);
      staged =
          Staged-reports s.stage r s
            (record s { ready = s.ready ++ r ∷ []; threads = before ++ q ∷ after }) refl refl
            (omega (arith, o, tally_step is_opening s.threads before after opening q e))
            (omega (arith, x, tally_step is_ended s.threads before after opening q e)) l.staged;
    }

    Turn-Live :
        {p q : Phase} {t : Pool}
        → s.stop_event ≡ false
        → s.threads ≡ before ++ p ∷ after
        → Turn s p t q
        → Live (record t { threads = before ++ q ∷ after })
    Turn-Live f e reports = told none opened e refl (refl, refl, refl)
    Turn-Live f e (fails x) = told (some x) ended e refl (refl, refl, refl)
    Turn-Live f e (starts_loop _) =
        stays opened looping s e refl refl refl refl refl l.unmarked refl
          (refl, refl, refl, refl, refl)
    Turn-Live f e (continues _) =
        stays looping taking s e refl refl refl refl refl l.unmarked refl
          (refl, refl, refl, refl, refl)
    Turn-Live f e (breaks k) = cc
    Turn-Live f e (takes t rest k) =
        stays taking (holding t) (record s { tasks = rest }) e refl refl refl refl refl
          (sym (ap marks k) ∙ l.unmarked) (omega (arith, ap length k))
          (refl, refl, refl, refl, refl)
    Turn-Live f e (stops rest k) = absurd (omega (arith, ap marks k, l.unmarked))
    Turn-Live f e (books t) =
        stays (holding t) (delayed t (turn s))
          (record s { next_start_at = turn s + s.min_start_interval }) e refl refl refl refl refl
          l.unmarked refl (refl, refl, refl, refl, refl)
    Turn-Live f e (gives_up t u k) = cc
    Turn-Live f e (clears t u _ _) =
        stays (delayed t u) (cleared t) s e refl refl refl refl refl l.unmarked refl
          (refl, refl, refl, refl, refl)
    Turn-Live f e (begins_reading t) =
        stays (cleared t) (reading t s.clock) s e refl refl refl refl refl l.unmarked refl
          (refl, refl, refl, refl, refl)
    Turn-Live f e (finishes t u r k) =
        stays (reading t u) looping (record s { results = s.results ++ r ∷ [] }) e refl refl refl
          refl refl l.unmarked (omega (arith, length-append s.results (r ∷ [])))
          (refl, refl, refl, refl, refl)
    Turn-Live f e closes =
        absurd (omega (arith, l.staying, tally-member is_leaving s.threads before after leaving e))
    Turn-Live f e (closes_badly x) =
        absurd (omega (arith, l.staying, tally-member is_leaving s.threads before after leaving e))

tally-opening : (n : ℕ) → 0 + (0 + tally is_opening (repeat n opening)) ≡ n
tally-opening zero = refl
tally-opening (suc n) = omega (arith, tally-opening n)

Step-Live :
    {s t : Pool} {h k : History} → Step s h t k → t.stop_event ≡ false → Live s → Sized s → Live t
unfolding cancel
Step-Live {s} {t} (passes n) f l z = record {
  unmarked = l.unmarked;
  staying = l.staying;
  full = l.full;
  staged = Staged-same s.stage s t refl refl refl refl refl l.staged;
}
Step-Live {s} (collects e) f l z = Call-Live l z f (collect_ready-Call s e)
Step-Live {s} (times_out e) f l z = Call-Live l z f (time_out-Call s e)
Step-Live {s} (submits tasks e) f l z = Submitted-Live l f (submit_all-Submitted s tasks e)
Step-Live {s} (yields e) f l z = Yielded-Live l f (next_result-Yielded s e)
Step-Live cancels f l z = cc
Step-Live {s} (leaves e) f l z = Call-Live l z f (leave-Call s e)
Step-Live {s} (works r before after p e k) f l z =
    let m = work-Turn s r p k in Turn-Live l before after (sym (Turn-stop m) ∙ f) e m

pub Reach-Live :
    {n interval : ℕ} {s : Pool} {h : History} → Reach n interval s h → s.stop_event ≡ false → Live s
unfolding start_pool
Reach-Live {n} (starts now) f = record {
  unmarked = refl;
  staying = tally-repeat is_leaving opening (worker_count n) refl;
  full = inl refl;
  staged = (
    tally-opening (worker_count n),
    sym (tally-repeat is_ended opening (worker_count n) refl),
    omega arith,
  );
}
Reach-Live (later r st) f = Step-Live st f (Reach-Live r (Step-stop st f)) (Reach-Sized r)
