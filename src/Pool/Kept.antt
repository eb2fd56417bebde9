-- ===== src/Pool/Kept.antt =====
-- Where the tasks are: pending, in the queue, with a thread, read and not yet taken, or yielded.
use searchcar_desktop.Base.{
  ℕ, ◌+◌, ◌≡◌, refl, ap, ◌∙◌, sym, ◌≤◌, Bool, true, false, Option, none, some, List, [], ◌∷◌, ◌++◌,
  arith, count_by, if◌then◌else◌,
}
use searchcar_desktop.Pool.{
  Error, DetailTask, DetailResult, Entry, job, Phase, leaving, taking, holding, delayed, cleared,
  reading, Pool, start_pool, turn, worker_count, close, cancel,
}
use searchcar_desktop.Pool.Counts.{waiting, tally, tally_step, tally-repeat, count_by-append}
use searchcar_desktop.Pool.Filling.{filled}
use searchcar_desktop.Pool.Calls.{
  Call, collected, exits, Collected, waits, begins, refuses, Submitted, submitted, Yielded, yielded,
  collect_ready-Call, time_out-Call, leave-Call, submit_all-Submitted, next_result-Yielded,
}
use searchcar_desktop.Pool.Turns.{
  Turn, reports, fails, starts_loop, continues, breaks, takes, stops, books, gives_up, clears,
  begins as begins_reading, finishes, closes, closes_badly, work-Turn,
}
use searchcar_desktop.Pool.Moves.{
  History, note_entry, note_work, Step, passes, collects, times_out, submits, yields, cancels,
  leaves, works, Reach, starts, later,
}
use searchcar_desktop.Pool.Order.{Reach-Ordered}

module _ (p : DetailTask → Bool) where
  abbrev one : DetailTask → ℕ
  one t = if p t then 1 else 0

  -- the tasks with a thread that pass the test
  abbrev pub held : Phase → ℕ
  held (holding t) = one t
  held (delayed t _) = one t
  held (cleared t) = one t
  held (reading t _) = one t
  held _ = 0

  -- and those of the results
  abbrev pub read : List DetailResult → ℕ
  read rs = count_by (λ (r : DetailResult). p r.task) rs

  -- the tasks that have been taken are with a thread or read; a stop may lose some
  pub record Kept (s : Pool) (h : History) : Type 0 where
    pub never : tally held s.threads + (read s.results + read h.yielded) ≤ count_by p h.taken
    pub kept :
        s.stop_event ≡ false
        → tally held s.threads + (read s.results + read h.yielded) ≡ count_by p h.taken

  module _ {s : Pool} {h : History} (o : Kept s h) where
    Collected-Kept :
        {got : ℕ} {es : List Error} {rest : List (Option Error)} {t : Pool}
        → Collected s got es rest t
        → Kept t h
    unfolding close
    Collected-Kept (waits _) = record { never = o.never; kept = o.kept }
    Collected-Kept (begins _ _) = record { never = o.never; kept = o.kept }
    Collected-Kept (refuses _) = record { never = o.never; kept = λ e. cc }

    Call-Kept : {t : Pool} → Call s t → Kept t h
    unfolding close
    Call-Kept (collected _ _ _ _ _ _ c) = Collected-Kept c
    Call-Kept (exits e _) = record { never = o.never; kept = λ e. cc }

    Submitted-Kept :
        (tasks : List DetailTask) {t : Pool}
        → Submitted s tasks t
        → Kept t (record h { submitted = h.submitted ++ tasks })
    Submitted-Kept tasks (submitted _ (filled _ _ _ _ _ _)) = record {
      never = o.never;
      kept = o.kept;
    }

    Yielded-Kept :
        {r : DetailResult} {t : Pool}
        → Yielded s r t
        → Kept t (record h { yielded = h.yielded ++ r ∷ [] })
    Yielded-Kept (yielded r rest e k i (filled _ _ _ _ _ _)) = record {
      never = omega (arith, o.never, moved);
      kept = λ f. omega (arith, o.kept k, moved);
    }
      where
        moved : read rest + read (h.yielded ++ r ∷ []) ≡ read s.results + read h.yielded
        moved =
            rw i
              (omega (arith, count_by-append (λ (x : DetailResult). p x.task) h.yielded (r ∷ [])))

    -- a step of a thread that keeps its task, if it has one
    steady :
        (before after : List Phase) (x y : Phase) (t : Pool)
        → s.threads ≡ before ++ x ∷ after
        → t.results ≡ s.results
        → t.stop_event ≡ s.stop_event
        → held y ≡ held x
        → Kept (record t { threads = before ++ y ∷ after }) h
    steady before after x y t e q k w = record {
      never = rw q (omega (arith, o.never, tally_step held s.threads before after x y e));
      kept = λ f.
          rw q (omega (arith, o.kept (sym k ∙ f), tally_step held s.threads before after x y e));
    }

    -- a step that may drop the task, after a stop
    dropped :
        (before after : List Phase) (x y : Phase)
        → s.threads ≡ before ++ x ∷ after
        → s.stop_event ≡ true
        → held y ≡ 0
        → Kept (record s { threads = before ++ y ∷ after }) h
    dropped before after x y e k w = record {
      never = omega (arith, o.never, tally_step held s.threads before after x y e);
      kept = λ f. absurd (cc);
    }

    taken_Kept :
        (before after : List Phase) (t : DetailTask) (rest : List Entry)
        → s.threads ≡ before ++ taking ∷ after
        → s.tasks ≡ job t ∷ rest
        → Kept
            (record s { tasks = rest; threads = before ++ holding t ∷ after })
            (note_entry s.tasks h)
    unfolding note_entry
    taken_Kept before after t rest e k = rw k (record {
      never = omega (arith, o.never, more, count_by-append p h.taken (t ∷ []));
      kept = λ f. omega (arith, o.kept f, more, count_by-append p h.taken (t ∷ []));
    })
      where
        more : tally held (before ++ holding t ∷ after) ≡ tally held s.threads + one t
        more = omega (arith, tally_step held s.threads before after taking (holding t) e)

    read_Kept :
        (before after : List Phase) (t : DetailTask) (u : ℕ) (r : DetailResult)
        → s.threads ≡ before ++ reading t u ∷ after
        → r.task ≡ t
        → Kept
            (record s { results = s.results ++ r ∷ []; threads = before ++ Phase.looping ∷ after })
            h
    read_Kept before after t u r e k = record {
      never = omega (arith, o.never, moved);
      kept = λ f. omega (arith, o.kept f, moved);
    }
      where
        moved :
            tally held (before ++ Phase.looping ∷ after) + read (s.results ++ r ∷ [])
            ≡ tally held s.threads + read s.results
        moved = omega (
          arith,
          tally_step held s.threads before after (reading t u) Phase.looping e,
          count_by-append (λ (x : DetailResult). p x.task) s.results (r ∷ []),
          ap one k,
        )

    Turn-Kept :
        (before after : List Phase) {x y : Phase} {t : Pool}
        → s.threads ≡ before ++ x ∷ after
        → Turn s x t y
        → Kept (record t { threads = before ++ y ∷ after }) (note_work s x h)
    unfolding note_work
    Turn-Kept before after e reports =
        steady before after _ _ (record s { ready = s.ready ++ none ∷ [] }) e refl refl refl
    Turn-Kept before after e (fails x) =
        steady before after _ _ (record s { ready = s.ready ++ some x ∷ [] }) e refl refl refl
    Turn-Kept before after e (starts_loop _) = steady before after _ _ s e refl refl refl
    Turn-Kept before after e (continues _) = steady before after _ _ s e refl refl refl
    Turn-Kept before after e (breaks _) = steady before after _ _ s e refl refl refl
    Turn-Kept before after e (takes t rest k) = taken_Kept before after t rest e k
    Turn-Kept before after e (stops rest k) =
        rw k (steady before after taking leaving (record s { tasks = rest }) e refl refl refl)
    Turn-Kept before after e (books t) =
        let k = steady before after (holding t) (delayed t (turn s)) s e refl refl refl in
        record { never = k.never; kept = k.kept }
    Turn-Kept before after e (gives_up t u k) = dropped before after (delayed t u) leaving e k refl
    Turn-Kept before after e (clears t u _ _) =
        steady before after (delayed t u) (cleared t) s e refl refl refl
    Turn-Kept before after e (begins_reading t) =
        steady before after (cleared t) (reading t s.clock) s e refl refl refl
    Turn-Kept before after e (finishes t u r k) = read_Kept before after t u r e k
    Turn-Kept before after e closes = steady before after _ _ s e refl refl refl
    Turn-Kept before after e (closes_badly x) =
        steady before after _ _ (record s { ready = s.ready ++ some x ∷ [] }) e refl refl refl

  Step-Kept : {s t : Pool} {h k : History} → Step s h t k → Kept s h → Kept t k
  unfolding cancel
  Step-Kept (passes n) o = record { never = o.never; kept = o.kept }
  Step-Kept {s} (collects e) o = Call-Kept o (collect_ready-Call s e)
  Step-Kept {s} (times_out e) o = Call-Kept o (time_out-Call s e)
  Step-Kept {s} (submits tasks e) o = Submitted-Kept o tasks (submit_all-Submitted s tasks e)
  Step-Kept {s} (yields e) o = Yielded-Kept o (next_result-Yielded s e)
  Step-Kept cancels o = record { never = o.never; kept = λ e. absurd (cc) }
  Step-Kept {s} (leaves e) o = Call-Kept o (leave-Call s e)
  Step-Kept {s} (works r before after x e k) o = Turn-Kept o before after e (work-Turn s r x k)

  pub Reach-Kept : {n interval : ℕ} {s : Pool} {h : History} → Reach n interval s h → Kept s h
  unfolding start_pool
  Reach-Kept {n} (starts now) =
      let z = tally-repeat held Phase.opening (worker_count n) refl in
      record { never = omega (arith, z); kept = λ _. omega (arith, z) }
  Reach-Kept (later r st) = Step-Kept st (Reach-Kept r)

  -- the tasks that pass the test, wherever they are
  abbrev pub accounted : Pool → History → ℕ
  accounted s h =
      count_by p s.pending
      + (count_by p (waiting s.tasks) + (tally held s.threads + (read s.results + read h.yielded)))

  -- every task that was submitted has been taken, or is in the queue or pending
  submitted-taken :
      {n interval : ℕ} {s : Pool} {h : History}
      → Reach n interval s h
      → count_by p h.taken + (count_by p (waiting s.tasks) + count_by p s.pending)
        ≡ count_by p h.submitted
  submitted-taken {s} {h} r = omega (
    arith,
    ap (count_by p) (Reach-Ordered r).order,
    count_by-append p h.taken (waiting s.tasks ++ s.pending),
    count_by-append p (waiting s.tasks) s.pending,
  )

  -- In every state that the pool reaches, the tasks that the threads have taken, those in the queue
  -- and those that are pending are in order the ones that were submitted, and of the tasks that pass
  -- a given test no more are pending, queued, with a thread or read than were submitted.
  pub Reach-in_order :
      {n interval : ℕ} {s : Pool} {h : History}
      → Reach n interval s h
      → (h.taken ++ (waiting s.tasks ++ s.pending) ≡ h.submitted)
        × (accounted s h ≤ count_by p h.submitted)
  Reach-in_order r =
      ((Reach-Ordered r).order, omega (arith, (Reach-Kept r).never, submitted-taken r))

  -- In every state that the pool reaches without being stopped, exactly as many tasks that pass a
  -- given test are pending, queued, with a thread or read as were submitted.
  pub Reach-accounted :
      {n interval : ℕ} {s : Pool} {h : History}
      → Reach n interval s h
      → s.stop_event ≡ false
      → accounted s h ≡ count_by p h.submitted
  Reach-accounted r e = omega (arith, (Reach-Kept r).kept e, submitted-taken r)
