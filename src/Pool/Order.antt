-- ===== src/Pool/Order.antt =====
-- The order in which the threads take the tasks: the one in which they were submitted.
use searchcar_desktop.Base.{
  ℕ, ◌≡◌, refl, sym, ◌∙◌, ap, Bool, true, false, Option, some, List, [], ◌∷◌, ◌++◌, arith,
}
use searchcar_desktop.Pool.{
  Error, DetailTask, DetailResult, Phase, Stage, entering, entered, Pool, start_pool, capacity,
  close, note_failure, cancel,
}
use searchcar_desktop.Pool.Counts.{waiting, append_assoc, append_nil, append_one}
use searchcar_desktop.Pool.Filling.{filled, put_stops-waiting}
use searchcar_desktop.Pool.Calls.{
  Call, collected, exits, Collected, waits, begins, refuses, Submitted, submitted, Yielded, yielded,
  collect_ready-Call, time_out-Call, leave-Call, submit_all-Submitted, next_result-Yielded,
}
use searchcar_desktop.Pool.Turns.{
  Turn, reports, fails, starts_loop, continues, breaks, takes, stops, books, gives_up, clears,
  begins as begins_reading, finishes, closes, closes_badly, work-Turn,
}
use searchcar_desktop.Pool.Moves.{
  no_history, History, note_work, Step, passes, collects, times_out, submits, yields, cancels,
  leaves, works, Reach, starts, later,
}

-- nothing has been submitted yet
abbrev pub is_idle : Stage → Bool
is_idle (entering _ _) = true
is_idle entered = true
is_idle _ = false

pub record Ordered (s : Pool) (h : History) : Type 0 where
  pub order : h.taken ++ (waiting s.tasks ++ s.pending) ≡ h.submitted
  pub fresh : is_idle s.stage ≡ true → s.pending ≡ []

-- the same queue, by its tasks, and the same pending tasks
abbrev Alike : Pool → Pool → Type 0
Alike s t =
    (waiting t.tasks ++ t.pending ≡ waiting s.tasks ++ s.pending)
    × (is_idle t.stage ≡ true → (is_idle s.stage ≡ true) × (t.pending ≡ s.pending))

Alike-Ordered : (s t : Pool) (h : History) → Alike s t → Ordered s h → Ordered t h
Alike-Ordered s t h (e, f) o = record {
  order = rw e o.order;
  fresh = λ i. (f i).1 ∙ o.fresh (f i).0;
}

close-Alike : (e : Option Error) (s : Pool) → Alike s (close e s)
unfolding close
close-Alike e s =
    (ap (λ ts. ts ++ s.pending) (put_stops-waiting (capacity s) s.threads s.tasks), λ i. cc i)

Collected-Alike :
    (s : Pool) (got : ℕ) (es : List Error) (rest : List (Option Error)) {t : Pool}
    → is_idle s.stage ≡ true
    → Collected s got es rest t
    → Alike s t
Collected-Alike s got es rest i (waits _) = (refl, λ _. (i, refl))
Collected-Alike s got es rest i (begins _ _) = (refl, λ _. (i, refl))
Collected-Alike s got es rest i (refuses e) = close-Alike (some e) (record s { ready = rest })

Call-Alike : {s t : Pool} → Call s t → Alike s t
Call-Alike {s} (collected got es r rest e k c) =
    Collected-Alike s got (note_failure r es) rest (rw e refl) c
Call-Alike {s} (exits e _) = close-Alike e s

module _ {s : Pool} {h : History} (o : Ordered s h) where
  -- the threads that take no task
  same : (t : Pool) → Alike s t → Ordered t h
  same t a = Alike-Ordered s t h a o

  Turn-Ordered :
      (ps : List Phase) {p q : Phase} {t : Pool}
      → Turn s p t q
      → Ordered (record t { threads = ps }) (note_work s p h)
  unfolding note_work
  Turn-Ordered ps reports = record { order = o.order; fresh = o.fresh }
  Turn-Ordered ps (fails e) = record { order = o.order; fresh = o.fresh }
  Turn-Ordered ps (starts_loop e) = record { order = o.order; fresh = o.fresh }
  Turn-Ordered ps (continues e) = record { order = o.order; fresh = o.fresh }
  Turn-Ordered ps (breaks e) = record { order = o.order; fresh = o.fresh }
  Turn-Ordered ps (takes t rest e) = record {
    order = rw e (
        append_one h.taken t (waiting rest ++ s.pending)
        ∙ (ap (λ ws. h.taken ++ (ws ++ s.pending)) (sym (ap waiting e)) ∙ o.order));
    fresh = o.fresh;
  }
  Turn-Ordered ps (stops rest e) = record {
    order = rw e (ap (λ ws. h.taken ++ (ws ++ s.pending)) (sym (ap waiting e)) ∙ o.order);
    fresh = o.fresh;
  }
  Turn-Ordered ps (books t) = record { order = o.order; fresh = o.fresh }
  Turn-Ordered ps (gives_up t u e) = record { order = o.order; fresh = o.fresh }
  Turn-Ordered ps (clears t u e k) = record { order = o.order; fresh = o.fresh }
  Turn-Ordered ps (begins_reading t) = record { order = o.order; fresh = o.fresh }
  Turn-Ordered ps (finishes t u r e) = record { order = o.order; fresh = o.fresh }
  Turn-Ordered ps closes = record { order = o.order; fresh = o.fresh }
  Turn-Ordered ps (closes_badly e) = record { order = o.order; fresh = o.fresh }

  drained : s.stage ≡ entered → h.taken ++ waiting s.tasks ≡ h.submitted
  drained e =
      ap (λ ws. h.taken ++ ws)
        (sym (append_nil (waiting s.tasks))
          ∙ ap (λ ps. waiting s.tasks ++ ps) (sym (o.fresh (rw e refl))))
      ∙ o.order

  Submitted-Ordered :
      (tasks : List DetailTask) {t : Pool}
      → Submitted s tasks t
      → Ordered t (record h { submitted = h.submitted ++ tasks })
  Submitted-Ordered tasks (submitted e (filled q ps w _ _ _)) = record {
    order =
        ap (λ ws. h.taken ++ ws) w
        ∙ (sym (append_assoc h.taken (waiting s.tasks) tasks) ∙ ap (λ ws. ws ++ tasks) (drained e));
    fresh = λ i. absurd (cc);
  }

  Yielded-Ordered :
      {r : DetailResult} {t : Pool}
      → Yielded s r t
      → Ordered t (record h { yielded = h.yielded ++ r ∷ [] })
  Yielded-Ordered (yielded r rest e k i (filled q ps w _ _ _)) = record {
    order = ap (λ ws. h.taken ++ ws) w ∙ o.order;
    fresh = λ f. absurd (ground arith);
  }

pub Step-Ordered : {s t : Pool} {h k : History} → Step s h t k → Ordered s h → Ordered t k
unfolding cancel
Step-Ordered (passes n) o = record { order = o.order; fresh = o.fresh }
Step-Ordered {s} {t} {h} (collects e) o = same o t (Call-Alike (collect_ready-Call s e))
Step-Ordered {s} {t} {h} (times_out e) o = same o t (Call-Alike (time_out-Call s e))
Step-Ordered {s} (submits tasks e) o = Submitted-Ordered o tasks (submit_all-Submitted s tasks e)
Step-Ordered {s} (yields e) o = Yielded-Ordered o (next_result-Yielded s e)
Step-Ordered {s} {t} {h} cancels o = record { order = o.order; fresh = o.fresh }
Step-Ordered {s} {t} {h} (leaves e) o = same o t (Call-Alike (leave-Call s e))
Step-Ordered {s} (works r before after p e k) o = Turn-Ordered o _ (work-Turn s r p k)

start_pool-Ordered : (n interval now : ℕ) → Ordered (start_pool n interval now) no_history
unfolding start_pool
start_pool-Ordered n interval now = record { order = refl; fresh = λ _. refl }

pub Reach-Ordered : {n interval : ℕ} {s : Pool} {h : History} → Reach n interval s h → Ordered s h
Reach-Ordered {n} {interval} (starts now) = start_pool-Ordered n interval now
Reach-Ordered (later r st) = Step-Ordered st (Reach-Ordered r)
