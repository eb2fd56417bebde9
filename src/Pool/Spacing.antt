-- ===== src/Pool/Spacing.antt =====
-- How far apart the turns are that `_wait_for_source_turn` gives out.
use searchcar_desktop.Base.{ℕ, ◌+◌, ◌≡◌, refl, ◌≤◌, Option, List, [], ◌∷◌, arith, ◌∙◌}
use searchcar_desktop.Pool.{
  Error, DetailTask, DetailResult, Entry, job, stop_mark, Phase, Pool, turn, start_pool, close,
  cancel,
}
use searchcar_desktop.Pool.Filling.{filled}
use searchcar_desktop.Pool.Calls.{
  Call, collected, exits, Collected, waits, begins, refuses, Submitted, Yielded, submitted, yielded,
  collect_ready-Call, time_out-Call, leave-Call, submit_all-Submitted, next_result-Yielded,
}
use searchcar_desktop.Pool.Turns.{
  Turn, reports, fails, starts_loop, continues, breaks, takes, stops, books, gives_up, clears,
  begins as begins_reading, finishes, closes, closes_badly, work-Turn,
}
use searchcar_desktop.Pool.Moves.{
  History, note_entry, note_work, Step, passes, collects, times_out, submits, yields, cancels,
  leaves, works, Reach, starts, later,
}

-- each time is at least the interval after the one before it in time, the next in the list
abbrev pub IsSpaced : ℕ → List ℕ → Type 0
IsSpaced d [] = Unit
IsSpaced d (a ∷ []) = Unit
IsSpaced d (a ∷ b ∷ rest) = (b + d ≤ a) × IsSpaced d (b ∷ rest)

-- the next turn is at least the interval after the last one
abbrev IsNext : ℕ → ℕ → List ℕ → Type 0
IsNext d next [] = Unit
IsNext d next (a ∷ _) = a + d ≤ next

pub record Spaced (d : ℕ) (s : Pool) (turns : List ℕ) : Type 0 where
  pub interval : s.min_start_interval ≡ d
  pub next : IsNext d s.next_start_at turns
  pub spaced : IsSpaced d turns

IsSpaced-cons :
    (d a next : ℕ) (turns : List ℕ)
    → next ≤ a
    → IsNext d next turns
    → IsSpaced d turns
    → IsSpaced d (a ∷ turns)
IsSpaced-cons d a next [] l n s = tt
IsSpaced-cons d a next (b ∷ rest) l n s = (omega (arith, n), s)

turn-le : (s : Pool) → s.next_start_at ≤ turn s
turn-le s = ground arith

note_entry-turns : (es : List Entry) (h : History) → (note_entry es h).turns ≡ h.turns
unfolding note_entry
note_entry-turns [] h = refl
note_entry-turns (job t ∷ es) h = refl
note_entry-turns (stop_mark ∷ es) h = refl

module _ {d : ℕ} {s : Pool} where
  -- a state with the same interval and the same next turn
  like :
      (t : Pool) {ts us : List ℕ}
      → t.min_start_interval ≡ s.min_start_interval
      → t.next_start_at ≡ s.next_start_at
      → us ≡ ts
      → Spaced d s ts
      → Spaced d t us
  like t e k u o = record {
    interval = e ∙ o.interval;
    next = rw (k, u) o.next;
    spaced = rw u o.spaced;
  }

  Collected-Spaced :
      {got : ℕ} {es : List Error} {rest : List (Option Error)} {t : Pool} {ts : List ℕ}
      → Collected s got es rest t
      → Spaced d s ts
      → Spaced d t ts
  unfolding close
  Collected-Spaced (waits _) o = like _ refl refl refl o
  Collected-Spaced (begins _ _) o = like _ refl refl refl o
  Collected-Spaced (refuses _) o = like _ refl refl refl o

  Call-Spaced : {t : Pool} {ts : List ℕ} → Call s t → Spaced d s ts → Spaced d t ts
  unfolding close
  Call-Spaced (collected _ _ _ _ _ _ c) o = Collected-Spaced c o
  Call-Spaced (exits e _) o = like _ refl refl refl o

  Submitted-Spaced :
      {tasks : List DetailTask} {t : Pool} {ts : List ℕ}
      → Submitted s tasks t
      → Spaced d s ts
      → Spaced d t ts
  Submitted-Spaced (submitted _ (filled _ _ _ _ _ _)) o = like _ refl refl refl o

  Yielded-Spaced :
      {r : DetailResult} {t : Pool} {ts : List ℕ} → Yielded s r t → Spaced d s ts → Spaced d t ts
  Yielded-Spaced (yielded _ _ _ _ _ (filled _ _ _ _ _ _)) o = like _ refl refl refl o

  Turn-Spaced :
      (ps : List Phase) (h : History) {p q : Phase} {t : Pool}
      → Turn s p t q
      → Spaced d s h.turns
      → Spaced d (record t { threads = ps }) (note_work s p h).turns
  unfolding note_work
  Turn-Spaced ps h reports o = like _ refl refl refl o
  Turn-Spaced ps h (fails _) o = like _ refl refl refl o
  Turn-Spaced ps h (starts_loop _) o = like _ refl refl refl o
  Turn-Spaced ps h (continues _) o = like _ refl refl refl o
  Turn-Spaced ps h (breaks _) o = like _ refl refl refl o
  Turn-Spaced ps h (takes _ _ _) o = like _ refl refl (note_entry-turns s.tasks h) o
  Turn-Spaced ps h (stops _ _) o = like _ refl refl (note_entry-turns s.tasks h) o
  Turn-Spaced ps h (books t) o = record {
    interval = o.interval;
    next = omega (arith, o.interval);
    spaced = IsSpaced-cons d (turn s) s.next_start_at h.turns (turn-le s) o.next o.spaced;
  }
  Turn-Spaced ps h (gives_up _ _ _) o = like _ refl refl refl o
  Turn-Spaced ps h (clears _ _ _ _) o = like _ refl refl refl o
  Turn-Spaced ps h (begins_reading _) o = like _ refl refl refl o
  Turn-Spaced ps h (finishes _ _ _ _) o = like _ refl refl refl o
  Turn-Spaced ps h closes o = like _ refl refl refl o
  Turn-Spaced ps h (closes_badly _) o = like _ refl refl refl o

Step-Spaced :
    {d : ℕ} {s t : Pool} {h k : History} → Step s h t k → Spaced d s h.turns → Spaced d t k.turns
unfolding cancel
Step-Spaced (passes n) o = like _ refl refl refl o
Step-Spaced {s} (collects e) o = Call-Spaced (collect_ready-Call s e) o
Step-Spaced {s} (times_out e) o = Call-Spaced (time_out-Call s e) o
Step-Spaced {s} (submits tasks e) o = Submitted-Spaced (submit_all-Submitted s tasks e) o
Step-Spaced {s} (yields e) o = Yielded-Spaced (next_result-Yielded s e) o
Step-Spaced cancels o = like _ refl refl refl o
Step-Spaced {s} (leaves e) o = Call-Spaced (leave-Call s e) o
Step-Spaced {s} {h} (works r before after p e k) o = Turn-Spaced _ h (work-Turn s r p k) o

-- In every state that the pool reaches, two turns that were given out are at least the interval
-- apart, and the times of the turns only grow.
pub Reach-Spaced :
    {n interval : ℕ} {s : Pool} {h : History} → Reach n interval s h → Spaced interval s h.turns
unfolding start_pool
Reach-Spaced (starts now) = record { interval = refl; next = tt; spaced = tt }
Reach-Spaced (later r st) = Step-Spaced st (Reach-Spaced r)
