-- ===== src/Pool/Stops.antt =====
-- A pool that has been stopped stays so.
use searchcar_desktop.Base.{ℕ, ◌≡◌, refl, ◌∙◌, sym, false, Option, List}
use searchcar_desktop.Pool.{Error, DetailTask, DetailResult, Phase, Pool, close, cancel}
use searchcar_desktop.Pool.Filling.{filled}
use searchcar_desktop.Pool.Calls.{
  Call, collected, exits, Collected, waits, begins, refuses, Submitted, submitted, Yielded, yielded,
  collect_ready-Call, time_out-Call, leave-Call, submit_all-Submitted, next_result-Yielded,
}
use searchcar_desktop.Pool.Turns.{
  Turn, reports, fails, starts_loop, continues, breaks, takes, stops, books, gives_up, clears,
  begins as begins_reading, finishes, closes, closes_badly, work-Turn,
}
use searchcar_desktop.Pool.Moves.{
  History, Step, passes, collects, times_out, submits, yields, cancels, leaves, works,
}

module _ {s : Pool} where
  Collected-stop :
      {got : ℕ} {es : List Error} {rest : List (Option Error)} {t : Pool}
      → Collected s got es rest t
      → t.stop_event ≡ false
      → s.stop_event ≡ false
  unfolding close
  Collected-stop (waits _) f = f
  Collected-stop (begins _ _) f = f
  Collected-stop (refuses _) f = cc

  Call-stop : {t : Pool} → Call s t → t.stop_event ≡ false → s.stop_event ≡ false
  unfolding close
  Call-stop (collected _ _ _ _ _ _ c) f = Collected-stop c f
  Call-stop (exits e _) f = cc

  Submitted-stop :
      {tasks : List DetailTask} {t : Pool}
      → Submitted s tasks t
      → t.stop_event ≡ false
      → s.stop_event ≡ false
  Submitted-stop (submitted _ (filled _ _ _ _ _ _)) f = f

  Yielded-stop :
      {r : DetailResult} {t : Pool} → Yielded s r t → t.stop_event ≡ false → s.stop_event ≡ false
  Yielded-stop (yielded _ _ _ k _ _) f = k

  pub Turn-stop : {p q : Phase} {t : Pool} → Turn s p t q → t.stop_event ≡ s.stop_event
  Turn-stop reports = refl
  Turn-stop (fails _) = refl
  Turn-stop (starts_loop _) = refl
  Turn-stop (continues _) = refl
  Turn-stop (breaks _) = refl
  Turn-stop (takes _ _ _) = refl
  Turn-stop (stops _ _) = refl
  Turn-stop (books _) = refl
  Turn-stop (gives_up _ _ _) = refl
  Turn-stop (clears _ _ _ _) = refl
  Turn-stop (begins_reading _) = refl
  Turn-stop (finishes _ _ _ _) = refl
  Turn-stop closes = refl
  Turn-stop (closes_badly _) = refl

-- a stop is never taken back
pub Step-stop :
    {s t : Pool} {h k : History} → Step s h t k → t.stop_event ≡ false → s.stop_event ≡ false
unfolding cancel
Step-stop (passes n) f = f
Step-stop {s} (collects e) f = Call-stop (collect_ready-Call s e) f
Step-stop {s} (times_out e) f = Call-stop (time_out-Call s e) f
Step-stop {s} (submits tasks e) f = Submitted-stop (submit_all-Submitted s tasks e) f
Step-stop {s} (yields e) f = Yielded-stop (next_result-Yielded s e) f
Step-stop cancels f = cc
Step-stop {s} (leaves e) f = Call-stop (leave-Call s e) f
Step-stop {s} (works r before after p e k) f = sym (Turn-stop (work-Turn s r p k)) ∙ f
