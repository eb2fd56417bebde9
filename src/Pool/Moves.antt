-- ===== src/Pool/Moves.antt =====
-- The steps of the pool, of its threads and of its coordinator in any order, and what has happened
-- on the way to a state.
use searchcar_desktop.Base.{ℕ, ◌+◌, ◌≡◌, some, List, [], ◌∷◌, ◌++◌}
use searchcar_desktop.Pool.{
  DetailTask, DetailResult, Entry, job, Outcome, Phase, taking, holding, Pool, turn, start_pool,
  collect_ready, time_out, submit_all, next_result, cancel, leave, work,
}

-- the tasks that were submitted and those that the threads have taken, in order; the results that
-- the coordinator has; the times of the turns that were given out, the last one first
pub record History : Type 0 where
  pub submitted : List DetailTask
  pub taken : List DetailTask
  pub yielded : List DetailResult
  pub turns : List ℕ

abbrev pub no_history : History
no_history = record { submitted = []; taken = []; yielded = []; turns = [] }

unfoldable pub note_entry : List Entry → History → History
note_entry (job t ∷ _) h = record h { taken = h.taken ++ t ∷ [] }
note_entry _ h = h

-- what a step of a thread adds
unfoldable pub note_work : Pool → Phase → History → History
unfolding note_entry
note_work s taking h = note_entry s.tasks h
note_work s (holding t) h = record h { turns = turn s ∷ h.turns }
note_work s _ h = h

pub data Step (s : Pool) (h : History) : Pool → History → Type 0 where
  passes : (n : ℕ) → Step s h (record s { clock = s.clock + n }) h
  collects : {t : Pool} → collect_ready s ≡ some t → Step s h t h
  times_out : {t : Pool} → time_out s ≡ some t → Step s h t h
  submits :
      (tasks : List DetailTask) {t : Pool}
      → submit_all tasks s ≡ some t
      → Step s h t (record h { submitted = h.submitted ++ tasks })
  yields :
      {r : DetailResult} {t : Pool}
      → next_result s ≡ some (r, t)
      → Step s h t (record h { yielded = h.yielded ++ r ∷ [] })
  cancels : Step s h (cancel s) h
  leaves : {t : Pool} → leave s ≡ some t → Step s h t h
  works :
      (o : Outcome) (before after : List Phase) (p : Phase) {q : Phase} {t : Pool}
      → s.threads ≡ before ++ p ∷ after
      → work o s p ≡ some (t, q)
      → Step s h (record t { threads = before ++ q ∷ after }) (note_work s p h)

-- the states of a pool of so many workers, with that interval
pub data Reach (n interval : ℕ) : Pool → History → Type 0 where
  starts : (now : ℕ) → Reach n interval (start_pool n interval now) no_history
  later : {s t : Pool} {h k : History} → Reach n interval s h → Step s h t k → Reach n interval t k
