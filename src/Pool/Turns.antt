-- ===== src/Pool/Turns.antt =====
-- The steps of a thread as a relation, one constructor for each branch of `work`.
use searchcar_desktop.Base.{
  ℕ, ◌≡◌, refl, ◌≤◌, Bool, true, false, Option, none, some, List, [], ◌∷◌, ◌++◌, ◌+◌, leb, leb→le,
  if◌then◌else◌,
}
use mathlib.Core.Path.{subst}
use searchcar_desktop.Pool.{
  Error, DetailTask, DetailResult, Entry, job, stop_mark, Outcome, returned, raised, Phase, opening,
  opened, looping, taking, holding, delayed, cleared, reading, leaving, ended, Pool, turn,
  take_entry, finish_read, work,
}

pub data Turn (s : Pool) : Phase → Pool → Phase → Type 0 where
  reports : Turn s opening (record s { ready = s.ready ++ none ∷ [] }) opened
  fails : (e : Error) → Turn s opening (record s { ready = s.ready ++ some e ∷ [] }) ended
  starts_loop : s.start_event ≡ true → Turn s opened s looping
  continues : s.stop_event ≡ false → Turn s looping s taking
  breaks : s.stop_event ≡ true → Turn s looping s leaving
  takes :
      (t : DetailTask) (rest : List Entry)
      → s.tasks ≡ job t ∷ rest
      → Turn s taking (record s { tasks = rest }) (holding t)
  stops :
      (rest : List Entry)
      → s.tasks ≡ stop_mark ∷ rest
      → Turn s taking (record s { tasks = rest }) leaving
  books :
      (t : DetailTask)
      → Turn s
          (holding t)
          (record s { next_start_at = turn s + s.min_start_interval })
          (delayed t (turn s))
  gives_up : (t : DetailTask) (until : ℕ) → s.stop_event ≡ true → Turn s (delayed t until) s leaving
  clears :
      (t : DetailTask) (until : ℕ)
      → s.stop_event ≡ false
      → until ≤ s.clock
      → Turn s (delayed t until) s (cleared t)
  begins : (t : DetailTask) → Turn s (cleared t) s (reading t s.clock)
  finishes :
      (t : DetailTask) (since : ℕ) (r : DetailResult)
      → r.task ≡ t
      → Turn s (reading t since) (record s { results = s.results ++ r ∷ [] }) looping
  closes : Turn s leaving s ended
  closes_badly : (e : Error) → Turn s leaving (record s { ready = s.ready ++ some e ∷ [] }) ended

-- what holds of the result that a step returns
pub returns :
    (P : Pool → Phase → Type 0) {a b : Pool × Phase} → some a ≡ some b → P a.0 a.1 → P b.0 b.1
returns P {a} {b} h p = let e : a ≡ b = cc in subst (λ (r : Pool × Phase). P r.0 r.1) e p

module _ (s : Pool) where
  opened-Turn :
      (b : Bool) {t : Pool} {q : Phase}
      → s.start_event ≡ b
      → (if◌then◌else◌ {A = Option (Pool × Phase)} b (some (s, looping)) none) ≡ some (t, q)
      → Turn s opened t q
  opened-Turn true e h = returns (Turn s opened) h (starts_loop e)
  opened-Turn false e h = cc

  looping-Turn : (b : Bool) → s.stop_event ≡ b → Turn s looping s (if b then leaving else taking)
  looping-Turn true e = breaks e
  looping-Turn false e = continues e

  taking-Turn :
      (es : List Entry) {t : Pool} {q : Phase}
      → s.tasks ≡ es
      → take_entry es s ≡ some (t, q)
      → Turn s taking t q
  unfolding take_entry
  taking-Turn [] e h = cc
  taking-Turn (job t ∷ es) e h = returns (Turn s taking) h (takes t es e)
  taking-Turn (stop_mark ∷ es) e h = returns (Turn s taking) h (stops es e)

  delayed-Turn :
      (b c : Bool) (x : DetailTask) (until : ℕ) {t : Pool} {q : Phase}
      → s.stop_event ≡ b
      → leb until s.clock ≡ c
      → (if◌then◌else◌ {A = Option (Pool × Phase)} b
          (some (s, leaving))
          (if c then some (s, cleared x) else none))
        ≡ some (t, q)
      → Turn s (delayed x until) t q
  delayed-Turn true c x until e k h = returns (Turn s (delayed x until)) h (gives_up x until e)
  delayed-Turn false true x until e k h =
      returns (Turn s (delayed x until)) h (clears x until e (leb→le _ _ k))
  delayed-Turn false false x until e k h = cc

  finish_read-task : (t : DetailTask) (n : ℕ) (o : Outcome) → (finish_read t n o s).task ≡ t
  unfolding finish_read
  finish_read-task t n (returned d) = refl
  finish_read-task t n (raised e) = refl

  pub work-Turn :
      (o : Outcome) (p : Phase) {t : Pool} {q : Phase} → work o s p ≡ some (t, q) → Turn s p t q
  unfolding work
  work-Turn (returned _) opening h = returns (Turn s opening) h reports
  work-Turn (raised e) opening h = returns (Turn s opening) h (fails e)
  work-Turn o opened h = opened-Turn s.start_event refl h
  work-Turn o looping h = returns (Turn s looping) h (looping-Turn s.stop_event refl)
  work-Turn o taking h = taking-Turn s.tasks refl h
  work-Turn o (holding t) h = returns (Turn s (holding t)) h (books t)
  work-Turn o (delayed t until) h =
      delayed-Turn s.stop_event (leb until s.clock) t until refl refl h
  work-Turn o (cleared t) h = returns (Turn s (cleared t)) h (begins t)
  work-Turn o (reading t since) h =
      returns (Turn s (reading t since)) h (finishes t since _ (finish_read-task t since o))
  work-Turn (returned _) leaving h = returns (Turn s leaving) h closes
  work-Turn (raised e) leaving h = returns (Turn s leaving) h (closes_badly e)
  work-Turn o ended h = cc
