-- ===== src/Pool/Progress.antt =====
-- The coordinator's wait for results comes to an end: while the pool is not stopped and a result is
-- still to come, there is a result to take or a thread that can move.
use mathlib.Core.Path.{subst}
use searchcar_desktop.Base.{
  ℕ, zero, suc, ◌+◌, ◌≡◌, ◌⊎◌, inl, inr, refl, ap, ◌≤◌, ◌<◌, true, false, some, is_some, List, [],
  ◌∷◌, ◌++◌, arith, count_by, length,
}
use searchcar_desktop.Pool.{
  DetailResult, Entry, job, stop_mark, Outcome, returned, raised, Phase, opening, opened, looping,
  leaving, taking, holding, delayed, cleared, reading, ended, consuming, Pool, fill_task_queue,
  take_entry, take_first, next_result, work,
}
use searchcar_desktop.Pool.Counts.{tally, waiting, busy, is_ended}
use searchcar_desktop.Pool.Moves.{History, Reach}
use searchcar_desktop.Pool.Shape.{Sized, Reach-Sized}
use searchcar_desktop.Pool.Staged.{Staged}
use searchcar_desktop.Pool.Live.{Live, Reach-Live}
use searchcar_desktop.Pool.Kept.{held, read, accounted, Reach-accounted}

-- a thread that can take a step in n ticks, however a call that it waits for ends
abbrev pub Enabled : ℕ → Pool → Phase → Type 0
Enabled n s p = (o : Outcome) → is_some (work o (record s { clock = s.clock + n }) p) ≡ true

-- one of the threads can
abbrev pub CanWork : Pool → Type 0
CanWork s =
    (p : Phase) × (before : List Phase) × (after : List Phase) × (n : ℕ) × (s.threads
      ≡ before ++ p ∷ after)
    × Enabled n s p

abbrev is_live : Phase → ℕ
is_live ended = 0
is_live _ = 1

-- one of the threads has the weight
abbrev Weighs : (Phase → ℕ) → List Phase → Type 0
Weighs w ps =
    (p : Phase) × (before : List Phase) × (after : List Phase) × (ps ≡ before ++ p ∷ after)
    × (0 < w p)

tally-find : (w : Phase → ℕ) (ps : List Phase) → 0 < tally w ps → Weighs w ps
tally-find w [] h = absurd (omega arith)
tally-find w (p ∷ ps) h = at (w p) refl (tally-find w ps)
  where
    at : (n : ℕ) → w p ≡ n → (0 < tally w ps → Weighs w ps) → Weighs w (p ∷ ps)
    at (suc n) e ih = (p, [], ps, refl, omega (arith, e))
    at zero e ih =
        let (q, before, after, k, l) = ih (omega (arith, h, e)) in
        (q, p ∷ before, after, ap (λ xs. p ∷ xs) k, l)

tally-live : (ps : List Phase) → tally is_live ps + tally is_ended ps ≡ length ps
tally-live [] = refl
tally-live (p ∷ ps) = omega (arith, one p, tally-live ps)
  where
    one : (q : Phase) → is_live q + is_ended q ≡ 1
    one opening = refl
    one opened = refl
    one looping = refl
    one taking = refl
    one (holding _) = refl
    one (delayed _ _) = refl
    one (cleared _) = refl
    one (reading _ _) = refl
    one leaving = refl
    one ended = refl

pub take_entry-some :
    (es : List Entry) (t : Pool) → 0 < length es → is_some (take_entry es t) ≡ true
unfolding take_entry
take_entry-some [] t h = absurd (omega arith)
take_entry-some (job x ∷ es) t h = refl
take_entry-some (stop_mark ∷ es) t h = refl

module _ (s : Pool) where
  pub opening-Enabled : Enabled 0 s opening
  unfolding work
  opening-Enabled (returned _) = refl
  opening-Enabled (raised _) = refl

  pub leaving-Enabled : Enabled 0 s leaving
  unfolding work
  leaving-Enabled (returned _) = refl
  leaving-Enabled (raised _) = refl

module _ (s : Pool) (running : s.stop_event ≡ false) where
  busy-Enabled : (p : Phase) → 0 < busy p → (n : ℕ) × Enabled n s p
  unfolding work
  busy-Enabled (holding t) h = (0, λ o. refl)
  busy-Enabled (delayed t until) h = (until, λ o. rw running (ground arith))
  busy-Enabled (cleared t) h = (0, λ o. refl)
  busy-Enabled (reading t since) h = (0, λ o. refl)
  busy-Enabled opening h = absurd (omega arith)
  busy-Enabled opened h = absurd (omega arith)
  busy-Enabled looping h = absurd (omega arith)
  busy-Enabled taking h = absurd (omega arith)
  busy-Enabled leaving h = absurd (omega arith)
  busy-Enabled ended h = absurd (omega arith)

  live-Enabled :
      (p : Phase)
      → 0 < is_live p
      → s.start_event ≡ true
      → 0 < length s.tasks
      → (n : ℕ) × Enabled n s p
  unfolding work
  live-Enabled opening h b q = (0, opening-Enabled s)
  live-Enabled opened h b q = (0, λ o. rw b refl)
  live-Enabled looping h b q = (0, λ o. refl)
  live-Enabled taking h b q = (0, λ o. take_entry-some s.tasks _ q)
  live-Enabled leaving h b q = (0, leaving-Enabled s)
  live-Enabled ended h b q = absurd (omega arith)
  live-Enabled (holding t) h b q = busy-Enabled (holding t) (omega arith)
  live-Enabled (delayed t until) h b q = busy-Enabled (delayed t until) (omega arith)
  live-Enabled (cleared t) h b q = busy-Enabled (cleared t) (omega arith)
  live-Enabled (reading t since) h b q = busy-Enabled (reading t since) (omega arith)

  busy-CanWork : 0 < tally busy s.threads → CanWork s
  busy-CanWork h =
      let (p, before, after, e, w) = tally-find busy s.threads h in
      let (n, c) = busy-Enabled p w in (p, before, after, n, e, c)

  live-CanWork : 0 < tally is_live s.threads → s.start_event ≡ true → 0 < length s.tasks → CanWork s
  live-CanWork h b q =
      let (p, before, after, e, w) = tally-find is_live s.threads h in
      let (n, c) = live-Enabled p w b q in (p, before, after, n, e, c)

tally-held : (ps : List Phase) → tally (held (λ _. true)) ps ≡ tally busy ps
tally-held [] = refl
tally-held (p ∷ ps) = omega (arith, one p, tally-held ps)
  where
    one : (q : Phase) → held (λ _. true) q ≡ busy q
    one opening = refl
    one opened = refl
    one looping = refl
    one taking = refl
    one (holding _) = refl
    one (delayed _ _) = refl
    one (cleared _) = refl
    one (reading _ _) = refl
    one leaving = refl
    one ended = refl

count_all {ℓ} : {A : Type ℓ} (xs : List A) → count_by (λ _. true) xs ≡ length xs
count_all [] = refl
count_all (x ∷ xs) = omega (arith, count_all xs)

length-waiting : (es : List Entry) → length (waiting es) ≤ length es
length-waiting [] = omega arith
length-waiting (job t ∷ es) = omega (arith, length-waiting es)
length-waiting (stop_mark ∷ es) = omega (arith, length-waiting es)

positive : (n : ℕ) → (0 < n) ⊎ (n ≡ 0)
positive zero = inr refl
positive (suc n) = inl (omega arith)

-- a result is there to take
abbrev pub CanTake : Pool → Type 0
CanTake s = (r : DetailResult) × (t : Pool) × (next_result s ≡ some (r, t))

next_result-some :
    (s : Pool) (r : DetailResult) (rest : List DetailResult)
    → s.stage ≡ consuming
    → s.stop_event ≡ false
    → s.results ≡ r ∷ rest
    → CanTake s
unfolding next_result take_first
next_result-some s r rest e f k =
    (r, fill_task_queue (record s { results = rest }), rw (e, f, k) refl)

module _ {s : Pool} (z : Sized s) (l : Live s) (none_read : s.results ≡ [])
    (idle : tally busy s.threads ≡ 0) where
  -- tasks are left, so some are in the queue
  queue_nonempty : 0 < length s.pending + length (waiting s.tasks) → 0 < length s.tasks
  queue_nonempty h = elim l.full [
    | inl q ↦ omega (arith, ap length q, length-waiting s.tasks, h)
    | inr q ↦ omega (arith, q, ap length none_read, idle, z.some_worker)
  ]

  idle-CanWork :
      s.stage ≡ consuming
      → s.stop_event ≡ false
      → 0 < length s.pending + length (waiting s.tasks)
      → CanWork s
  idle-CanWork e f h =
      live-CanWork s f (omega (arith, staged.2, tally-live s.threads, z.sized)) staged.0
        (queue_nonempty h)
    where
      staged : Staged s consuming
      staged = subst (Staged s) e l.staged

-- In every state that the pool reaches in which the coordinator reads the results of a pool that is
-- not stopped, and has fewer of them than tasks were submitted, a result is there to take, or a
-- thread can take a step, now or once some time has passed, however its call ends.
pub Reach-progress :
    {n interval : ℕ} {s : Pool} {h : History}
    → Reach n interval s h
    → s.stage ≡ consuming
    → s.stop_event ≡ false
    → length h.yielded < length h.submitted
    → CanTake s ⊎ CanWork s
Reach-progress {s} {h} r e f more = at s.results refl
  where
    total : accounted (λ _. true) s h ≡ count_by (λ _. true) h.submitted
    total = Reach-accounted (λ _. true) r f

    at : (rs : List DetailResult) → s.results ≡ rs → CanTake s ⊎ CanWork s
    at (x ∷ rest) k = inl (next_result-some s x rest e f k)
    at [] k = elim (positive (tally busy s.threads)) [
      | inl b ↦ inr (busy-CanWork s f b)
      | inr b ↦ inr (
          idle-CanWork (Reach-Sized r) (Reach-Live r f) k b e f (
            omega (
              arith,
              total,
              more,
              b,
              tally-held s.threads,
              ap (read (λ _. true)) k,
              count_all s.pending,
              count_all (waiting s.tasks),
              count_all h.yielded,
              count_all h.submitted,
            )))
    ]
