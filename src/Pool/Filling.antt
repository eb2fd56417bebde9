-- ===== src/Pool/Filling.antt =====
-- What `_fill_task_queue` and the marks of `close` do to the task queue.
use searchcar_desktop.Base.{
  ℕ, ◌+◌, ◌≡◌, refl, ◌≤◌, ◌⊎◌, inl, inr, ◌∙◌, Bool, true, false, List, [], ◌∷◌, ◌++◌, arith, length,
  ltb, if◌then◌else◌, Bool-cases,
}
use searchcar_desktop.Pool.{
  DetailTask, Entry, job, stop_mark, Phase, Pool, capacity, fill, fill_task_queue, put_stops,
}
use searchcar_desktop.Pool.Counts.{waiting, waiting-append, append_one, append_nil, length-append}

-- the marks among the entries
abbrev pub marks : List Entry → ℕ
marks [] = 0
marks (job _ ∷ es) = marks es
marks (stop_mark ∷ es) = 1 + marks es

marks-append_job : (es : List Entry) (t : DetailTask) → marks (es ++ job t ∷ []) ≡ marks es
marks-append_job [] t = refl
marks-append_job (job x ∷ es) t = marks-append_job es t
marks-append_job (stop_mark ∷ es) t = omega (arith, marks-append_job es t)

module _ (cap : ℕ) where
  -- no task is lost or moved past another
  pub fill-order :
      (q : List Entry) (ts : List DetailTask)
      → waiting (fill cap q ts).0 ++ (fill cap q ts).1 ≡ waiting q ++ ts
  unfolding fill
  fill-order q [] = refl
  fill-order q (t ∷ ts) = elim (Bool-cases (ltb (length q) cap)) [
    | inl e ↦ rw e (
        fill-order (q ++ job t ∷ []) ts
        ∙ rw (waiting-append q (job t ∷ [])) (append_one (waiting q) t ts))
    | inr e ↦ rw e refl
  ]

  pub fill-bound :
      (q : List Entry) (ts : List DetailTask) → length q ≤ cap → length (fill cap q ts).0 ≤ cap
  unfolding fill
  fill-bound q [] h = h
  fill-bound q (t ∷ ts) h = elim (Bool-cases (ltb (length q) cap)) [
    | inl e ↦ rw e (fill-bound (q ++ job t ∷ []) ts (ground (arith, length-append q (job t ∷ []))))
    | inr e ↦ rw e h
  ]

  -- what is left is left because the queue is full
  pub fill-full :
      (q : List Entry) (ts : List DetailTask)
      → ((fill cap q ts).1 ≡ []) ⊎ (cap ≤ length (fill cap q ts).0)
  unfolding fill
  fill-full q [] = inl refl
  fill-full q (t ∷ ts) = elim (Bool-cases (ltb (length q) cap)) [
    | inl e ↦ rw e (fill-full (q ++ job t ∷ []) ts)
    | inr e ↦ rw e (inr (ground arith))
  ]

  pub fill-marks : (q : List Entry) (ts : List DetailTask) → marks (fill cap q ts).0 ≡ marks q
  unfolding fill
  fill-marks q [] = refl
  fill-marks q (t ∷ ts) = elim (Bool-cases (ltb (length q) cap)) [
    | inl e ↦ rw e (fill-marks (q ++ job t ∷ []) ts ∙ marks-append_job q t)
    | inr e ↦ rw e refl
  ]

  pub put_stops-waiting :
      (ps : List Phase) (q : List Entry) → waiting (put_stops cap ps q) ≡ waiting q
  unfolding put_stops
  put_stops-waiting [] q = refl
  put_stops-waiting (p ∷ ps) q = elim (Bool-cases (ltb (length q) cap)) [
    | inl e ↦ rw e (
        put_stops-waiting ps (q ++ stop_mark ∷ [])
        ∙ rw (waiting-append q (stop_mark ∷ [])) (append_nil (waiting q)))
    | inr e ↦ rw e refl
  ]

  pub put_stops-bound :
      (ps : List Phase) (q : List Entry) → length q ≤ cap → length (put_stops cap ps q) ≤ cap
  unfolding put_stops
  put_stops-bound [] q h = h
  put_stops-bound (p ∷ ps) q h = elim (Bool-cases (ltb (length q) cap)) [
    | inl e ↦ rw e (
        put_stops-bound ps (q ++ stop_mark ∷ []) (ground (arith, length-append q (stop_mark ∷ []))))
    | inr e ↦ rw e h
  ]

  -- there is something to take for each thread, or the queue is full
  pub put_stops-enough :
      (ps : List Phase) (q : List Entry)
      → (length q + length ps ≤ length (put_stops cap ps q)) ⊎ (cap ≤ length (put_stops cap ps q))
  unfolding put_stops
  put_stops-enough [] q = inl (omega arith)
  put_stops-enough (p ∷ ps) q = elim (Bool-cases (ltb (length q) cap)) [
    | inl e ↦ rw e (
        ground (arith, put_stops-enough ps (q ++ stop_mark ∷ []), length-append q (stop_mark ∷ [])))
    | inr e ↦ rw e (inr (ground arith))
  ]

-- what `_fill_task_queue` makes of a state
pub data Filled (s : Pool) : Pool → Type 0 where
  filled :
      (q : List Entry) (ps : List DetailTask)
      → waiting q ++ ps ≡ waiting s.tasks ++ s.pending
      → (length s.tasks ≤ capacity s → length q ≤ capacity s)
      → marks q ≡ marks s.tasks
      → (s.stop_event ≡ false → (ps ≡ []) ⊎ (capacity s ≤ length q))
      → Filled s (record s { tasks = q; pending = ps })

pub fill_task_queue-Filled : (s : Pool) → Filled s (fill_task_queue s)
unfolding fill_task_queue
fill_task_queue-Filled s = at s.stop_event refl
  where
    at :
        (b : Bool)
        → s.stop_event ≡ b
        → Filled s (
            if b then s else record s {
              tasks = (fill (capacity s) s.tasks s.pending).0;
              pending = (fill (capacity s) s.tasks s.pending).1;
            })
    at true e = filled s.tasks s.pending refl (λ h. h) refl (λ f. cc)
    at false e =
        filled _ _ (fill-order (capacity s) s.tasks s.pending)
          (fill-bound (capacity s) s.tasks s.pending) (fill-marks (capacity s) s.tasks s.pending)
          (λ _. fill-full (capacity s) s.tasks s.pending)
