-- ===== src/Pool/Calls.antt =====
-- The coordinator's steps as a relation, one constructor for each branch of its operations.
use mathlib.Core.Path.{subst}
use searchcar_desktop.Base.{
  ℕ, suc, ◌≡◌, ◌≢◌, refl, ◌<◌, ◌≤◌, ◌⊎◌, inl, inr, Bool, true, false, Option, none, some, List, [],
  ◌∷◌, arith, length, ltb, ltb→lt, ◌==◌, if◌then◌else◌,
}
use searchcar_desktop.Pool.{
  Error, DetailTask, DetailResult, Stage, entering, entered, consuming, closed, Pool,
  fill_task_queue, close, all_reported, collect, note_failure, collect_ready, time_out, submit_all,
  take_first, next_result, leave,
}
use searchcar_desktop.Pool.Filling.{Filled, fill_task_queue-Filled}

-- the coordinator is still inside the `with`
abbrev pub is_inside : Stage → Bool
is_inside (closed _) = false
is_inside _ = true

pub data Collected (s : Pool) (got : ℕ) (es : List Error) (rest : List (Option Error))
    : Pool → Type 0 where
  waits :
      suc got < s.workers
      → Collected s got es rest (record s { ready = rest; stage = entering (suc got) es })
  begins :
      s.workers ≤ suc got
      → (length es ≡ 0) ⊎ (length es ≢ s.workers)
      → Collected s got es rest (record s { ready = rest; start_event = true; stage = entered })
  refuses : (e : Error) → Collected s got es rest (close (some e) (record s { ready = rest }))

pub data Call (s : Pool) : Pool → Type 0 where
  collected :
      (got : ℕ) (es : List Error) (r : Option Error) (rest : List (Option Error)) {t : Pool}
      → s.stage ≡ entering got es
      → s.ready ≡ r ∷ rest
      → Collected s got (note_failure r es) rest t
      → Call s t
  exits : (e : Option Error) → is_inside s.stage ≡ true → Call s (close e s)

pub data Submitted (s : Pool) (tasks : List DetailTask) : Pool → Type 0 where
  submitted :
      {t : Pool}
      → s.stage ≡ entered
      → Filled (record s { pending = tasks; stage = consuming }) t
      → Submitted s tasks t

pub data Yielded (s : Pool) : DetailResult → Pool → Type 0 where
  yielded :
      (r : DetailResult) (rest : List DetailResult)
      → s.stage ≡ consuming
      → s.stop_event ≡ false
      → s.results ≡ r ∷ rest
      → {t : Pool} → Filled (record s { results = rest }) t
      → Yielded s r t

module _ (s : Pool) where
  returns : (P : Pool → Type 0) {a b : Pool} → some a ≡ some b → P a → P b
  returns P {a} {b} h p = let e : a ≡ b = cc in subst P e p

  reported-Collected :
      (got : ℕ) (es : List Error) (rest : List (Option Error))
      → s.workers ≤ suc got
      → Collected s got es rest (all_reported es (record s { ready = rest }))
  unfolding all_reported
  reported-Collected got [] rest g = begins g (inl refl)
  reported-Collected got (e ∷ es) rest g = full (length (e ∷ es) == s.workers) refl
    where
      full :
          (b : Bool)
          → (length (e ∷ es) == s.workers) ≡ b
          → Collected s got (e ∷ es) rest (
              if b
              then close (some e) (record s { ready = rest })
              else record s { ready = rest; start_event = true; stage = entered })
      full true k = refuses e
      full false k = begins g (inr (ground arith))

  collect-Call :
      (got : ℕ) (es : List Error) (rs : List (Option Error)) {t : Pool}
      → s.stage ≡ entering got es
      → s.ready ≡ rs
      → collect got es rs s ≡ some t
      → Call s t
  unfolding collect
  collect-Call got es [] e k h = cc
  collect-Call got es (r ∷ rest) e k h =
      returns (Call s) h (collected got es r rest e k (last (ltb (suc got) s.workers) refl))
    where
      last :
          (b : Bool)
          → ltb (suc got) s.workers ≡ b
          → Collected s got (note_failure r es) rest (
              if b
              then record s { ready = rest; stage = entering (suc got) (note_failure r es) }
              else all_reported (note_failure r es) (record s { ready = rest }))
      last true b = waits (ltb→lt _ _ b)
      last false b = reported-Collected got (note_failure r es) rest (ground arith)

  pub collect_ready-Call : {t : Pool} → collect_ready s ≡ some t → Call s t
  unfolding collect_ready
  collect_ready-Call {t} h = at s.stage refl h
    where
      at :
          (g : Stage)
          → s.stage ≡ g
          → elim g [ entering got failures ↦ collect got failures s.ready s | _ ↦ none ] ≡ some t
          → Call s t
      at (entering got es) e h = collect-Call got es s.ready e refl h
      at entered e h = cc
      at consuming e h = cc
      at (closed _) e h = cc

  pub time_out-Call : {t : Pool} → time_out s ≡ some t → Call s t
  unfolding time_out
  time_out-Call {t} h = at s.stage s.ready refl h
    where
      at :
          (g : Stage) (rs : List (Option Error))
          → s.stage ≡ g
          → elim g [
            | entering _ _ ↦ elim rs [
              | [] ↦ some (close (some "detail_worker_start_timeout") s)
              | _ ∷ _ ↦ none
            ]
            | _ ↦ none
          ]
            ≡ some t
          → Call s t
      at (entering got es) [] e h = returns (Call s) h (exits _ (rw e refl))
      at (entering got es) (_ ∷ _) e h = cc
      at entered rs e h = cc
      at consuming rs e h = cc
      at (closed _) rs e h = cc

  pub leave-Call : {t : Pool} → leave s ≡ some t → Call s t
  unfolding leave
  leave-Call {t} h = at s.stage refl h
    where
      at :
          (g : Stage)
          → s.stage ≡ g
          → elim g [ entered ↦ some (close none s) | consuming ↦ some (close none s) | _ ↦ none ]
            ≡ some t
          → Call s t
      at (entering got es) e h = cc
      at entered e h = returns (Call s) h (exits none (rw e refl))
      at consuming e h = returns (Call s) h (exits none (rw e refl))
      at (closed _) e h = cc

  pub submit_all-Submitted :
      (tasks : List DetailTask) {t : Pool} → submit_all tasks s ≡ some t → Submitted s tasks t
  unfolding submit_all
  submit_all-Submitted tasks {t} h = at s.stage refl h
    where
      at :
          (g : Stage)
          → s.stage ≡ g
          → elim g [
            | entered ↦ some (fill_task_queue (record s { pending = tasks; stage = consuming }))
            | _ ↦ none
          ]
            ≡ some t
          → Submitted s tasks t
      at (entering got es) e h = cc
      at entered e h = returns (Submitted s tasks) h (submitted e (fill_task_queue-Filled _))
      at consuming e h = cc
      at (closed _) e h = cc

  pub next_result-Yielded :
      {r : DetailResult} {t : Pool} → next_result s ≡ some (r, t) → Yielded s r t
  unfolding next_result take_first
  next_result-Yielded {r} {t} h = at s.stage s.stop_event s.results refl refl refl h
    where
      at :
          (g : Stage) (b : Bool) (rs : List DetailResult)
          → s.stage ≡ g
          → s.stop_event ≡ b
          → s.results ≡ rs
          → ◌≡◌ {A = Option (DetailResult × Pool)}
              (elim g [ consuming ↦ if b then none else take_first rs s | _ ↦ none ])
              (some (r, t))
          → Yielded s r t
      at (entering got es) b rs e k i h = cc
      at entered b rs e k i h = cc
      at (closed _) b rs e k i h = cc
      at consuming true rs e k i h = cc
      at consuming false [] e k i h = cc
      at consuming false (x ∷ rest) e k i h =
          let q : ◌≡◌ {A = DetailResult × Pool} (x, fill_task_queue (record s { results = rest }))
              (r, t) =
            cc in
          subst (λ (z : DetailResult × Pool). Yielded s z.0 z.1) q
            (yielded x rest e k i (fill_task_queue-Filled _))
