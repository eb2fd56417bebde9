-- ===== src/Pool.antt =====
-- detail_workers.py: the pool of threads that read the pages of listings for one coordinator, the
-- worker. A thread's place in its code is a `Phase`, the coordinator's a `Stage`; times are counted
-- in the clock's ticks. The calls of the page reader and of the factory that opens it end as an
-- `Outcome` that the environment chooses.
pub mod Moves
pub mod Counts
mod Filling
mod Turns
mod Calls
mod Order
pub mod Spacing
mod Shape
mod Staged
mod Stops
mod Live
pub mod Kept
pub mod Progress
pub mod Ending
pub mod Measure
use searchcar_desktop.Base.{
  ℕ, zero, suc, ◌+◌, ◌-◌, ◌*◌, String, Bool, true, false, Option, none, some, List, [], ◌∷◌, ◌++◌,
  length, if◌then◌else◌, ltb, leb, ◌==◌,
}
use searchcar_desktop.Json.{Fields}
use searchcar_desktop.Tracking.Changes.{ReadKind}

-- An exception, by its text.
abbrev pub Error : Type 0
Error = String

-- `context` is the coordinator's; no thread looks at it.
pub record DetailTask : Type 0 where
  pub key : String
  pub source_key : String
  pub row : Fields
  pub known_price : Option ℕ
  pub context : Option ℕ
  pub read_kind : ReadKind

pub record DetailResult : Type 0 where
  pub task : DetailTask
  pub detail : Option Fields
  pub error : Option Error
  pub elapsed : ℕ

-- what the task queue holds: a task, or the mark _STOP
pub data Entry : Type 0 where
  job : DetailTask → Entry
  stop_mark : Entry

-- how a call of the reader or of its factory ends
pub data Outcome : Type 0 where
  returned : Fields → Outcome
  raised : Error → Outcome

-- where a thread stands in `_run_worker`, with the local variables that are live there
pub data Phase : Type 0 where
  opening : Phase  -- before the reader is there
  opened : Phase  -- before `_start_event.wait()`
  looping : Phase  -- at the test of the loop
  taking : Phase  -- before `_tasks.get()`
  holding : DetailTask → Phase  -- before the start lock
  delayed : DetailTask → ℕ → Phase  -- in `_stop_event.wait(delay)`, until that time
  cleared : DetailTask → Phase  -- before `started = monotonic()`
  reading : DetailTask → ℕ → Phase  -- in `read`, since that time
  leaving : Phase  -- before the reader is closed
  ended : Phase

-- where the coordinator stands: in `__enter__`, with the number of threads that have reported and
-- their failures; between `__enter__` and `submit_all`; in the loop over `results`; and after
-- `close`, with the error that `__enter__` has raised, if any
pub data Stage : Type 0 where
  entering : ℕ → List Error → Stage
  entered : Stage
  consuming : Stage
  closed : Option Error → Stage

pub record Pool : Type 0 where
  pub workers : ℕ
  pub min_start_interval : ℕ
  pub stop_event : Bool
  pub start_event : Bool
  pub next_start_at : ℕ
  pub tasks : List Entry
  pub results : List DetailResult
  pub ready : List (Option Error)
  pub threads : List Phase
  pub pending : List DetailTask
  pub stage : Stage
  pub clock : ℕ

-- max(1, min(workers, 2))
abbrev pub worker_count : ℕ → ℕ
worker_count n = if leb n 1 then 1 else 2

-- Queue(maxsize=self._workers * 3)
abbrev pub capacity : Pool → ℕ
capacity s = s.workers * 3

abbrev pub repeat {ℓ} : {A : Type ℓ} → ℕ → A → List A
repeat zero a = []
repeat (suc n) a = a ∷ repeat n a

-- DetailWorkerPool(factory, workers, interval), with the threads that `__enter__` starts
unfoldable pub start_pool : ℕ → ℕ → ℕ → Pool
start_pool workers interval now = record {
  workers = worker_count workers;
  min_start_interval = interval;
  stop_event = false;
  start_event = false;
  next_start_at = 0;
  tasks = [];
  results = [];
  ready = [];
  threads = repeat (worker_count workers) opening;
  pending = [];
  stage = entering 0 [];
  clock = now;
}

-- the tasks that fit into the queue, and those that are left
unfoldable pub fill : ℕ → List Entry → List DetailTask → List Entry × List DetailTask
fill cap queue [] = (queue, [])
fill cap queue (t ∷ ts) =
    let rest = fill cap (queue ++ job t ∷ []) ts in
    if ltb (length queue) cap then rest else (queue, t ∷ ts)

unfoldable pub fill_task_queue : Pool → Pool
unfolding fill
fill_task_queue s =
    let filled = fill (capacity s) s.tasks s.pending in
    if s.stop_event then s else record s { tasks = filled.0; pending = filled.1 }

-- as many marks as there are threads, while they fit
unfoldable pub put_stops : ℕ → List Phase → List Entry → List Entry
put_stops cap [] queue = queue
put_stops cap (_ ∷ threads) queue =
    let rest = put_stops cap threads (queue ++ stop_mark ∷ []) in
    if ltb (length queue) cap then rest else queue

-- `close`, up to the joining of the threads
unfoldable pub close : Option Error → Pool → Pool
unfolding put_stops
close e s = record s {
  stop_event = true;
  start_event = true;
  tasks = put_stops (capacity s) s.threads s.tasks;
  stage = closed e;
}

-- the end of `__enter__`, once every thread has reported
unfoldable pub all_reported : List Error → Pool → Pool
all_reported [] s = record s { start_event = true; stage = entered }
all_reported (e ∷ es) s =
    if length (e ∷ es) == s.workers
    then close (some e) s
    else record s { start_event = true; stage = entered }

unfoldable pub note_failure : Option Error → List Error → List Error
note_failure none failures = failures
note_failure (some e) failures = failures ++ e ∷ []

unfoldable pub collect : ℕ → List Error → List (Option Error) → Pool → Option Pool
unfolding all_reported note_failure
collect got failures [] s = none
collect got failures (r ∷ rest) s =
    let later = note_failure r failures in
    some (
      if ltb (suc got) s.workers
      then record s { ready = rest; stage = entering (suc got) later }
      else all_reported later (record s { ready = rest }))

-- one turn of the loop of `__enter__`; none while it waits
unfoldable pub collect_ready : Pool → Option Pool
unfolding collect
collect_ready s = elim s.stage [ entering got failures ↦ collect got failures s.ready s | _ ↦ none ]

-- the timeout of that wait
unfoldable pub time_out : Pool → Option Pool
unfolding close
time_out s = elim s.stage [
  | entering _ _ ↦ elim s.ready [
    | [] ↦ some (close (some "detail_worker_start_timeout") s)
    | _ ∷ _ ↦ none
  ]
  | _ ↦ none
]

unfoldable pub submit_all : List DetailTask → Pool → Option Pool
unfolding fill_task_queue
submit_all tasks s = elim s.stage [
  | entered ↦ some (fill_task_queue (record s { pending = tasks; stage = consuming }))
  | _ ↦ none
]

unfoldable pub take_first : List DetailResult → Pool → Option (DetailResult × Pool)
unfolding fill_task_queue
take_first [] s = none
take_first (r ∷ rest) s = some (r, fill_task_queue (record s { results = rest }))

-- the next of `results`; none while it waits, and once it has returned
unfoldable pub next_result : Pool → Option (DetailResult × Pool)
unfolding take_first
next_result s =
    let next = take_first s.results s in
    elim s.stage [ consuming ↦ if s.stop_event then none else next | _ ↦ none ]

unfoldable pub cancel : Pool → Pool
cancel s = record s { stop_event = true }

-- `__exit__`
unfoldable pub leave : Pool → Option Pool
unfolding close
leave s = elim s.stage [
  | entered ↦ some (close none s)
  | consuming ↦ some (close none s)
  | _ ↦ none
]

-- max(now, self._next_start_at)
abbrev pub turn : Pool → ℕ
turn s = if ltb s.clock s.next_start_at then s.next_start_at else s.clock

unfoldable pub take_entry : List Entry → Pool → Option (Pool × Phase)
take_entry [] s = none
take_entry (stop_mark ∷ rest) s = some (record s { tasks = rest }, leaving)
take_entry (job t ∷ rest) s = some (record s { tasks = rest }, holding t)

unfoldable pub finish_read : DetailTask → ℕ → Outcome → Pool → DetailResult
finish_read t since (returned detail) s = record {
  task = t;
  detail = some detail;
  error = none;
  elapsed = s.clock - since;
}
finish_read t since (raised e) s = record {
  task = t;
  detail = none;
  error = some e;
  elapsed = s.clock - since;
}

-- one step of a thread; none while it waits
unfoldable pub work : Outcome → Pool → Phase → Option (Pool × Phase)
unfolding take_entry finish_read
work (returned _) s opening = some (record s { ready = s.ready ++ none ∷ [] }, opened)
work (raised e) s opening = some (record s { ready = s.ready ++ some e ∷ [] }, ended)
work o s opened = if s.start_event then some (s, looping) else none
work o s looping = some (s, if s.stop_event then leaving else taking)
work o s taking = take_entry s.tasks s
work o s (holding t) =
    some (record s { next_start_at = turn s + s.min_start_interval }, delayed t (turn s))
work o s (delayed t until) =
    if s.stop_event
    then some (s, leaving)
    else if leb until s.clock
    then some (s, cleared t)
    else none
work o s (cleared t) = some (s, reading t s.clock)
work o s (reading t since) =
    some (record s { results = s.results ++ finish_read t since o s ∷ [] }, looping)
work (returned _) s leaving = some (s, ended)
work (raised e) s leaving = some (record s { ready = s.ready ++ some e ∷ [] }, ended)
work o s ended = none
