-- ===== src/Tests/PoolTests.antt =====
-- Runs of a pool, and the properties at them.
use searchcar_desktop.Base.{
  ◌+◌, ◌≡◌, ◌⊎◌, refl, ◌≤◌, Bool, none, [], ◌∷◌, ◌++◌, arith, count_by, str_eq, String,
}
use searchcar_desktop.Json.{empty}
use searchcar_desktop.Tracking.Changes.{full}
use searchcar_desktop.Pool.{
  DetailTask, opening, opened, looping, taking, holding, delayed, cleared, reading, Pool, returned,
  raised, start_pool, work, collect_ready, submit_all, next_result, leave,
}
use searchcar_desktop.Pool.Moves.{
  History, Reach, starts, later, works, collects, submits, yields, leaves, note_work,
}
use searchcar_desktop.Pool.Counts.{waiting}
use searchcar_desktop.Pool.Kept.{accounted, Reach-in_order, Reach-accounted}
use searchcar_desktop.Pool.Spacing.{Spaced, Reach-Spaced}
use searchcar_desktop.Pool.Progress.{CanTake, CanWork, Enabled, Reach-progress}
use searchcar_desktop.Pool.Ending.{Reach-ending}
use searchcar_desktop.Pool.Measure.{measure, rests, moves, Moves-bounded}

abbrev page : String → DetailTask
page key = record {
  key = key;
  source_key = "encar";
  row = empty;
  known_price = none;
  context = none;
  read_kind = full;
}

abbrev State : Type 0
State = (s : Pool) × (h : History) × Reach 1 5 s h

-- two tasks are submitted, and the thread has taken the first
unfoldable mid : State
unfolding work submit_all collect_ready start_pool
mid = (
  _,
  _,
  later
      (later
        (later
          (later
            (later (later (starts 0) (works (returned empty) [] [] opening refl refl))
              (collects refl))
            (submits (page "1:a:0" ∷ page "1:b:1" ∷ []) refl))
          (works (returned empty) [] [] opened refl refl))
        (works (returned empty) [] [] looping refl refl))
      (works (returned empty) [] [] taking refl refl),
)

-- it has its turn, at time 0, reads the page, and has the turn for the second, at time 5
unfoldable second : State
unfolding mid work start_pool
second = (
  _,
  _,
  later
      (later
        (later
          (later
            (later
              (later (later mid.2 (works (returned empty) [] [] (holding (page "1:a:0")) refl refl))
                (works (returned empty) [] [] (delayed (page "1:a:0") 0) refl refl))
              (works (returned empty) [] [] (cleared (page "1:a:0")) refl refl))
            (works (raised "timeout") [] [] (reading (page "1:a:0") 0) refl refl))
          (works (returned empty) [] [] looping refl refl))
        (works (returned empty) [] [] taking refl refl))
      (works (returned empty) [] [] (holding (page "1:b:1")) refl refl),
)

-- the coordinator takes the result of the first page and leaves
unfoldable gone : State
unfolding next_result leave second
gone = (_, _, later (later second.2 (yields refl)) (leaves refl))

abbrev is_a : DetailTask → Bool
is_a t = str_eq t.key "1:a:0"

Reach-in_order_example :
    (mid.1.taken ++ (waiting mid.0.tasks ++ mid.0.pending) ≡ mid.1.submitted)
    × (accounted is_a mid.0 mid.1 ≤ count_by is_a mid.1.submitted)
Reach-in_order_example = Reach-in_order is_a mid.2

Reach-accounted_example : accounted is_a mid.0 mid.1 ≡ count_by is_a mid.1.submitted
unfolding mid note_work
Reach-accounted_example = Reach-accounted is_a mid.2 refl

Reach-Spaced_example : Spaced 5 second.0 second.1.turns
Reach-Spaced_example = Reach-Spaced second.2

second_turns : second.1.turns ≡ 5 ∷ 0 ∷ []
unfolding second mid note_work
second_turns = refl

Reach-progress_example : CanTake mid.0 ⊎ CanWork mid.0
unfolding mid note_work
Reach-progress_example = Reach-progress mid.2 refl refl (omega arith)

Reach-ending_example : Enabled 0 gone.0 (delayed (page "1:b:1") 5)
unfolding gone second mid
Reach-ending_example =
    Reach-ending {e = none} gone.2 refl [] [] (delayed (page "1:b:1") 5) refl (λ e. cc)

-- the thread books its turn
abbrev booked : Pool
booked = record (start_pool 1 5 0) { next_start_at = 5; threads = delayed (page "1:a:0") 0 ∷ [] }

abbrev held_back : Pool
held_back = record (start_pool 1 5 0) { threads = holding (page "1:a:0") ∷ [] }

Moves-bounded_example : 1 + measure booked ≤ measure held_back
unfolding work start_pool
Moves-bounded_example =
    Moves-bounded {s = held_back} {t = booked}
      (moves rests (returned empty) [] [] (holding (page "1:a:0")) refl refl)
