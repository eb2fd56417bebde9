-- ===== src/System/History.antt =====
-- What happens to the scan runs over a run of the system.
use searchcar_desktop.Base.{ℕ, refl, Bool, List, [], ◌∷◌, In}
use searchcar_desktop.Store.{Db, ScanRun}
use searchcar_desktop.Queue.Invariant.{IsValid}
use searchcar_desktop.System.Events.{Event, request, poll, apply, run}
use searchcar_desktop.System.Evolution.{Follows, Evolves-refl, Evolves-trans, Evolves-In}
use searchcar_desktop.System.Steps.{Moves, enqueue-Moves, poll-Moves}
use searchcar_desktop.System.Quiet.{apply-Keeps}
use searchcar_desktop.System.Single.{apply-IsValid}

module _ (upper : ℕ → List ℕ) (is_space : ℕ → Bool) where
  apply-Moves : (e : Event) (db : Db) → IsValid db → Moves db (apply upper is_space e db)
  unfolding apply
  apply-Moves (request m refusal kind payload owner now created) db v =
      enqueue-Moves m refusal kind payload owner now created db
  apply-Moves (poll m can_run now created) db v = poll-Moves m can_run now created db
  apply-Moves e db v = (apply-Keeps upper is_space e db refl v).0

  run-Moves : (events : List Event) (db : Db) → IsValid db → Moves db (run upper is_space events db)
  unfolding run
  run-Moves [] db v = Evolves-refl db.scan_runs
  run-Moves (e ∷ es) db v =
      let next = apply upper is_space e db in
      Evolves-trans db.scan_runs next.scan_runs (run upper is_space es next).scan_runs
        (apply-Moves e db v) (run-Moves es next (apply-IsValid upper is_space e db v))

  -- After every sequence of transactions from valid tables, whatever old copies of its job the
  -- worker writes back, each scan run of the tables is still there under its id, with its owner,
  -- kind and time of creation: its status has not gone back (queued, running, requested to stop,
  -- ended), and if it had ended, it is the same row.
  pub run-Follows :
      (events : List Event) (db : Db) (r : ScanRun)
      → IsValid db
      → In r db.scan_runs
      → (s : ScanRun) × In s (run upper is_space events db).scan_runs × Follows r s
  run-Follows events db r v m =
      Evolves-In r db.scan_runs (run upper is_space events db).scan_runs (run-Moves events db v) m
