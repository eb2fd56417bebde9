-- ===== src/System/Single.antt =====
-- No run of the system has two active scans.
use searchcar_desktop.Base.{ℕ, Bool, List, [], ◌∷◌}
use searchcar_desktop.Store.{Db}
use searchcar_desktop.Queue.Invariant.{IsValid}
use searchcar_desktop.System.Events.{
  Event, claim, heartbeat, recover, shutdown, sleep, cancel, detach, request, poll, catch_up,
  toggle, start, check, publish, finish_cancelled, complete, fail, apply, run,
}
use searchcar_desktop.System.Exclusive.{
  claim-IsValid, heartbeat-IsValid, recover-IsValid, shutdown-IsValid, sleep-IsValid,
  cancel-IsValid, detach-IsValid, enqueue-IsValid,
}
use searchcar_desktop.System.Polling.{poll-IsValid, catch_up-IsValid, toggle-IsValid}
use searchcar_desktop.System.Worker.{start-IsValid, check-IsValid}
use searchcar_desktop.System.Outcomes.{
  publish-IsValid, finish_cancelled-IsValid, complete-IsValid, fail-IsValid,
}

module _ (upper : ℕ → List ℕ) (is_space : ℕ → Bool) where
  pub apply-IsValid : (e : Event) (db : Db) → IsValid db → IsValid (apply upper is_space e db)
  unfolding apply
  apply-IsValid (claim m now w) db v = claim-IsValid m now w db v
  apply-IsValid (heartbeat id w now) db v = heartbeat-IsValid id w now db v
  apply-IsValid (recover reason now) db v = recover-IsValid reason now db v
  apply-IsValid (shutdown now) db v = shutdown-IsValid now db v
  apply-IsValid (sleep now) db v = sleep-IsValid now db v
  apply-IsValid (cancel id user now) db v = cancel-IsValid id user now db v
  apply-IsValid (detach owner project now) db v = detach-IsValid owner project now db v
  apply-IsValid (request m refusal kind payload owner now created) db v =
      enqueue-IsValid m refusal kind payload owner now created db v
  apply-IsValid (poll m can_run now created) db v = poll-IsValid m can_run now created db v
  apply-IsValid (catch_up now forced) db v = catch_up-IsValid now forced db v
  apply-IsValid (toggle now) db v = toggle-IsValid now db v
  apply-IsValid (start id now) db v = start-IsValid id now db v
  apply-IsValid (check id now) db v = check-IsValid id now db v
  apply-IsValid (publish id seen report details failed statuses current) db v =
      publish-IsValid upper is_space id seen report details failed statuses current db v
  apply-IsValid (finish_cancelled id seen now report failures details) db v =
      finish_cancelled-IsValid upper is_space id now seen report failures details db v
  apply-IsValid (complete id seen now report failures details successes) db v =
      complete-IsValid upper is_space id now seen report failures details successes db v
  apply-IsValid (fail id seen now report details message detail) db v =
      fail-IsValid upper is_space id now seen report details message detail db v

  -- From tables with distinct keys and at most one active run, every sequence of transactions
  -- leads to such tables: two scans are never active at once, and no key is given out twice.
  pub run-IsValid :
      (events : List Event) (db : Db) → IsValid db → IsValid (run upper is_space events db)
  unfolding run
  run-IsValid [] db v = v
  run-IsValid (e ∷ es) db v = run-IsValid es (apply upper is_space e db) (apply-IsValid e db v)
