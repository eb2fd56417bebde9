-- ===== src/System/Quiet.antt =====
-- The transactions that add no scan run: all but a request and a poll.
use searchcar_desktop.Base.{ℕ, ◌≡◌, Bool, true, false, List}
use searchcar_desktop.Store.{Db}
use searchcar_desktop.Queue.Invariant.{IsValid}
use searchcar_desktop.System.Events.{
  Event, claim, heartbeat, recover, shutdown, sleep, cancel, detach, request, poll, catch_up,
  toggle, start, check, publish, finish_cancelled, complete, fail, apply,
}
use searchcar_desktop.System.Steps.{Keeps, claim-Keeps, cancel-Keeps}
use searchcar_desktop.System.Commits.{
  start-Keeps, check-Keeps, publish-Keeps, finish_cancelled-Keeps, complete-Keeps, fail-Keeps,
}
use searchcar_desktop.System.Interrupts.{
  heartbeat-Keeps, recover-Keeps, shutdown-Keeps, sleep-Keeps, detach-Keeps, catch_up-Keeps,
  toggle-Keeps,
}

abbrev pub adds_no_run : Event → Bool
adds_no_run (request m refusal kind payload owner now created) = false
adds_no_run (poll m can_run now created) = false
adds_no_run _ = true

module _ (upper : ℕ → List ℕ) (is_space : ℕ → Bool) where
  pub apply-Keeps :
      (e : Event) (db : Db)
      → adds_no_run e ≡ true
      → IsValid db
      → Keeps db (apply upper is_space e db)
  unfolding apply
  apply-Keeps (claim m now w) db q v = claim-Keeps m now w db
  apply-Keeps (heartbeat id w now) db q v = heartbeat-Keeps id w now db
  apply-Keeps (recover reason now) db q v = recover-Keeps reason now db
  apply-Keeps (shutdown now) db q v = shutdown-Keeps now db
  apply-Keeps (sleep now) db q v = sleep-Keeps now db
  apply-Keeps (cancel id user now) db q v = cancel-Keeps id user now db v.unique
  apply-Keeps (detach owner project now) db q v = detach-Keeps owner project now db
  apply-Keeps (request m refusal kind payload owner now created) db q v = absurd (cc)
  apply-Keeps (poll m can_run now created) db q v = absurd (cc)
  apply-Keeps (catch_up now forced) db q v = catch_up-Keeps now forced db
  apply-Keeps (toggle now) db q v = toggle-Keeps now db
  apply-Keeps (start id now) db q v = start-Keeps id now db v.unique
  apply-Keeps (check id now) db q v = check-Keeps id now db v.unique
  apply-Keeps (publish id seen report details failed statuses current) db q v =
      publish-Keeps upper is_space id seen report details failed statuses current db v.unique
  apply-Keeps (finish_cancelled id seen now report failures details) db q v =
      finish_cancelled-Keeps upper is_space id now seen report failures details db v.unique
  apply-Keeps (complete id seen now report failures details successes) db q v =
      complete-Keeps upper is_space id now seen report failures details successes db v.unique
  apply-Keeps (fail id seen now report details message detail) db q v =
      fail-Keeps upper is_space id now seen report details message detail db v.unique
