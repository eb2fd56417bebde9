-- ===== src/System/Updates.antt =====
-- The row updates of the queue take a row a step further.
use searchcar_desktop.Base.{ℕ, String, List, arith}
use searchcar_desktop.Store.{ScanRun, InterruptionReason}
use searchcar_desktop.Queue.Claim.{claim_row, beat_row}
use searchcar_desktop.Queue.Stop.{recover_row, shutdown_row, sleep_row}
use searchcar_desktop.Queue.Detach.{detach_if}
use searchcar_desktop.Queue.Enqueue.{merge_row}
use searchcar_desktop.System.Evolution.{Follows}

pub claim_row-Follows : (id now : ℕ) (w : String) (r : ScanRun) → Follows r (claim_row id now w r)
unfolding claim_row
claim_row-Follows id now w r = ground arith

pub beat_row-Follows :
    (id : ℕ) (w : String) (now : ℕ) (r : ScanRun) → Follows r (beat_row id w now r)
unfolding beat_row
beat_row-Follows id w now r = ground arith

pub recover_row-Follows :
    (reason : InterruptionReason) (now : ℕ) (r : ScanRun) → Follows r (recover_row reason now r)
unfolding recover_row
recover_row-Follows reason now r = ground arith

pub shutdown_row-Follows : (now : ℕ) (r : ScanRun) → Follows r (shutdown_row now r)
unfolding shutdown_row
shutdown_row-Follows now r = ground arith

pub sleep_row-Follows : (now : ℕ) (r : ScanRun) → Follows r (sleep_row now r)
unfolding sleep_row
sleep_row-Follows now r = ground arith

pub detach_if-Follows :
    (owner project now : ℕ) (r : ScanRun) → Follows r (detach_if owner project now r)
unfolding detach_if
detach_if-Follows owner project now r = ground arith

pub merge_row-Follows :
    (owner : ℕ) (requested : List ℕ) (now : ℕ) (r : ScanRun)
    → Follows r (merge_row owner requested now r)
unfolding merge_row
merge_row-Follows owner requested now r = ground arith
