-- ===== src/Tests/QueueTests.antt =====
-- The queue on the sample tables.
use searchcar_desktop.Base.{◌≡◌, refl, inl, inr, true, false, some, arith, is_some, In}
use searchcar_desktop.Store.{ScanRun}
use searchcar_desktop.Queue.Rows.{active_count, ids}
use searchcar_desktop.Queue.Invariant.{Unique, IsValid}
use searchcar_desktop.Queue.Claim.{eligible, before, claim_next_job}
use searchcar_desktop.Queue.Claim.First.{claim_next_job-First, claim_next_job-total}
use searchcar_desktop.Tests.Samples.{sample_db, waiting}

sample-Unique : Unique (ids sample_db.scan_runs)
sample-Unique = omega arith

pub sample-IsValid : IsValid sample_db
sample-IsValid = record { unique = sample-Unique; below = omega arith; single = omega arith }

sample_claimed : (claim_next_job false 70 "w" sample_db).0 ≡ some 2
unfolding claim_next_job
sample_claimed = refl

sample_eligible : eligible sample_db waiting ≡ true
unfolding eligible
sample_eligible = refl

claim_next_job-First_example :
    (r : ScanRun) × In r sample_db.scan_runs
    × (r.id ≡ 2)
    × (eligible sample_db r ≡ true)
    × (active_count sample_db.scan_runs ≡ 0)
    × ((s : ScanRun) → In s sample_db.scan_runs → eligible sample_db s ≡ true → before s r ≡ false)
claim_next_job-First_example = claim_next_job-First 70 2 "w" sample_db sample_claimed

claim_next_job-total_example : is_some (claim_next_job false 70 "w" sample_db).0 ≡ true
claim_next_job-total_example =
    claim_next_job-total 70 "w" sample_db waiting refl (inr (inr (inl refl))) sample_eligible
