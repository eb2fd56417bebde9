-- ===== src/System/Stuck.antt =====
-- A stop request between the claim of a job (`claim_next_job` of backend/app/job_queue.py) and its
-- start (`process_job` of backend/app/worker.py).
use mathlib.Core.Path.{subst}
use searchcar_desktop.Base.{
  ℕ, String, ◌≡◌, refl, sym, ap, ◌∙◌, inl, inr, Bool, true, false, none, some, List, [], ◌∷◌, map,
  arith, In, find_by, ◌==◌, ==_refl, Bool-cases, Option-cases,
}
use searchcar_desktop.Store.{Db, ScanRun, RunStatus, is_pending}
use searchcar_desktop.Queue.Rows.{find_run, ids, has_active, active_count}
use searchcar_desktop.Queue.Invariant.{Unique, In-ids, has_active-count}
use searchcar_desktop.Queue.Claim.{claim_next_job, claim_row, next_row, eligible}
use searchcar_desktop.Queue.Claim.First.{claim_next_job-First}
use searchcar_desktop.Queue.Claim.Exclusive.{claim_next_job-single, claim_row-id}
use searchcar_desktop.Queue.Stop.{request_sleep_interruption, sleep_row}
use searchcar_desktop.Worker.Lifecycle.{Start, start_job}

-- the only row under an id is the one that is found
find-In :
    (r : ScanRun) (rs : List ScanRun)
    → Unique (ids rs)
    → In r rs
    → find_by (λ s. s.id == r.id) rs ≡ some r
find-In r [] u m = elim m [ ]
find-In r (x ∷ rs) u (inl e) = ground (arith, e, ==_refl r.id, ap (λ (s : ScanRun). s.id) e)
find-In r (x ∷ rs) u (inr m) =
    let differs = In-ids r rs m x.id u.0 in ground (arith, differs, find-In r rs u.1 m)

find-map :
    (f : ScanRun → ScanRun) (id : ℕ) (r : ScanRun) (rs : List ScanRun)
    → ((s : ScanRun) → (f s).id ≡ s.id)
    → find_by (λ s. s.id == id) rs ≡ some r
    → find_by (λ s. s.id == id) (map f rs) ≡ some (f r)
find-map f id r [] keeps h = absurd (cc)
find-map f id r (x ∷ rs) keeps h = elim (Bool-cases (x.id == id)) [
  | inl e ↦ ground (arith, e, keeps x, h)
  | inr e ↦ ground (arith, e, keeps x, find-map f id r rs keeps (ground (arith, e)))
]

sleep-active : (now : ℕ) (rs : List ScanRun) → has_active (map (sleep_row now) rs) ≡ has_active rs
unfolding sleep_row
sleep-active now [] = refl
sleep-active now (r ∷ rs) = ground (arith, sleep-active now rs)

one_active : (rs : List ScanRun) → active_count rs ≡ 1 → has_active rs ≡ true
one_active rs h = elim (Bool-cases (has_active rs)) [
  | inl e ↦ e
  | inr e ↦ absurd (omega (arith, has_active-count rs e))
]

not_pending-start :
    (id now : ℕ) (db : Db) (job : ScanRun)
    → find_run id db ≡ some job
    → is_pending job.status ≡ false
    → start_job id now db ≡ (Start.not_started, db)
unfolding start_job
not_pending-start id now db job e h = rw (e, h) refl

active-claim :
    (m : Bool) (now : ℕ) (w : String) (db : Db)
    → has_active db.scan_runs ≡ true
    → claim_next_job m now w db ≡ (none, db)
unfolding claim_next_job
active-claim true now w db h = refl
active-claim false now w db h = rw h refl

claimed_running :
    (id now : ℕ) (w : String) (db : Db) (r : ScanRun)
    → r.id ≡ id
    → eligible db r ≡ true
    → (claim_row id now w r).status ≡ RunStatus.running
unfolding claim_row eligible
claimed_running id now w db r k h = ground (arith, k, h, ==_refl id)

claimed-found :
    (now id : ℕ) (w : String) (db : Db)
    → Unique (ids db.scan_runs)
    → (claim_next_job false now w db).0 ≡ some id
    → (r : ScanRun) × (find_run id (claim_next_job false now w db).1 ≡ some r)
      × (r.status ≡ RunStatus.running)
unfolding claim_next_job
claimed-found now id w db u h = elim (Option-cases (next_row db)) [
  | inl e ↦ absurd (ground (arith, e))
  | inr (n, e) ↦
      let (r, m, key, ok, quiet, first) = claim_next_job-First now id w db h in
      (
        claim_row n.id now w r,
        rw e (
            find-map (claim_row n.id now w) id r db.scan_runs (claim_row-id n.id now w) (
              subst (λ k. find_by (λ s. s.id == k) db.scan_runs ≡ some r) key
                (find-In r db.scan_runs u m))),
        claimed_running n.id now w db r (key ∙ sym (ground (arith, e))) ok,
      )
]

-- A computer that goes to sleep after a job is claimed and before the worker starts it leaves the
-- job as no transaction of the worker ends it: the start does nothing, and no job is claimed.
pub sleep_before_start-stuck :
    (now slept later again id : ℕ) (w w' : String) (m : Bool) (db : Db)
    → Unique (ids db.scan_runs)
    → (claim_next_job false now w db).0 ≡ some id
    → let asleep = (request_sleep_interruption slept (claim_next_job false now w db).1).2 in
      (start_job id later asleep ≡ (Start.not_started, asleep))
      × (claim_next_job m again w' asleep ≡ (none, asleep))
unfolding request_sleep_interruption sleep_row
sleep_before_start-stuck now slept later again id w w' m db u h =
    let claimed = (claim_next_job false now w db).1 in
    let asleep = (request_sleep_interruption slept claimed).2 in
    let (r, found, run) = claimed-found now id w db u h in
    (
      not_pending-start id later asleep (sleep_row slept r)
          (find-map (sleep_row slept) id r claimed.scan_runs (λ s. ground arith) found)
          (ground (arith, run)),
      active-claim m again w' asleep (
          sleep-active slept claimed.scan_runs
          ∙ one_active claimed.scan_runs (claim_next_job-single now id w db u h)),
    )
