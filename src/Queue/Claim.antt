-- ===== src/Queue/Claim.antt =====
-- `claim_next_job` and `heartbeat_job` of backend/app/job_queue.py.
pub mod First
pub mod Exclusive
pub mod Heartbeat
use searchcar_desktop.Base.{
  ℕ, ◌+◌, String, Bool, true, false, ◌&&◌, ◌||◌, Option, none, some, List, [], ◌∷◌, map,
  if◌then◌else◌, ltb, ◌==◌, str_eq, or_else, or_some, select, count_by,
}
use searchcar_desktop.Store.{Db, ScanRun, RunStatus, is_active, is_queued}
use searchcar_desktop.Queue.Rows.{update_runs, has_active, owner_active}

-- the rows of the subquery: queued, with an active owner
unfoldable pub eligible : Db → ScanRun → Bool
eligible db r = is_queued r.status && owner_active db.users r.owner_id

-- ORDER BY queued.created_at, queued.id
abbrev pub before : ScanRun → ScanRun → Bool
before a b = ltb a.created_at b.created_at || (a.created_at == b.created_at && ltb a.id b.id)

abbrev pub earlier : ScanRun → Option ScanRun → ScanRun
earlier r none = r
earlier r (some s) = if before s r then s else r

-- ORDER BY ... LIMIT 1
unfoldable pub first_row : List ScanRun → Option ScanRun
first_row [] = none
first_row (r ∷ rs) = some (earlier r (first_row rs))

-- the subquery, with its NOT EXISTS
unfoldable pub next_row : Db → Option ScanRun
unfolding eligible first_row
next_row db =
    if has_active db.scan_runs then none else first_row (select (eligible db) db.scan_runs)

unfoldable pub claim_row : ℕ → ℕ → String → ScanRun → ScanRun
claim_row id now worker r =
    if r.id == id && is_queued r.status
    then record r {
      status = RunStatus.running;
      worker_id = some worker;
      attempt_count = some (or_else r.attempt_count 0 + 1);
      started_at = or_some r.started_at now;
      heartbeat_at = some now;
      finished_at = none;
    }
    else r

unfoldable pub claim_found : Option ScanRun → ℕ → String → Db → Option ℕ × Db
unfolding claim_row
claim_found none now worker db = (none, db)
claim_found (some r) now worker db = (some r.id, update_runs (claim_row r.id now worker) db)

-- `maintenance` is `maintenance_active()`
unfoldable pub claim_next_job : Bool → ℕ → String → Db → Option ℕ × Db
unfolding next_row claim_found
claim_next_job maintenance now worker db =
    if maintenance then (none, db) else claim_found (next_row db) now worker db

-- the WHERE clause of the heartbeat
abbrev pub worker_is : Option String → String → Bool
worker_is none w = false
worker_is (some v) w = str_eq v w

abbrev pub held_by : ℕ → String → ScanRun → Bool
held_by id worker r = r.id == id && worker_is r.worker_id worker && is_active r.status

unfoldable pub beat_row : ℕ → String → ℕ → ScanRun → ScanRun
beat_row id worker now r = if held_by id worker r then record r { heartbeat_at = some now } else r

-- the result is `rowcount == 1`
unfoldable pub heartbeat_job : ℕ → String → ℕ → Db → Bool × Db
unfolding beat_row
heartbeat_job id worker now db =
    (count_by (held_by id worker) db.scan_runs == 1, update_runs (beat_row id worker now) db)
