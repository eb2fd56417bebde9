-- ===== src/Queue/Rows.antt =====
-- Selections and updates of the table scan_runs, shared by the operations of the queue.
use searchcar_desktop.Base.{
  ℕ, String, Bool, ◌&&◌, Option, some, List, [], ◌∷◌, map, if◌then◌else◌, ltb, ◌==◌, any, count_by,
  contains, find_by,
}
use searchcar_desktop.Store.{
  Db, User, ScanRun, ProjectScanRun, RunStatus, Summary, is_active, opt_pending,
}

-- UPDATE scan_runs SET ... : `f` leaves the rows alone that the WHERE clause does not select
abbrev pub update_runs : (ScanRun → ScanRun) → Db → Db
update_runs f db = record db { scan_runs = map f db.scan_runs }

abbrev pub row_active : ScanRun → Bool
row_active r = is_active r.status

-- EXISTS (SELECT 1 FROM scan_runs WHERE status IN ('RUNNING', 'CANCEL_REQUESTED'))
abbrev pub has_active : List ScanRun → Bool
has_active rs = any row_active rs

abbrev pub active_count : List ScanRun → ℕ
active_count rs = count_by row_active rs

abbrev pub ids : List ScanRun → List ℕ
ids rs = map (λ r. r.id) rs

-- JOIN users AS owner ON owner.id = owner_id, with owner.status = 'ACTIVE'
abbrev pub owner_active : List User → ℕ → Bool
owner_active users owner = any (λ u. u.id == owner && u.active) users

-- ORDER BY id
unfoldable pub insert_by_id : ScanRun → List ScanRun → List ScanRun
insert_by_id r [] = r ∷ []
insert_by_id r (s ∷ rs) = if ltb s.id r.id then s ∷ insert_by_id r rs else r ∷ s ∷ rs

unfoldable pub order_by_id : List ScanRun → List ScanRun
unfolding insert_by_id
order_by_id [] = []
order_by_id (r ∷ rs) = insert_by_id r (order_by_id rs)

abbrev pub no_changes : Summary
no_changes = record { changed = 0; new_items = 0; price_changes = 0; failed = 0 }

-- the pending project runs of the given scan runs get a new status and error code
abbrev pub close_project_run :
    List ℕ → RunStatus → (Option String → Option String) → ProjectScanRun → ProjectScanRun
close_project_run run_ids status code p =
    if contains run_ids p.scan_run_id && opt_pending p.status
    then record p { status = some status; error_code = code p.error_code }
    else p

abbrev pub close_project_runs : List ℕ → RunStatus → (Option String → Option String) → Db → Db
close_project_runs run_ids status code db = record db {
  project_runs = map (close_project_run run_ids status code) db.project_runs;
}

-- SELECT ... WHERE id = :id, by the primary key
abbrev pub find_run : ℕ → Db → Option ScanRun
find_run id db = find_by (λ r. r.id == id) db.scan_runs

-- a row that the session has changed is written back by its primary key
abbrev pub save_run : ScanRun → Db → Db
save_run job db = update_runs (λ r. if r.id == job.id then job else r) db
