-- ===== src/Queue/Detach/Gone.antt =====
-- What the deletion of a project leaves of the queue.
use searchcar_desktop.Base.{
  ℕ, ◌≡◌, refl, inl, inr, true, false, ◌||◌, some, List, [], ◌∷◌, map, arith, any, contains, opt_eq,
  In, Bool, ◌&&◌, ◌==◌, not, ◌∙◌,
}
use searchcar_desktop.Store.{Db, ScanRun, RunStatus, is_running, is_terminal, is_projects}
use searchcar_desktop.Queue.Selected.{row_with, ids-select}
use searchcar_desktop.Queue.Detach.{
  concerns, without, is_empty, detach_if, detach_project_from_active_jobs,
}

without-contains : (p : ℕ) (xs : List ℕ) → contains (without p xs) p ≡ false
unfolding without
without-contains p [] = refl
without-contains p (x ∷ xs) = ground (arith, without-contains p xs)

-- a scan of the owner's projects that has not ended and has the project among its own
abbrev pub holds_project : ℕ → ℕ → ScanRun → Bool
holds_project owner project r =
    r.owner_id == owner
    && is_projects r.kind
    && not (is_terminal r.status)
    && contains r.payload.project_ids project

concerns_lem :
    (owner project : ℕ) (r : ScanRun) → concerns owner project r ≡ holds_project owner project r
unfolding concerns
concerns_lem owner project r = ground arith

detach_if-holds_project :
    (owner project now : ℕ) (r : ScanRun)
    → holds_project owner project (detach_if owner project now r) ≡ false
unfolding detach_if concerns
detach_if-holds_project owner project now r =
    ground (arith, without-contains project r.payload.project_ids)

gone :
    (owner project now : ℕ) (rs : List ScanRun)
    → any (holds_project owner project) (map (detach_if owner project now) rs) ≡ false
gone owner project now [] = refl
gone owner project now (r ∷ rs) =
    ground (arith, detach_if-holds_project owner project now r, gone owner project now rs)

row_with-concerns :
    (owner project x : ℕ) (rs : List ScanRun)
    → row_with (concerns owner project) x rs ≡ row_with (holds_project owner project) x rs
row_with-concerns owner project x [] = refl
row_with-concerns owner project x (r ∷ rs) =
    rw (concerns_lem owner project r, row_with-concerns owner project x rs) refl

-- After the deletion of a project, no scan of its owner's projects that has not ended (succeeded,
-- partly, failed, cancelled or interrupted) holds it, and the ids that are returned are those of
-- such scans that held it.
pub detach_project_from_active_jobs-Gone :
    (owner project now : ℕ) (db : Db)
    → let (affected, db') = detach_project_from_active_jobs owner project now db in
      (any (holds_project owner project) db'.scan_runs ≡ false)
      × ((x : ℕ) → contains affected x ≡ row_with (holds_project owner project) x db.scan_runs)
unfolding detach_project_from_active_jobs
detach_project_from_active_jobs-Gone owner project now db = (
  gone owner project now db.scan_runs,
  (λ x.
      ids-select (concerns owner project) x db.scan_runs
      ∙ row_with-concerns owner project x db.scan_runs),
)

In-map : (f : ScanRun → ScanRun) (r : ScanRun) (rs : List ScanRun) → In r rs → In (f r) (map f rs)
In-map f r [] m = elim m [ ]
In-map f r (x ∷ rs) (inl e) = inl (cc)
In-map f r (x ∷ rs) (inr m) = inr (In-map f r rs m)

-- A running job that is at the project, or holds no other, is asked to stop.
pub detach_project_from_active_jobs-stops :
    (owner project now : ℕ) (db : Db) (r : ScanRun)
    → In r db.scan_runs
    → concerns owner project r ≡ true
    → is_running r.status ≡ true
    → (opt_eq r.payload.current_project_id (some project)
        || is_empty (without project r.payload.project_ids))
      ≡ true
    → (s : ScanRun) × In s (detach_project_from_active_jobs owner project now db).1.scan_runs
      × (s.id ≡ r.id)
      × (s.status ≡ RunStatus.cancel_requested)
      × (contains s.payload.project_ids project ≡ false)
unfolding detach_project_from_active_jobs detach_if
detach_project_from_active_jobs-stops owner project now db r m c run at = (
  detach_if owner project now r,
  In-map (detach_if owner project now) r db.scan_runs m,
  ground (arith, c, run, at),
  ground (arith, c, run, at),
  ground (arith, c, run, at, without-contains project r.payload.project_ids),
)
