-- ===== src/Queue/Enqueue.antt =====
-- `enqueue` of backend/app/main.py: a manual run takes its projects out of queued automatic runs,
-- and is refused while another run of the owner holds one of its projects or cars.
use searchcar_desktop.Base.{
  ℕ, suc, String, Bool, ◌&&◌, ◌||◌, Option, none, some, List, [], ◌∷◌, ◌++◌, map, not,
  if◌then◌else◌, ◌==◌, select, any, contains,
}
use searchcar_desktop.Store.{
  Db, ScanRun, Payload, Kind, RunStatus, CancellationReason, is_queued, is_unfinished, is_projects,
  is_manual, is_automatic,
}
use searchcar_desktop.Queue.Detach.{is_empty}

-- the answers of the endpoint; `entitlement` carries the code of a SearchEntitlementError
pub data EnqueueReply : Type 0 where
  queued_run : ℕ → EnqueueReply
  desktop_maintenance_active : EnqueueReply
  entitlement : String → EnqueueReply
  project_scan_already_active : EnqueueReply
  car_scan_already_active : EnqueueReply

-- requested & set(held)
abbrev pub overlaps : List ℕ → List ℕ → Bool
overlaps requested held = any (contains requested) held

abbrev pub owned_unfinished : ℕ → ScanRun → Bool
owned_unfinished owner r = r.owner_id == owner && is_unfinished r.status

-- the test of the merging loop
unfoldable pub mergeable : ℕ → List ℕ → ScanRun → Bool
mergeable owner requested r =
    owned_unfinished owner r
    && is_projects r.kind
    && (is_automatic r.payload.trigger || r.payload.scheduled)
    && is_queued r.status
    && overlaps requested r.payload.project_ids

unfoldable pub not_requested : List ℕ → List ℕ → List ℕ
not_requested requested held = select (λ p. not (contains requested p)) held

unfoldable pub merge_row : ℕ → List ℕ → ℕ → ScanRun → ScanRun
unfolding mergeable not_requested
merge_row owner requested now r =
    let remaining = not_requested requested r.payload.project_ids in
    if mergeable owner requested r
    then (if is_empty remaining
        then record r {
          status = RunStatus.cancelled;
          finished_at = some now;
          payload = record (r.payload) {
            cancelled_at = some now;
            cancellation_reason = some CancellationReason.merged_into_manual_run;
          };
        }
        else record r { payload = record (r.payload) { project_ids = remaining } })
    else r

-- what the merging loop leaves of the table
abbrev pub merged : Kind → Payload → ℕ → ℕ → List ScanRun → List ScanRun
merged kind payload owner now rs =
    if is_projects kind && is_manual payload.trigger
    then map (merge_row owner payload.project_ids now) rs
    else rs

-- the last loop: the first run that holds a requested project or car decides the error
unfoldable pub conflict : ℕ → Payload → List ScanRun → Option EnqueueReply
conflict owner payload [] = none
conflict owner payload (r ∷ rs) =
    let rest = conflict owner payload rs in
    if owned_unfinished owner r
    then (if overlaps payload.project_ids r.payload.project_ids
        then some project_scan_already_active
        else if overlaps payload.car_ids r.payload.car_ids
        then some car_scan_already_active
        else rest)
    else rest

abbrev pub new_run : ℕ → Kind → Payload → ℕ → ℕ → ScanRun
new_run id kind payload owner created = record {
  id = id;
  owner_id = owner;
  kind = kind;
  status = RunStatus.queued;
  progress = 0;
  payload = payload;
  error = none;
  worker_id = none;
  attempt_count = some 0;
  started_at = none;
  heartbeat_at = none;
  finished_at = none;
  created_at = created;
}

-- INSERT INTO scan_runs, with the database's own time of creation
unfoldable pub insert_run : Kind → Payload → ℕ → ℕ → Db → Db
insert_run kind payload owner created db = record db {
  scan_runs = db.scan_runs ++ new_run db.next_id kind payload owner created ∷ [];
  next_id = suc db.next_id;
}

unfoldable pub enqueue_merged :
    Option EnqueueReply → Kind → Payload → ℕ → ℕ → Db → Db → EnqueueReply × Db
unfolding insert_run
enqueue_merged (some error) kind payload owner created merged_db db = (error, db)
enqueue_merged none kind payload owner created merged_db db =
    (queued_run db.next_id, insert_run kind payload owner created merged_db)

-- an error ends the session without a commit, so the merges are rolled back; `refusal` is the code
-- of the error that `require_search_entitlement` raises. The audit entry is left out.
unfoldable pub enqueue : Bool → Option String → Kind → Payload → ℕ → ℕ → ℕ → Db → EnqueueReply × Db
unfolding enqueue_merged merge_row conflict
enqueue maintenance refusal kind payload owner now created db =
    if maintenance then (desktop_maintenance_active, db) else elim refusal [
      | some code ↦ (entitlement code, db)
      | none ↦
          let rows = merged kind payload owner now db.scan_runs in
          enqueue_merged (conflict owner payload rows) kind payload owner created
            (record db { scan_runs = rows }) db
    ]
