-- ===== src/System/Exclusive.antt =====
-- Every transaction keeps the keys of scan_runs distinct and at most one run active.
use mathlib.Core.Path.{subst}
use searchcar_desktop.Base.{
  ℕ, String, ◌≡◌, refl, sym, inl, inr, Bool, true, false, Option, none, some, arith, find_by, ◌&&◌,
  ◌==◌, Bool-cases, Option-cases,
}
use searchcar_desktop.Store.{
  Db, ScanRun, Payload, Kind, RunStatus, InterruptionReason, is_projects, is_manual,
}
use searchcar_desktop.Queue.Rows.{find_run, save_run}
use searchcar_desktop.Queue.Invariant.{IsValid, ids-map}
use searchcar_desktop.Queue.Counting.{map-IsValid, write-IsValid, append-IsValid, find_run-id}
use searchcar_desktop.Queue.Claim.{claim_next_job, claim_row, next_row, heartbeat_job, beat_row}
use searchcar_desktop.Queue.Claim.Exclusive.{claim_row-id, claim_next_job-single}
use searchcar_desktop.Queue.Stop.{
  recover_interrupted_jobs, request_shutdown_cancellation, request_sleep_interruption, cancel_scan,
  cancel_by_status, user_cancelled, user_requested, recover_row, shutdown_row, sleep_row,
}
use searchcar_desktop.Queue.Detach.{detach_project_from_active_jobs, detach_if}
use searchcar_desktop.Queue.Enqueue.{
  EnqueueReply, enqueue, insert_run, merge_row, new_run, merged, enqueue_merged,
}

pub claim-IsValid :
    (m : Bool) (now : ℕ) (w : String) (db : Db) → IsValid db → IsValid (claim_next_job m now w db).1
unfolding claim_next_job
claim-IsValid true now w db v = v
claim-IsValid false now w db v = elim (Option-cases (next_row db)) [
  | inl e ↦ rw e v
  | inr (r, e) ↦ record {
    unique = rw (e, ids-map (claim_row r.id now w) (claim_row-id r.id now w) db.scan_runs) v.unique;
    below = rw (e, ids-map (claim_row r.id now w) (claim_row-id r.id now w) db.scan_runs) v.below;
    single = omega (arith, claim_next_job-single now r.id w db v.unique (ground (arith, e)));
  }
]

pub heartbeat-IsValid :
    (id : ℕ) (w : String) (now : ℕ) (db : Db) → IsValid db → IsValid (heartbeat_job id w now db).1
unfolding heartbeat_job
heartbeat-IsValid id w now db v =
    map-IsValid (beat_row id w now) db (heartbeat_job id w now db).1 (λ r. ground arith)
      (λ r. ground arith) refl refl v

pub recover-IsValid :
    (reason : InterruptionReason) (now : ℕ) (db : Db)
    → IsValid db
    → IsValid (recover_interrupted_jobs reason now db).1
unfolding recover_interrupted_jobs
recover-IsValid reason now db v =
    map-IsValid (recover_row reason now) db (recover_interrupted_jobs reason now db).1
      (λ r. ground arith) (λ r. ground arith) refl refl v

pub shutdown-IsValid :
    (now : ℕ) (db : Db) → IsValid db → IsValid (request_shutdown_cancellation now db).2
unfolding request_shutdown_cancellation
shutdown-IsValid now db v =
    map-IsValid (shutdown_row now) db (request_shutdown_cancellation now db).2 (λ r. ground arith)
      (λ r. ground arith) refl refl v

pub sleep-IsValid : (now : ℕ) (db : Db) → IsValid db → IsValid (request_sleep_interruption now db).2
unfolding request_sleep_interruption
sleep-IsValid now db v =
    map-IsValid (sleep_row now) db (request_sleep_interruption now db).2 (λ r. ground arith)
      (λ r. ground arith) refl refl v

cancel_by_status-IsValid :
    (s : RunStatus) (r : ScanRun) (now : ℕ) (db : Db)
    → find_by (λ x. x.id == r.id) db.scan_runs ≡ some r
    → r.status ≡ s
    → IsValid db
    → IsValid (cancel_by_status s r now db).1
unfolding cancel_by_status
cancel_by_status-IsValid RunStatus.queued r now db found e v =
    write-IsValid r (user_cancelled now r) db (save_run (user_cancelled now r) db) found (λ h. cc)
      refl refl v
cancel_by_status-IsValid RunStatus.running r now db found e v =
    write-IsValid r (user_requested now r) db (save_run (user_requested now r) db) found (λ h. rw e)
      refl refl v
cancel_by_status-IsValid _ r now db found e v = v

pub cancel-IsValid :
    (id user now : ℕ) (db : Db) → IsValid db → IsValid (cancel_scan id user now db).1
unfolding cancel_scan
cancel-IsValid id user now db v = elim (Option-cases (find_run id db)) [
  | inl e ↦ rw e v
  | inr (r, e) ↦ rw e (elim (Bool-cases (r.owner_id == user)) [
    | inl own ↦ rw own (
        cancel_by_status-IsValid r.status r now db
          (subst (λ (k : ℕ). find_by (λ x. x.id == k) db.scan_runs ≡ some r)
            (sym (find_run-id id db.scan_runs r e)) e)
          refl v)
    | inr other ↦ rw other v
  ])
]

pub detach-IsValid :
    (owner project now : ℕ) (db : Db)
    → IsValid db
    → IsValid (detach_project_from_active_jobs owner project now db).1
unfolding detach_project_from_active_jobs
detach-IsValid owner project now db v =
    map-IsValid (detach_if owner project now) db
      (detach_project_from_active_jobs owner project now db).1 (λ r. ground arith)
      (λ r. ground arith) refl refl v

pub insert_run-IsValid :
    (kind : Kind) (payload : Payload) (owner created : ℕ) (db : Db)
    → IsValid db
    → IsValid (insert_run kind payload owner created db)
unfolding insert_run
insert_run-IsValid kind payload owner created db v =
    append-IsValid (new_run db.next_id kind payload owner created) db
      (insert_run kind payload owner created db) refl refl refl refl v

merged-IsValid :
    (kind : Kind) (payload : Payload) (owner now : ℕ) (db : Db)
    → IsValid db
    → IsValid (record db { scan_runs = merged kind payload owner now db.scan_runs })
merged-IsValid kind payload owner now db v =
    elim (Bool-cases (is_projects kind && is_manual payload.trigger)) [
      | inl e ↦
          map-IsValid (merge_row owner payload.project_ids now) db
            (record db { scan_runs = merged kind payload owner now db.scan_runs })
            (λ r. unfold merge_row in ground arith) (λ r. unfold merge_row in ground arith) (rw e)
            refl v
      | inr e ↦ rw e v
    ]

enqueue_merged-IsValid :
    (o : Option EnqueueReply) (kind : Kind) (payload : Payload) (owner created : ℕ) (a b : Db)
    → IsValid a
    → IsValid b
    → IsValid (enqueue_merged o kind payload owner created a b).1
unfolding enqueue_merged
enqueue_merged-IsValid none kind payload owner created a b va vb =
    insert_run-IsValid kind payload owner created a va
enqueue_merged-IsValid (some r) kind payload owner created a b va vb = vb

pub enqueue-IsValid :
    (m : Bool) (refusal : Option String) (kind : Kind) (payload : Payload) (owner now created : ℕ)
    (db : Db)
    → IsValid db
    → IsValid (enqueue m refusal kind payload owner now created db).1
unfolding enqueue
enqueue-IsValid true refusal kind payload owner now created db v = v
enqueue-IsValid false (some code) kind payload owner now created db v = v
enqueue-IsValid false none kind payload owner now created db v =
    enqueue_merged-IsValid _ kind payload owner created _ db
      (merged-IsValid kind payload owner now db v) v
