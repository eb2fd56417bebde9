-- ===== src/System/Ends.antt =====
-- The worker's transactions take the row of the job that it holds further.
use searchcar_desktop.Base.{
  ℕ, ◌≤◌, ◌≡◌, refl, ◌∙◌, inl, inr, Bool, true, Option, none, some, List, [], ◌∷◌, map, arith,
  Bool-cases, Option-cases, ap,
}
use searchcar_desktop.Store.{Db, ScanRun, RunStatus, SchedulerSetting, Text, is_active, is_terminal}
use searchcar_desktop.Queue.Rows.{find_run, ids}
use searchcar_desktop.Queue.Invariant.{Unique}
use searchcar_desktop.Queue.Counting.{write}
use searchcar_desktop.Worker.Rescheduling.{
  setting_of, reanchored, reanchor_with, reanchor_scheduler, completes, record_with,
  record_completed_run,
}
use searchcar_desktop.Worker.Outcomes.{final_status}
use searchcar_desktop.System.Events.{held}
use searchcar_desktop.System.Evolution.{Follows, stage}
use searchcar_desktop.System.Steps.{Keeps, Keeps-refl, write-Keeps}
use searchcar_desktop.System.Worker.{found_again}

pub held-Keeps :
    (test : ScanRun → Bool) (step : ScanRun → Db → Db) (id : ℕ) (db : Db)
    → ((job : ScanRun) → find_run id db ≡ some job → test job ≡ true → Keeps db (step job db))
    → Keeps db (held test step id db)
unfolding held
held-Keeps test step id db keep = elim (Option-cases (find_run id db)) [
  | inl e ↦ rw (e, held) (Keeps-refl db)
  | inr (job, e) ↦
      rw (e, held)
        (elim (Bool-cases (test job)) [
          | inl t ↦ rw t (keep job e t)
          | inr t ↦ rw t (Keeps-refl db)
        ])
]

-- the commit of a job that was found, whatever happens to the other tables
pub held_write-Keeps :
    (id : ℕ) (db db' : Db) (job new : ScanRun)
    → Unique (ids db.scan_runs)
    → find_run id db ≡ some job
    → Follows job new
    → db'.scan_runs ≡ map (write new) db.scan_runs
    → Keeps db db'
held_write-Keeps id db db' job new u found f e =
    write-Keeps job new db db' u (found_again id db job new found f.id) f e

-- A job keeps what identifies it, and its status.
pub record Alike (r s : ScanRun) : Type 0 where
  pub id : s.id ≡ r.id
  pub owner : s.owner_id ≡ r.owner_id
  pub kind : s.kind ≡ r.kind
  pub created : s.created_at ≡ r.created_at
  pub status : s.status ≡ r.status

Alike-refl : (r : ScanRun) → Alike r r
Alike-refl r = record { id = refl; owner = refl; kind = refl; created = refl; status = refl }

pub Alike-trans : (r s t : ScanRun) → Alike r s → Alike s t → Alike r t
Alike-trans r s t a b = record {
  id = b.id ∙ a.id;
  owner = b.owner ∙ a.owner;
  kind = b.kind ∙ a.kind;
  created = b.created ∙ a.created;
  status = b.status ∙ a.status;
}

pub reanchor-Alike :
    (now : ℕ) (job : ScanRun) (db : Db) → Alike job (reanchor_scheduler now job db).0
unfolding reanchor_scheduler
reanchor-Alike now job db = elim (Bool-cases (reanchored job)) [
  | inl e ↦ rw e (with_setting (setting_of job.owner_id db))
  | inr e ↦ rw e (Alike-refl job)
]
  where
    with_setting : (o : Option SchedulerSetting) → Alike job (reanchor_with o now job db).0
    with_setting none = Alike-refl job
    with_setting (some s) = record {
      id = refl;
      owner = refl;
      kind = refl;
      created = refl;
      status = refl;
    }

pub record_completed-Alike :
    (now : ℕ) (job : ScanRun) (db : Db) → Alike job (record_completed_run now job db).0
unfolding record_completed_run
record_completed-Alike now job db = elim (Bool-cases (completes job)) [
  | inl e ↦ rw e (with_setting (setting_of job.owner_id db))
  | inr e ↦ rw e (Alike-refl job)
]
  where
    with_setting : (o : Option SchedulerSetting) → Alike job (record_with o now job db).0
    with_setting none = Alike-refl job
    with_setting (some s) = record {
      id = refl;
      owner = refl;
      kind = refl;
      created = refl;
      status = refl;
    }

stage-le : (s : RunStatus) → stage s ≤ 3
stage-le RunStatus.queued = omega arith
stage-le RunStatus.running = omega arith
stage-le RunStatus.cancel_requested = omega arith
stage-le _ = omega arith

terminal-stage : (s : RunStatus) → is_terminal s ≡ true → stage s ≡ 3
terminal-stage s h = ground arith

active-terminal : (s : RunStatus) → is_active s ≡ true → is_terminal s ≡ true → ⊥
active-terminal s a t = ground arith

-- An end of an active job: a terminal row that is otherwise like the job's.
pub end-Follows :
    (job end new : ScanRun)
    → is_active job.status ≡ true
    → end.id ≡ job.id
    → end.owner_id ≡ job.owner_id
    → end.kind ≡ job.kind
    → end.created_at ≡ job.created_at
    → is_terminal end.status ≡ true
    → Alike end new
    → Follows job new
end-Follows job end new act i o k c ended a = record {
  id = a.id ∙ i;
  owner = a.owner ∙ o;
  kind = a.kind ∙ k;
  created = a.created ∙ c;
  forward = omega (arith, stage-le job.status, terminal-stage end.status ended, ap stage a.status);
  frozen = λ h. elim (active-terminal job.status act h) [ ];
}

pub final_status-terminal :
    (failures : List Text) (successes : ℕ) → is_terminal (final_status failures successes) ≡ true
final_status-terminal [] successes = refl
final_status-terminal (f ∷ fs) successes = ground arith
