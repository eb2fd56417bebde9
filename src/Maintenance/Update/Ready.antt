-- ===== src/Maintenance/Update/Ready.antt =====
-- An update that is ready: no scan is left, and none can begin.
use searchcar_desktop.Base.{
  ℕ, ◌≡◌, refl, inl, inr, arith, String, Bool, true, false, Option, none, some, List, [], ◌∷◌, map,
  ◌==◌, ==→eq, count_by, length, all, Bool-cases,
}
use searchcar_desktop.Store.{Db, ScanRun, RunStatus, is_unfinished, is_terminal}
use searchcar_desktop.Queue.Invariant.{IsValid}
use searchcar_desktop.Queue.Enqueue.{enqueue}
use searchcar_desktop.Scheduler.Poll.{enqueue_scheduled}
use searchcar_desktop.System.Events.{
  Event, claim, heartbeat, recover, shutdown, sleep, cancel, detach, request, poll, catch_up,
  toggle, start, check, publish, finish_cancelled, complete, fail, apply, run,
}
use searchcar_desktop.System.Evolution.{Evolves}
use searchcar_desktop.System.Steps.{Keeps, Keeps-refl}
use searchcar_desktop.System.Quiet.{adds_no_run, apply-Keeps}
use searchcar_desktop.System.Single.{apply-IsValid, run-IsValid}
use searchcar_desktop.Maintenance.{
  FilePath, Files, file_exists, maintenance_active, BeginReply, begun,
  desktop_update_install_unavailable, desktop_update_install_already_active,
  desktop_update_install_path, begin_update_install,
}
use searchcar_desktop.Maintenance.Locks.{
  update_lock, Held, Held-exists, Begins-Held, begin_at-Begins,
}
use searchcar_desktop.Maintenance.Update.{
  World, Turn, prompt, overtaken, event_of, under, ready, active_scan_count, meanwhile, back_up,
  recheck, guarded, prepare_desktop_update,
}

finished : (s : RunStatus) → is_unfinished s ≡ false → is_terminal s ≡ true
finished RunStatus.queued h = cc
finished RunStatus.running h = cc
finished RunStatus.cancel_requested h = cc
finished RunStatus.succeeded h = refl
finished RunStatus.partial h = refl
finished RunStatus.failed h = refl
finished RunStatus.cancelled h = refl
finished RunStatus.interrupted h = refl
finished RunStatus.interrupted_sleep h = refl

abbrev unfinished : ScanRun → Bool
unfinished r = is_unfinished r.status

-- where all runs have ended and none is added, all stay as they are
Evolves-idle :
    (rs ss : List ScanRun)
    → Evolves rs ss
    → length ss ≡ length rs
    → count_by unfinished rs ≡ 0
    → count_by unfinished ss ≡ 0
Evolves-idle [] [] h l c = refl
Evolves-idle [] (s ∷ ss) h l c = absurd (omega (arith, l))
Evolves-idle (r ∷ rs) [] h l c = absurd h
Evolves-idle (r ∷ rs) (s ∷ ss) h l c = elim (Bool-cases (is_unfinished r.status)) [
  | inl e ↦ absurd (omega (arith, rw e at c))
  | inr e ↦
      let same : s ≡ r = h.0.frozen (finished r.status e) in
      let rest = Evolves-idle rs ss h.1 (omega (arith, l)) (omega (arith, rw e at c)) in
      rw (same, e) (omega (arith, rest))
]

Keeps-idle : (db db' : Db) → Keeps db db' → active_scan_count db ≡ 0 → active_scan_count db' ≡ 0
Keeps-idle db db' (m, l) c = Evolves-idle db.scan_runs db'.scan_runs m l c

module _ (upper : ℕ → List ℕ) (is_space : ℕ → Bool) where
  -- while the maintenance is active, no transaction adds a run
  under-Keeps :
      (e : Event) (db : Db) → IsValid db → Keeps db (apply upper is_space (under true e) db)
  unfolding under apply enqueue enqueue_scheduled
  under-Keeps (claim m now w) db v = apply-Keeps upper is_space (claim true now w) db refl v
  under-Keeps (request m refusal kind payload owner now created) db v = Keeps-refl db
  under-Keeps (poll m can_run now created) db v = Keeps-refl db
  under-Keeps (heartbeat id w now) db v = apply-Keeps upper is_space (heartbeat id w now) db refl v
  under-Keeps (recover reason now) db v = apply-Keeps upper is_space (recover reason now) db refl v
  under-Keeps (shutdown now) db v = apply-Keeps upper is_space (shutdown now) db refl v
  under-Keeps (sleep now) db v = apply-Keeps upper is_space (sleep now) db refl v
  under-Keeps (cancel id user now) db v = apply-Keeps upper is_space (cancel id user now) db refl v
  under-Keeps (detach owner project now) db v =
      apply-Keeps upper is_space (detach owner project now) db refl v
  under-Keeps (catch_up now forced) db v =
      apply-Keeps upper is_space (catch_up now forced) db refl v
  under-Keeps (toggle now) db v = apply-Keeps upper is_space (toggle now) db refl v
  under-Keeps (start id now) db v = apply-Keeps upper is_space (start id now) db refl v
  under-Keeps (check id now) db v = apply-Keeps upper is_space (check id now) db refl v
  under-Keeps (publish id seen report details failed statuses current) db v =
      apply-Keeps upper is_space (publish id seen report details failed statuses current) db refl v
  under-Keeps (finish_cancelled id seen now report failures details) db v =
      apply-Keeps upper is_space (finish_cancelled id seen now report failures details) db refl v
  under-Keeps (complete id seen now report failures details successes) db v =
      apply-Keeps upper is_space (complete id seen now report failures details successes) db refl v
  under-Keeps (fail id seen now report details message detail) db v =
      apply-Keeps upper is_space (fail id seen now report details message detail) db refl v

  -- a transaction that adds no run after the lock is there: it asks then, or adds no run anyway
  abbrev pub is_late : Turn → Bool
  is_late (prompt e) = true
  is_late (overtaken e) = adds_no_run e

  event_of-Keeps :
      (t : Turn) (db : Db)
      → is_late t ≡ true
      → IsValid db
      → Keeps db (apply upper is_space (event_of true t) db)
  unfolding event_of
  event_of-Keeps (prompt e) db h v = under-Keeps e db v
  event_of-Keeps (overtaken e) db h v = apply-Keeps upper is_space e db h v

  turns-idle :
      (turns : List Turn) (db : Db)
      → all is_late turns ≡ true
      → IsValid db
      → active_scan_count db ≡ 0
      → active_scan_count (run upper is_space (map (event_of true) turns) db) ≡ 0
  unfolding run
  turns-idle [] db h v c = c
  turns-idle (t ∷ ts) db h v c =
      let next = apply upper is_space (event_of true t) db in
      turns-idle ts next (ground (arith, h)) (apply-IsValid upper is_space (event_of true t) db v)
        (Keeps-idle db next (event_of-Keeps t db (ground (arith, h)) v) c)

  module _ (root : FilePath) where
    -- a lock of an update's installation counts as a maintenance
    locked-active :
        (fs : Files)
        → file_exists (update_lock root) fs ≡ true
        → maintenance_active (some root) fs ≡ true
    unfolding maintenance_active update_lock
    locked-active fs h = rw h (ground arith)

    -- the update may go ahead: the lock is there, the tables are valid, and no scan is left
    pub record Safe (pid : ℕ) (w : World) : Type 0 where
      pub held : Held (update_lock root) pid w.files
      pub valid : IsValid w.db
      pub idle : active_scan_count w.db ≡ 0

    -- it stays so, whatever the others do
    pub meanwhile-Safe :
        (pid : ℕ) (events : List Turn) (w : World)
        → all is_late events ≡ true
        → Safe pid w
        → Safe pid (meanwhile upper is_space root events w)
    unfolding meanwhile
    meanwhile-Safe pid events w late h =
        let active = locked-active w.files (Held-exists (update_lock root) w.files pid h.held) in
        record {
          held = h.held;
          valid = run-IsValid upper is_space _ w.db h.valid;
          idle = rw active (turns-idle events w.db late h.valid h.idle);
        }

    back_up-Safe :
        (pid : ℕ) (during : List Turn) (failure : Option String) (w : World)
        → all is_late during ≡ true
        → Safe pid w
        → (back_up upper is_space root pid during failure w).0 ≡ ready
        → Safe pid (back_up upper is_space root pid during failure w).1
    unfolding back_up
    back_up-Safe pid during (some error) w late h e = cc
    back_up-Safe pid during none w late h e = meanwhile-Safe pid during w late h

    recheck-Safe :
        (pid : ℕ) (during : List Turn) (failure : Option String) (w : World)
        → all is_late during ≡ true
        → Held (update_lock root) pid w.files
        → IsValid w.db
        → (recheck upper is_space root pid during failure w).0 ≡ ready
        → Safe pid (recheck upper is_space root pid during failure w).1
    unfolding recheck
    recheck-Safe pid during failure w late h v e = elim (Bool-cases (active_scan_count w.db == 0)) [
      | inl k ↦ rw k (
          back_up-Safe pid during failure w late
            (record { held = h; valid = v; idle = ==→eq (active_scan_count w.db) 0 k }) (rw k at e))
      | inr k ↦ absurd (cc (rw k at e))
    ]

    guarded-Safe :
        (begin : BeginReply × Files) (pid : ℕ) (between during : List Turn)
        (failure : Option String) (w : World)
        → all is_late during ≡ true
        → ((p : FilePath) → begin.0 ≡ begun p → Held (update_lock root) pid begin.1)
        → IsValid w.db
        → (guarded upper is_space root begin pid between during failure w).0 ≡ ready
        → Safe pid (guarded upper is_space root begin pid between during failure w).1
    unfolding guarded meanwhile
    guarded-Safe (begun p, fs) pid between during failure w late h v e =
        recheck-Safe pid during failure _ late (h p refl) (run-IsValid upper is_space _ w.db v) e
    guarded-Safe (desktop_update_install_unavailable, fs) pid between during failure w late h v e =
        cc
    guarded-Safe (desktop_update_install_already_active, fs) pid between during failure w late h v
          e =
        cc

    begun-Held :
        (pid now : ℕ) (fs : Files) (p : FilePath)
        → (begin_update_install (some root) pid now fs).0 ≡ begun p
        → Held (update_lock root) pid (begin_update_install (some root) pid now fs).1
    unfolding begin_update_install desktop_update_install_path update_lock
    begun-Held pid now fs p e =
        (Begins-Held (update_lock root) pid now fs (begin_at-Begins (update_lock root) pid now fs)
          e).1

    meanwhile-IsValid :
        (events : List Turn) (w : World)
        → IsValid w.db
        → IsValid (meanwhile upper is_space root events w).db
    unfolding meanwhile
    meanwhile-IsValid events w v = run-IsValid upper is_space _ w.db v

    prepared-Safe :
        (pid now : ℕ) (before between during : List Turn) (failure : Option String) (w : World)
        → all is_late during ≡ true
        → IsValid w.db
        → (prepare_desktop_update upper is_space root pid now before between during failure w).0
          ≡ ready
        → Safe pid
            (prepare_desktop_update upper is_space root pid now before between during failure w).1
    unfolding prepare_desktop_update
    prepared-Safe pid now before between during failure w late v e =
        elim (Bool-cases (active_scan_count w.db == 0)) [
          | inl k ↦ rw k (
              guarded-Safe (begin_update_install (some root) pid now later.files) pid between during
                failure later late (begun-Held pid now later.files) (meanwhile-IsValid before w v)
                (rw k at e))
          | inr k ↦ absurd (cc (rw k at e))
        ]
      where
        later : World
        later = meanwhile upper is_space root before w

    -- If the preparation says that the update is ready, then, from valid tables and whatever
    -- transactions of others run until the second count, the lock is the process's and no scan is
    -- queued, running or asked to stop, as long as the lock is there, provided that no request and no
    -- poll commits after the second count that has asked for the maintenance before the lock was there.
    pub prepare_desktop_update-Safe :
        (pid now : ℕ) (before between during later : List Turn) (failure : Option String)
        (w : World)
        → all is_late during ≡ true
        → all is_late later ≡ true
        → IsValid w.db
        → (prepare_desktop_update upper is_space root pid now before between during failure w).0
          ≡ ready
        → Safe pid (
            meanwhile upper is_space root later
              (prepare_desktop_update upper is_space root pid now before between during failure
                w).1)
    prepare_desktop_update-Safe pid now before between during later failure w late later_late v e =
        meanwhile-Safe pid later _ later_late
          (prepared-Safe pid now before between during failure w late v e)
