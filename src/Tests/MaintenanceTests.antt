-- ===== src/Tests/MaintenanceTests.antt =====
-- The locks of an installation and of a maintenance at concrete files.
use searchcar_desktop.Scheduler.Poll.{enqueue_scheduled}
use searchcar_desktop.Queue.Claim.{claim_next_job}
use searchcar_desktop.Base.{ℕ, ◌≡◌, refl, arith, true, false, none, some, List, [], ◌∷◌, ◌||◌}
use searchcar_desktop.Store.{Db}
use searchcar_desktop.Queue.Invariant.{IsValid}
use searchcar_desktop.System.Events.{claim, poll, run}
use searchcar_desktop.Maintenance.{
  FilePath, Files, document, begun, desktop_update_install_already_active, begin_update_install,
  desktop_update_install_path, runtime_file, finish_update_install, unlink, read_file,
  maintenance_active, desktop_maintenance_path,
}
use searchcar_desktop.Maintenance.Locks.{
  update_lock, files_after, begin_update_install-Held, finish-begin_update_install,
}
use searchcar_desktop.Maintenance.Processes.{clear_stale_maintenance_lock, process_is_alive}
use searchcar_desktop.Maintenance.Stale.{
  maintenance_file, left, is_stale, clear_stale_maintenance_lock-Clears,
}
use searchcar_desktop.Maintenance.Update.{
  World, Turn, prompt, overtaken, meanwhile, prepare_desktop_update, active_scan, active_scan_count,
  ready,
}
use searchcar_desktop.Maintenance.Update.Ready.{Safe, prepare_desktop_update-Safe}
use searchcar_desktop.Maintenance.Update.Released.{Restores, prepare_desktop_update-Restores}
use searchcar_desktop.Tests.Samples.{sample_db, ascii_upper, ascii_space}
use searchcar_desktop.Maintenance.Exclusive.{posix, Event, launches, begins, dies, clears, act_all}
use searchcar_desktop.Maintenance.Exclusive.Safety.{installation, deserted, act_all-exclusive}

abbrev root : FilePath
root = "home" ∷ "searchcar" ∷ []

abbrev lock : FilePath
lock = "home" ∷ "searchcar" ∷ "runtime" ∷ "update-install.lock" ∷ []

begin_update_install-Held_example :
    (begin_update_install (some root) 8 70 (files_after root 7 60 [])
      ≡ (desktop_update_install_already_active, files_after root 7 60 []))
    × (finish_update_install (some root) 8 (files_after root 7 60 [])
        ≡ (false, files_after root 7 60 []))
    × (begin_update_install (some root) 7 70 (files_after root 7 60 [])
        ≡ (begun lock, files_after root 7 60 []))
    × (finish_update_install (some root) 7 (files_after root 7 60 [])
        ≡ (true, unlink lock (files_after root 7 60 [])))
unfolding begin_update_install desktop_update_install_path read_file runtime_file
begin_update_install-Held_example = begin_update_install-Held root 7 60 8 70 [] refl (omega arith)

finish-begin_update_install_example :
    finish_update_install (some root) 7 (begin_update_install (some root) 7 60 []).1 ≡ (true, [])
unfolding read_file
finish-begin_update_install_example = finish-begin_update_install root 7 60 [] refl

-- a process dies with the lock, another clears it and begins
abbrev story : List Event
story = launches 7 ∷ begins 7 60 ∷ dies 7 ∷ launches 8 ∷ clears ∷ begins 8 70 ∷ []

act_all-exclusive_example :
    (◌≡◌ {A = ℕ} 8 8)
    × (maintenance_active (some root) (act_all root story (deserted [])).files ≡ true)
unfolding act_all begin_update_install desktop_update_install_path read_file
    clear_stale_maintenance_lock desktop_maintenance_path runtime_file process_is_alive unlink
act_all-exclusive_example = act_all-exclusive root [] story installation 8 8 refl refl

-- the tables of the samples without their runs
abbrev quiet_db : Db
quiet_db = record sample_db { scan_runs = [] }

quiet-IsValid : IsValid quiet_db
quiet-IsValid = record { unique = tt; below = tt; single = omega arith }

abbrev quiet : World
quiet = record { files = []; db = quiet_db }

abbrev others : List Turn
others = prompt (poll false true 150 150) ∷ prompt (claim false 151 "w") ∷ []

prepare_desktop_update-Safe_example : Safe ascii_upper ascii_space root 7 (
    meanwhile ascii_upper ascii_space root others
      (prepare_desktop_update ascii_upper ascii_space root 7 60 [] others others none quiet).1)
unfolding prepare_desktop_update begin_update_install desktop_update_install_path read_file run
    claim_next_job maintenance_active runtime_file enqueue_scheduled
prepare_desktop_update-Safe_example =
    prepare_desktop_update-Safe ascii_upper ascii_space root 7 60 [] others others others none quiet
      refl refl quiet-IsValid refl

-- a scan comes in between the first count and the lock
prepare_desktop_update-Restores_example :
    Restores []
      (prepare_desktop_update ascii_upper ascii_space root 7 60 others [] [] none quiet).0
      (prepare_desktop_update ascii_upper ascii_space root 7 60 others [] [] none quiet).1.files
unfolding read_file
prepare_desktop_update-Restores_example =
    prepare_desktop_update-Restores ascii_upper ascii_space root 7 60 others [] [] none quiet refl

prepare_desktop_update_refuses :
    (prepare_desktop_update ascii_upper ascii_space root 7 60 others [] [] none quiet).0
    ≡ active_scan 1
unfolding prepare_desktop_update begin_update_install desktop_update_install_path read_file run
    claim_next_job maintenance_active enqueue_scheduled
prepare_desktop_update_refuses = refl

-- a poll that has found no lock before the installation began, and commits after the second count
overtaken_scan :
    let (reply, w) =
      prepare_desktop_update ascii_upper ascii_space root 7 60 [] []
        (overtaken (poll false true 150 150) ∷ [])
        none
        quiet in
    (reply ≡ ready) × (active_scan_count w.db ≡ 1)
unfolding prepare_desktop_update begin_update_install desktop_update_install_path read_file run
    maintenance_active runtime_file enqueue_scheduled
overtaken_scan = (refl, refl)

-- the lock of process 7 goes once it is dead, the maintenance of process 8 stays
abbrev two_locks : Files
two_locks =
    (
      "home" ∷ "searchcar" ∷ "runtime" ∷ "maintenance.lock" ∷ [],
      document (some 8) "BACKUP_EXPORT" 61,
    )
    ∷ (lock, document (some 7) "UPDATE_INSTALL" 60)
    ∷ []

clear_stale_leaves_the_live_one :
    clear_stale_maintenance_lock (posix (8 ∷ [])) (some root) two_locks ≡ (
      true,
      (
        "home" ∷ "searchcar" ∷ "runtime" ∷ "maintenance.lock" ∷ [],
        document (some 8) "BACKUP_EXPORT" 61,
      )
          ∷ [],
    )
unfolding clear_stale_maintenance_lock desktop_update_install_path read_file
    desktop_maintenance_path runtime_file process_is_alive unlink
clear_stale_leaves_the_live_one = refl

clear_stale_maintenance_lock-Clears_example :
    (read_file
        (maintenance_file root)
        (clear_stale_maintenance_lock (posix (8 ∷ [])) (some root) two_locks).1
      ≡ left (posix (8 ∷ [])) (maintenance_file root) two_locks)
    × (read_file
          (update_lock root)
          (clear_stale_maintenance_lock (posix (8 ∷ [])) (some root) two_locks).1
        ≡ left (posix (8 ∷ [])) (update_lock root) two_locks)
    × ((clear_stale_maintenance_lock (posix (8 ∷ [])) (some root) two_locks).0 ≡ (
        is_stale (posix (8 ∷ [])) (maintenance_file root) two_locks
        || is_stale (posix (8 ∷ [])) (update_lock root) two_locks))
clear_stale_maintenance_lock-Clears_example =
    clear_stale_maintenance_lock-Clears (posix (8 ∷ [])) root two_locks
