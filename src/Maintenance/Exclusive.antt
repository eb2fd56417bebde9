-- ===== src/Maintenance/Exclusive.antt =====
-- Processes that share the lock files: they start and die, begin and finish the installation of an
-- update, enter and leave a maintenance, and clear what a dead process has left.
mod Places
mod Kept
pub mod Safety
use searchcar_desktop.Base.{
  ℕ, String, Bool, true, false, not, Option, none, some, List, [], ◌∷◌, ◌++◌, select, contains,
  if◌then◌else◌, ◌==◌,
}
use searchcar_desktop.Queue.Detach.{without}
use searchcar_desktop.Maintenance.{
  FilePath, Files, BeginReply, begun, begin_update_install, finish_update_install,
  enter_maintenance, leave_maintenance, database_maintenance_path,
}
use searchcar_desktop.Maintenance.Processes.{
  Os, delivered, process_lookup_error, refused, clear_stale_maintenance_lock,
}

-- the pids that are alive, and those that have begun and not finished an installation, or are inside
-- a `with maintenance_lock(...)`
pub record Processes : Type 0 where
  pub files : Files
  pub alive : List ℕ
  pub updating : List ℕ
  pub inside : List ℕ

pub data Event : Type 0 where
  launches dies finishes exits : ℕ → Event
  begins : ℕ → ℕ → Event
  enters : ℕ → String → ℕ → Event
  clears : Event

-- an operating system that finds just these processes
abbrev pub posix : List ℕ → Os
posix alive = record {
  windows = false;
  kill = λ pid. if contains alive pid then delivered else process_lookup_error;
  open_process = λ pid. refused 0;
}

-- where the database of the desktop application is
abbrev pub desktop_database : FilePath → FilePath
desktop_database root = root ++ "data" ∷ "searchcar.sqlite3" ∷ []

unfoldable pub note_begin : ℕ → BeginReply × Files → Processes → Processes
note_begin pid (begun _, fs) s = record s { files = fs; updating = pid ∷ s.updating }
note_begin pid (_, fs) s = record s { files = fs }

unfoldable pub note_enter : ℕ → Option (FilePath × Files) → Processes → Processes
note_enter pid none s = s
note_enter pid (some (_, fs)) s = record s { files = fs; inside = pid ∷ s.inside }

module _ (root : FilePath) where
  -- what a process does; a dead one does nothing, and no process has the pid 0
  unfoldable pub act : Event → Processes → Processes
  unfolding note_begin note_enter without
  act (launches pid) s = if pid == 0 then s else record s { alive = pid ∷ s.alive }
  act (dies pid) s = record s {
    alive = without pid s.alive;
    updating = without pid s.updating;
    inside = without pid s.inside;
  }
  act (begins pid now) s =
      if contains s.alive pid
      then note_begin pid (begin_update_install (some root) pid now s.files) s
      else s
  act (finishes pid) s =
      if contains s.alive pid
      then record s {
        files = (finish_update_install (some root) pid s.files).1;
        updating = without pid s.updating;
      }
      else s
  act (enters pid operation now) s =
      if contains s.alive pid
      then note_enter pid (enter_maintenance (desktop_database root) operation pid now s.files) s
      else s
  act (exits pid) s =
      if contains s.inside pid
      then record s {
        files = leave_maintenance (database_maintenance_path (desktop_database root)) s.files;
        inside = without pid s.inside;
      }
      else s
  act clears s = record s {
    files = (clear_stale_maintenance_lock (posix s.alive) (some root) s.files).1;
  }

  unfoldable pub act_all : List Event → Processes → Processes
  unfolding act
  act_all [] s = s
  act_all (e ∷ es) s = act_all es (act e s)
