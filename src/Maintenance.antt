-- ===== src/Maintenance.antt =====
-- maintenance.py: the two lock files of the desktop application, by which a maintenance (a backup, a
-- restore, a conversion) and the installation of an update keep the other processes away.
pub mod Processes
mod Files
pub mod Locks
pub mod Stale
pub mod Exclusive
pub mod Update
use searchcar_desktop.Base.{
  ℕ, ◌+◌, String, Bool, true, false, not, ◌&&◌, Option, none, some, List, [], ◌∷◌, ◌++◌,
  if◌then◌else◌, ◌==◌, opt_eq, str_eq, is_some, or_else,
}

-- The components of an absolute path that has been resolved.
abbrev pub FilePath : Type 0
FilePath = List String

abbrev pub path_eq : FilePath → FilePath → Bool
path_eq [] [] = true
path_eq (x ∷ xs) (y ∷ ys) = str_eq x y && path_eq xs ys
path_eq _ _ = false

-- What a lock file holds: the JSON document that a writer puts there, with the pid if it has one, or
-- a text that is no JSON.
pub data Content : Type 0 where
  garbled : Content
  document : (pid : Option ℕ) → (operation : String) → (started_at : ℕ) → Content

abbrev pub Files : Type 0
Files = List (FilePath × Content)

-- path.read_text(), or OSError
unfoldable pub read_file : FilePath → Files → Option Content
read_file path [] = none
read_file path ((p, c) ∷ rest) =
    let later = read_file path rest in if path_eq p path then some c else later

-- path.exists()
abbrev pub file_exists : FilePath → Files → Bool
file_exists path fs = is_some (read_file path fs)

-- path.unlink()
unfoldable pub unlink : FilePath → Files → Files
unlink path [] = []
unlink path ((p, c) ∷ rest) =
    let later = unlink path rest in if path_eq p path then later else (p, c) ∷ later

unfoldable pub runtime_file : String → FilePath → FilePath
runtime_file name root = root ++ "runtime" ∷ name ∷ []

abbrev in_root : String → Option FilePath → Option FilePath
in_root name none = none
in_root name (some root) = some (runtime_file name root)

-- the directory that SEARCHCAR_DESKTOP_DATA_DIR names, if it is set
unfoldable pub desktop_maintenance_path : Option FilePath → Option FilePath
desktop_maintenance_path root = in_root "maintenance.lock" root

unfoldable pub desktop_update_install_path : Option FilePath → Option FilePath
desktop_update_install_path root = in_root "update-install.lock" root

-- path.parent
abbrev pub parent : FilePath → FilePath
parent [] = []
parent (a ∷ []) = []
parent (a ∷ b ∷ rest) = a ∷ parent (b ∷ rest)

unfoldable pub database_maintenance_path : FilePath → FilePath
unfolding runtime_file
database_maintenance_path database = runtime_file "maintenance.lock" (parent (parent database))

abbrev present : Option FilePath → Files → Bool
present none fs = false
present (some path) fs = file_exists path fs

unfoldable pub maintenance_active : Option FilePath → Files → Bool
unfolding desktop_maintenance_path desktop_update_install_path
maintenance_active root fs =
    if present (desktop_maintenance_path root) fs
    then true
    else present (desktop_update_install_path root) fs

pub data BeginReply : Type 0 where
  begun : FilePath → BeginReply
  desktop_update_install_unavailable desktop_update_install_already_active : BeginReply

-- the pid of the document, if there is one
unfoldable pub pid_of : Option Content → Option ℕ
pid_of (some (document pid _ _)) = pid
pid_of _ = none

unfoldable pub begin_at : FilePath → ℕ → ℕ → Files → BeginReply × Files
unfolding pid_of
begin_at path pid now fs =
    if file_exists path fs
    then (if opt_eq (pid_of (read_file path fs)) (some pid)
        then (begun path, fs)
        else (desktop_update_install_already_active, fs))
    else (begun path, (path, document (some pid) "UPDATE_INSTALL" now) ∷ fs)

unfoldable pub begin_update_install : Option FilePath → ℕ → ℕ → Files → BeginReply × Files
unfolding begin_at
begin_update_install root pid now fs = elim (desktop_update_install_path root) [
  | none ↦ (desktop_update_install_unavailable, fs)
  | some path ↦ begin_at path pid now fs
]

-- pid in {None, os.getpid()}
abbrev pub may_finish : Option ℕ → ℕ → Bool
may_finish none pid = true
may_finish (some p) pid = p == pid

unfoldable pub finish_at : FilePath → ℕ → Files → Bool × Files
unfolding pid_of
finish_at path pid fs =
    if not (may_finish (pid_of (read_file path fs)) pid)
    then (false, fs)
    else if file_exists path fs
    then (true, unlink path fs)
    else (false, fs)

unfoldable pub finish_update_install : Option FilePath → ℕ → Files → Bool × Files
unfolding finish_at
finish_update_install root pid fs = elim (desktop_update_install_path root) [
  | none ↦ (false, fs)
  | some path ↦ finish_at path pid fs
]

-- `maintenance_lock`, up to its `yield`; none for MaintenanceBusyError
unfoldable pub enter_maintenance : FilePath → String → ℕ → ℕ → Files → Option (FilePath × Files)
enter_maintenance database operation pid now fs =
    let path = database_maintenance_path database in
    if file_exists path fs
    then none
    else some (path, (path, document (some pid) operation now) ∷ fs)

-- its `finally`
unfoldable pub leave_maintenance : FilePath → Files → Files
leave_maintenance path fs = unlink path fs
