-- ===== src/Maintenance/Processes.antt =====
-- `_process_is_alive`, `_lock_owner_is_alive` and `clear_stale_maintenance_lock`. The replies of the
-- operating system are a parameter.
use searchcar_desktop.Base.{ℕ, Bool, true, false, ◌&&◌, Option, none, some, if◌then◌else◌, ◌==◌}
use searchcar_desktop.Maintenance.{
  FilePath, Content, document, Files, read_file, file_exists, unlink, desktop_maintenance_path,
  desktop_update_install_path,
}

-- os.kill(pid, 0)
pub data KillReply : Type 0 where
  delivered process_lookup_error permission_error os_error : KillReply

-- OpenProcess: the last error, or what GetExitCodeProcess reports of the handle
pub data OpenReply : Type 0 where
  refused : (last_error : ℕ) → OpenReply
  handle : (queried : Bool) → (exit_code : ℕ) → OpenReply

pub record Os : Type 0 where
  pub windows : Bool
  pub kill : ℕ → KillReply
  pub open_process : ℕ → OpenReply

abbrev pub kill_says : KillReply → Bool
kill_says delivered = true
kill_says process_lookup_error = false
kill_says permission_error = true
kill_says os_error = false

-- access denied is error 5, STILL_ACTIVE is 259
abbrev pub open_says : OpenReply → Bool
open_says (refused last_error) = last_error == 5
open_says (handle queried exit_code) = queried && exit_code == 259

unfoldable pub process_is_alive : Os → ℕ → Bool
process_is_alive os pid =
    if pid == 0
    then false
    else if os.windows
    then open_says (os.open_process pid)
    else kill_says (os.kill pid)

-- a lock that cannot be read, or that names no process, has no live owner
unfoldable pub content_is_alive : Os → Option Content → Bool
content_is_alive os (some (document (some pid) _ _)) = process_is_alive os pid
content_is_alive os _ = false

unfoldable pub lock_owner_is_alive : Os → FilePath → Files → Bool
unfolding content_is_alive
lock_owner_is_alive os path fs = content_is_alive os (read_file path fs)

-- one turn of the loop
unfoldable pub clear_path : Os → Option FilePath → Bool × Files → Bool × Files
unfolding lock_owner_is_alive
clear_path os none (removed, fs) = (removed, fs)
clear_path os (some path) (removed, fs) =
    if file_exists path fs
    then (if lock_owner_is_alive os path fs then (removed, fs) else (true, unlink path fs))
    else (removed, fs)

unfoldable pub clear_stale_maintenance_lock : Os → Option FilePath → Files → Bool × Files
unfolding clear_path
clear_stale_maintenance_lock os root fs =
    clear_path os (desktop_update_install_path root)
      (clear_path os (desktop_maintenance_path root) (false, fs))
