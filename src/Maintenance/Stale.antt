-- ===== src/Maintenance/Stale.antt =====
-- Which locks `clear_stale_maintenance_lock` removes.
use searchcar_desktop.Base.{
  ◌≡◌, refl, ◌∙◌, Bool, true, false, not, ◌&&◌, ◌||◌, Option, none, some, [], ◌∷◌, ◌++◌,
  if◌then◌else◌,
}
use searchcar_desktop.Json.Lookup.{str_eq_refl}
use searchcar_desktop.Maintenance.{
  FilePath, path_eq, Content, Files, read_file, file_exists, runtime_file, desktop_maintenance_path,
  desktop_update_install_path,
}
use searchcar_desktop.Maintenance.Processes.{
  Os, content_is_alive, lock_owner_is_alive, clear_path, clear_stale_maintenance_lock,
}
use searchcar_desktop.Maintenance.Files.{read_file-unlink, read_file-unlink_other}
use searchcar_desktop.Maintenance.Locks.{update_lock}

unfoldable pub maintenance_file : FilePath → FilePath
unfolding runtime_file
maintenance_file root = runtime_file "maintenance.lock" root

path_eq-append : (r p q : FilePath) → path_eq (r ++ p) (r ++ q) ≡ path_eq p q
path_eq-append [] p q = refl
path_eq-append (a ∷ r) p q = rw (str_eq_refl a) (path_eq-append r p q)

-- the two locks are two files
pub locks_differ : (root : FilePath) → path_eq (maintenance_file root) (update_lock root) ≡ false
unfolding maintenance_file update_lock runtime_file
locks_differ root =
    path_eq-append root ("runtime" ∷ "maintenance.lock" ∷ [])
      ("runtime" ∷ "update-install.lock" ∷ [])

pub locks_differ_sym :
    (root : FilePath) → path_eq (update_lock root) (maintenance_file root) ≡ false
unfolding maintenance_file update_lock runtime_file
locks_differ_sym root =
    path_eq-append root ("runtime" ∷ "update-install.lock" ∷ [])
      ("runtime" ∷ "maintenance.lock" ∷ [])

-- what is left of a lock, and whether it goes
unfoldable pub left : Os → FilePath → Files → Option Content
left os path fs = if lock_owner_is_alive os path fs then read_file path fs else none

unfoldable pub is_stale : Os → FilePath → Files → Bool
is_stale os path fs = file_exists path fs && not (lock_owner_is_alive os path fs)

module _ (os : Os) (path : FilePath) (removed : Bool) (fs : Files) where
  clear_path-left : read_file path (clear_path os (some path) (removed, fs)).1 ≡ left os path fs
  unfolding clear_path left lock_owner_is_alive content_is_alive
  clear_path-left = at (read_file path fs) (content_is_alive os (read_file path fs)) refl refl
    where
      at :
          (c : Option Content) (b : Bool)
          → read_file path fs ≡ c
          → content_is_alive os (read_file path fs) ≡ b
          → read_file path (clear_path os (some path) (removed, fs)).1 ≡ left os path fs
      at none b e k = rw e e
      at (some c) true e k = rw (e, rw e at k) e
      at (some c) false e k = rw (e, rw e at k) (read_file-unlink path fs)

  clear_path-other :
      (q : FilePath)
      → path_eq path q ≡ false
      → read_file q (clear_path os (some path) (removed, fs)).1 ≡ read_file q fs
  unfolding clear_path
  clear_path-other q h = at (file_exists path fs) (lock_owner_is_alive os path fs) refl refl
    where
      at :
          (b c : Bool)
          → file_exists path fs ≡ b
          → lock_owner_is_alive os path fs ≡ c
          → read_file q (clear_path os (some path) (removed, fs)).1 ≡ read_file q fs
      at false c e k = rw e refl
      at true true e k = rw (e, k) refl
      at true false e k = rw (e, k) (read_file-unlink_other path q fs h)

  clear_path-reply : (clear_path os (some path) (removed, fs)).0 ≡ (removed || is_stale os path fs)
  unfolding clear_path is_stale
  clear_path-reply =
      at removed (file_exists path fs) (lock_owner_is_alive os path fs) refl refl refl
    where
      at :
          (a b c : Bool)
          → removed ≡ a
          → file_exists path fs ≡ b
          → lock_owner_is_alive os path fs ≡ c
          → (clear_path os (some path) (removed, fs)).0 ≡ (removed || is_stale os path fs)
      at true false c r e k = rw (r, e) refl
      at false false c r e k = rw (r, e) refl
      at true true true r e k = rw (r, e, k) refl
      at false true true r e k = rw (r, e, k) refl
      at true true false r e k = rw (r, e, k) refl
      at false true false r e k = rw (r, e, k) refl

module _ (os : Os) (path : FilePath) (gs fs : Files)
    (same : read_file path gs ≡ read_file path fs) where
  same_left : left os path gs ≡ left os path fs
  unfolding left lock_owner_is_alive
  same_left = rw same refl

  same_stale : is_stale os path gs ≡ is_stale os path fs
  unfolding is_stale lock_owner_is_alive
  same_stale = rw same refl

-- `clear_stale_maintenance_lock` leaves each of the two locks as it is if its owner is alive, and
-- otherwise removes it, and says whether it has removed one.
pub clear_stale_maintenance_lock-Clears :
    (os : Os) (root : FilePath) (fs : Files)
    → (read_file (maintenance_file root) (clear_stale_maintenance_lock os (some root) fs).1
        ≡ left os (maintenance_file root) fs)
      × (read_file (update_lock root) (clear_stale_maintenance_lock os (some root) fs).1
          ≡ left os (update_lock root) fs)
      × ((clear_stale_maintenance_lock os (some root) fs).0
          ≡ (is_stale os (maintenance_file root) fs || is_stale os (update_lock root) fs))
unfolding clear_stale_maintenance_lock desktop_maintenance_path desktop_update_install_path
    maintenance_file update_lock
clear_stale_maintenance_lock-Clears os root fs = (
  clear_path-other os u first.0 first.1 m (locks_differ_sym root) ∙ clear_path-left os m false fs,
  clear_path-left os u first.0 first.1 ∙ same_left os u first.1 fs kept,
  clear_path-reply os u first.0 first.1 ∙ replies,
)
  where
    m : FilePath
    m = maintenance_file root

    u : FilePath
    u = update_lock root

    first : Bool × Files
    first = clear_path os (some m) (false, fs)

    kept : read_file u first.1 ≡ read_file u fs
    kept = clear_path-other os m false fs u (locks_differ root)

    replies : (first.0 || is_stale os u first.1) ≡ (is_stale os m fs || is_stale os u fs)
    replies = cc (clear_path-reply os m false fs, same_stale os u first.1 fs kept)
