-- ===== src/Maintenance/Update/Released.antt =====
-- An update that is not ready: the lock is given back.
use searchcar_desktop.Base.{
  ℕ, ◌≡◌, refl, ap, inl, inr, String, Bool, Option, none, some, List, ◌==◌, Bool-cases,
}
use searchcar_desktop.Maintenance.{
  FilePath, Files, read_file, BeginReply, begun, desktop_update_install_unavailable,
  desktop_update_install_already_active, desktop_update_install_path, begin_update_install,
  begin_at, finish_update_install,
}
use searchcar_desktop.Maintenance.Locks.{update_lock, finish-begin_update_install}
use searchcar_desktop.Maintenance.Update.{
  World, Turn, UpdateReply, active_scan, ready, not_begun, backup_failed, active_scan_count,
  meanwhile, give_up, back_up, recheck, guarded, prepare_desktop_update,
}

-- unless the update is ready, the files are the given ones
abbrev pub Restores : Files → UpdateReply → Files → Type 0
Restores fs ready gs = Unit
Restores fs (active_scan n) gs = gs ≡ fs
Restores fs (not_begun reply) gs = gs ≡ fs
Restores fs (backup_failed error) gs = gs ≡ fs

module _ (upper : ℕ → List ℕ) (is_space : ℕ → Bool) (root : FilePath) where
  back_up-Restores :
      (fs : Files) (pid : ℕ) (during : List Turn) (failure : Option String) (w : World)
      → (finish_update_install (some root) pid w.files).1 ≡ fs
      → Restores fs
          (back_up upper is_space root pid during failure w).0
          (back_up upper is_space root pid during failure w).1.files
  unfolding back_up give_up meanwhile
  back_up-Restores fs pid during (some error) w h = h
  back_up-Restores fs pid during none w h = tt

  recheck-Restores :
      (fs : Files) (pid : ℕ) (during : List Turn) (failure : Option String) (w : World)
      → (finish_update_install (some root) pid w.files).1 ≡ fs
      → Restores fs
          (recheck upper is_space root pid during failure w).0
          (recheck upper is_space root pid during failure w).1.files
  unfolding recheck give_up
  recheck-Restores fs pid during failure w h = elim (Bool-cases (active_scan_count w.db == 0)) [
    | inl k ↦ rw k (back_up-Restores fs pid during failure w h)
    | inr k ↦ rw k h
  ]

  guarded-Restores :
      (begin : BeginReply × Files) (pid : ℕ) (between during : List Turn) (failure : Option String)
      (w : World) {p : FilePath}
      → begin.0 ≡ begun p
      → (finish_update_install (some root) pid begin.1).1 ≡ w.files
      → Restores w.files
          (guarded upper is_space root begin pid between during failure w).0
          (guarded upper is_space root begin pid between during failure w).1.files
  unfolding guarded meanwhile
  guarded-Restores (begun _, fs) pid between during failure w e h =
      recheck-Restores w.files pid during failure _ h
  guarded-Restores (desktop_update_install_unavailable, fs) pid between during failure w e h = cc
  guarded-Restores (desktop_update_install_already_active, fs) pid between during failure w e h = cc

  -- where no lock is there, the process gets it
  fresh_begin :
      (pid now : ℕ) (fs : Files)
      → read_file (update_lock root) fs ≡ none
      → (begin_update_install (some root) pid now fs).0 ≡ begun (update_lock root)
  unfolding begin_update_install desktop_update_install_path update_lock begin_at
  fresh_begin pid now fs h = rw h refl

  -- If no lock of an update's installation is there, and the preparation does not say that the update
  -- is ready, because a scan is left or the backup fails, then it leaves the files as they were: it
  -- never keeps the lock.
  pub prepare_desktop_update-Restores :
      (pid now : ℕ) (before between during : List Turn) (failure : Option String) (w : World)
      → read_file (update_lock root) w.files ≡ none
      → Restores w.files
          (prepare_desktop_update upper is_space root pid now before between during failure w).0
          (prepare_desktop_update upper is_space root pid now before between during failure
            w).1.files
  unfolding prepare_desktop_update meanwhile
  prepare_desktop_update-Restores pid now before between during failure w h =
      elim (Bool-cases (active_scan_count w.db == 0)) [
        | inl k ↦ rw k (
            guarded-Restores (begin_update_install (some root) pid now w.files) pid between during
              failure _ (fresh_begin pid now w.files h)
              (ap (λ (r : Bool × Files). r.1) (finish-begin_update_install root pid now w.files h)))
        | inr k ↦ rw k refl
      ]
