-- ===== src/Maintenance/Locks.antt =====
-- Who may take and give back the lock of an update's installation.
use searchcar_desktop.Base.{
  ℕ, ◌≡◌, ◌≢◌, refl, ◌∙◌, ap, arith, Bool, true, false, Option, none, some, ◌∷◌, ==→eq, ==_refl,
  opt_eq, is_some,
}
use searchcar_desktop.Maintenance.{
  FilePath, Content, document, Files, read_file, file_exists, unlink, runtime_file,
  desktop_update_install_path, BeginReply, begun, desktop_update_install_already_active, pid_of,
  begin_at, begin_update_install, finish_at, finish_update_install,
}
use searchcar_desktop.Maintenance.Files.{read_file-written, unlink-written}

unfoldable pub update_lock : FilePath → FilePath
unfolding runtime_file
update_lock root = runtime_file "update-install.lock" root

-- the lock is the process's
abbrev pub Held : FilePath → ℕ → Files → Type 0
Held path pid fs = pid_of (read_file path fs) ≡ some pid

module _ (path : FilePath) (fs : Files) where
  pub Held-exists : (pid : ℕ) → Held path pid fs → file_exists path fs ≡ true
  unfolding pid_of
  Held-exists pid h = at (read_file path fs) refl
    where
      at : (c : Option Content) → read_file path fs ≡ c → is_some c ≡ true
      at none e = absurd (cc (e, h))
      at (some c) e = refl

  pub begin_at-own : (pid now : ℕ) → Held path pid fs → begin_at path pid now fs ≡ (begun path, fs)
  unfolding begin_at
  begin_at-own pid now h = rw (Held-exists pid h, h) (ground arith)

  pub begin_at-other :
      (pid q now : ℕ)
      → Held path pid fs
      → q ≢ pid
      → begin_at path q now fs ≡ (desktop_update_install_already_active, fs)
  unfolding begin_at
  begin_at-other pid q now h d = rw (Held-exists pid h, h) (ground arith)

  pub finish_at-own : (pid : ℕ) → Held path pid fs → finish_at path pid fs ≡ (true, unlink path fs)
  unfolding finish_at
  finish_at-own pid h = rw (h, Held-exists pid h) (ground arith)

  pub finish_at-other : (pid q : ℕ) → Held path pid fs → q ≢ pid → finish_at path q fs ≡ (false, fs)
  unfolding finish_at
  finish_at-other pid q h d = rw h (ground arith)

opt_eq→eq : (a : Option ℕ) (p : ℕ) → opt_eq a (some p) ≡ true → a ≡ some p
opt_eq→eq none p h = cc
opt_eq→eq (some a) p h = ap some (==→eq a p h)

-- the three branches of `begin_update_install`, where there is a data directory
pub data Begins (path : FilePath) (pid now : ℕ) (fs : Files) : BeginReply → Files → Type 0 where
  again : Held path pid fs → Begins path pid now fs (begun path) fs
  refused :
      file_exists path fs ≡ true
      → pid_of (read_file path fs) ≢ some pid
      → Begins path pid now fs desktop_update_install_already_active fs
  fresh :
      read_file path fs ≡ none
      → Begins path pid now fs (begun path) ((path, document (some pid) "UPDATE_INSTALL" now) ∷ fs)

module _ (path : FilePath) (pid now : ℕ) (fs : Files) where
  pub begin_at-Begins :
      Begins path pid now fs (begin_at path pid now fs).0 (begin_at path pid now fs).1
  unfolding begin_at
  begin_at-Begins =
      at (read_file path fs) (opt_eq (pid_of (read_file path fs)) (some pid)) refl refl
    where
      at :
          (c : Option Content) (b : Bool)
          → read_file path fs ≡ c
          → opt_eq (pid_of (read_file path fs)) (some pid) ≡ b
          → Begins path pid now fs (begin_at path pid now fs).0 (begin_at path pid now fs).1
      at none b e k = rw e (fresh e)
      at (some c) true e k = rw (e, rw e at k) (again (opt_eq→eq _ pid k))
      at (some c) false e k =
          rw (e, rw e at k)
            (refused (rw e refl) (λ h. cc (ap (λ o. opt_eq o (some pid)) h, k, ==_refl pid)))

  pub Begins-Held :
      {p : FilePath} {r : BeginReply} {gs : Files}
      → Begins path pid now fs r gs
      → r ≡ begun p
      → (p ≡ path) × Held path pid gs
  unfolding pid_of
  Begins-Held (again h) e = (cc, h)
  Begins-Held (refused x d) e = cc
  Begins-Held (fresh a) e =
      (cc, ap pid_of (read_file-written path (document (some pid) "UPDATE_INSTALL" now) fs))

-- the files after a process has tried to begin
abbrev pub files_after : FilePath → ℕ → ℕ → Files → Files
files_after root pid now fs = (begin_update_install (some root) pid now fs).1

-- Where there is a data directory, and a process has begun the installation of an update: another
-- process is refused, and neither its beginning nor its finishing changes a file; the holder may
-- begin again, which changes nothing, and its finishing removes the lock.
pub begin_update_install-Held :
    (root : FilePath) (pid now q later : ℕ) (fs : Files) {p : FilePath}
    → (begin_update_install (some root) pid now fs).0 ≡ begun p
    → q ≢ pid
    → (begin_update_install (some root) q later (files_after root pid now fs)
        ≡ (desktop_update_install_already_active, files_after root pid now fs))
      × (finish_update_install (some root) q (files_after root pid now fs)
          ≡ (false, files_after root pid now fs))
      × (begin_update_install (some root) pid later (files_after root pid now fs)
          ≡ (begun p, files_after root pid now fs))
      × (finish_update_install (some root) pid (files_after root pid now fs)
          ≡ (true, unlink p (files_after root pid now fs)))
unfolding begin_update_install finish_update_install desktop_update_install_path
begin_update_install-Held root pid now q later fs {p} e d = (
  begin_at-other path gs pid q later held d,
  finish_at-other path gs pid q held d,
  rw same (begin_at-own path gs pid later held),
  rw same (finish_at-own path gs pid held),
)
  where
    path : FilePath
    path = runtime_file "update-install.lock" root

    gs : Files
    gs = (begin_at path pid now fs).1

    same : p ≡ path
    same = (Begins-Held path pid now fs (begin_at-Begins path pid now fs) e).0

    held : Held path pid gs
    held = (Begins-Held path pid now fs (begin_at-Begins path pid now fs) e).1

-- Where no such lock is there, what begins the installation of an update and then finishes it leaves
-- the files as they were.
pub finish-begin_update_install :
    (root : FilePath) (pid now : ℕ) (fs : Files)
    → read_file (update_lock root) fs ≡ none
    → finish_update_install (some root) pid (begin_update_install (some root) pid now fs).1
      ≡ (true, fs)
unfolding begin_update_install finish_update_install desktop_update_install_path update_lock
    begin_at
finish-begin_update_install root pid now fs h = rw h (
    finish_at-own path _ pid (ap pid_of (read_file-written path lock fs))
    ∙ ap (λ gs. (true, gs)) (unlink-written path lock fs h))
  where
    path : FilePath
    path = runtime_file "update-install.lock" root

    lock : Content
    lock = document (some pid) "UPDATE_INSTALL" now
