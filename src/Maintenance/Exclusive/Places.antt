-- ===== src/Maintenance/Exclusive/Places.antt =====
-- Where the locks are, which processes are on a list, and that the lock of a live process stays.
use searchcar_desktop.Base.{
  ℕ, ◌≡◌, ◌≢◌, refl, ◌∙◌, ap, inl, inr, arith, String, true, false, Option, none, some, List, [],
  ◌∷◌, ◌++◌, contains, Bool-cases,
}
use searchcar_desktop.Queue.Detach.{without}
use searchcar_desktop.Maintenance.{
  FilePath, path_eq, Content, garbled, document, Files, read_file, file_exists, runtime_file,
  parent, pid_of, finish_at, may_finish, database_maintenance_path,
}
use searchcar_desktop.Maintenance.Processes.{
  process_is_alive, content_is_alive, lock_owner_is_alive,
}
use searchcar_desktop.Maintenance.Files.{read_file-unlink_other}
use searchcar_desktop.Maintenance.Locks.{Held}
use searchcar_desktop.Maintenance.Stale.{maintenance_file, left}
use searchcar_desktop.Maintenance.Exclusive.{posix, desktop_database}

module _ (p q : ℕ) where
  pub contains-without :
      (xs : List ℕ) → contains (without p xs) q ≡ true → (contains xs q ≡ true) × (q ≢ p)
  unfolding without
  contains-without [] h = cc
  contains-without (x ∷ xs) h = ground (arith, contains-without xs)

  pub without-contains :
      (xs : List ℕ) → contains xs q ≡ true → q ≢ p → contains (without p xs) q ≡ true
  unfolding without
  without-contains [] h d = h
  without-contains (x ∷ xs) h d = ground (arith, without-contains xs)

-- a live process, and its lock
abbrev pub Holds : FilePath → List ℕ → Files → ℕ → Type 0
Holds path alive fs p = (contains alive p ≡ true) × Held path p fs

parent-append : (a b : String) (r : FilePath) → parent (r ++ a ∷ b ∷ []) ≡ r ++ a ∷ []
parent-append a b [] = refl
parent-append a b (c ∷ []) = refl
parent-append a b (c ∷ d ∷ r) = ap (λ (x : FilePath). c ∷ x) (parent-append a b (d ∷ r))

parent-append_one : (a : String) (r : FilePath) → parent (r ++ a ∷ []) ≡ r
parent-append_one a [] = refl
parent-append_one a (c ∷ []) = refl
parent-append_one a (c ∷ d ∷ r) = ap (λ (x : FilePath). c ∷ x) (parent-append_one a (d ∷ r))

-- the lock of the desktop application's database is the one that the other operations look at
pub lock_place :
    (root : FilePath) → database_maintenance_path (desktop_database root) ≡ maintenance_file root
unfolding database_maintenance_path maintenance_file
lock_place root =
    ap (runtime_file "maintenance.lock")
      (ap parent (parent-append "data" "searchcar.sqlite3" root) ∙ parent-append_one "data" root)

pub finish_at-files :
    (path q : FilePath) (pid : ℕ) (fs : Files)
    → path_eq path q ≡ false
    → read_file q (finish_at path pid fs).1 ≡ read_file q fs
unfolding finish_at
finish_at-files path q pid fs h = elim (Bool-cases (may_finish (pid_of (read_file path fs)) pid)) [
  | inl e ↦ rw e (elim (Bool-cases (file_exists path fs)) [
    | inl k ↦ rw k (read_file-unlink_other path q fs h)
    | inr k ↦ rw k refl
  ])
  | inr e ↦ rw e refl
]

-- a lock whose owner is alive is not stale
pub left-Held :
    (path : FilePath) (alive : List ℕ) (fs : Files) (p : ℕ)
    → contains alive 0 ≡ false
    → Holds path alive fs p
    → left (posix alive) path fs ≡ read_file path fs
unfolding left lock_owner_is_alive content_is_alive pid_of process_is_alive
left-Held path alive fs p z (a, h) = rw (owner (read_file path fs) h) refl
  where
    owner : (c : Option Content) → pid_of c ≡ some p → content_is_alive (posix alive) c ≡ true
    owner none e = cc
    owner (some (document none operation at)) e = cc
    owner (some garbled) e = cc
    owner (some (document (some q) operation at)) e =
        let same : q ≡ p = cc in rw (same, a) (ground (arith, z, a))
