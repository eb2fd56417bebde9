-- ===== src/Maintenance/Exclusive/Kept.antt =====
-- Every process that holds a lock is alive, and the file of the lock says so.
use mathlib.Core.Path.{subst}
use searchcar_desktop.Base.{
  ℕ, ◌≡◌, sym, ◌∙◌, ap, inl, inr, arith, String, Bool, true, false, none, some, List, [], ◌∷◌,
  contains, ◌==◌, ==→eq, Bool-cases, Option-cases,
}
use searchcar_desktop.Queue.Detach.{without}
use searchcar_desktop.Maintenance.{
  FilePath, document, Files, read_file, pid_of, BeginReply, begin_update_install,
  finish_update_install, enter_maintenance, leave_maintenance, database_maintenance_path,
  desktop_update_install_path,
}
use searchcar_desktop.Maintenance.Processes.{clear_stale_maintenance_lock}
use searchcar_desktop.Maintenance.Files.{read_file-written, read_file-other, read_file-unlink_other}
use searchcar_desktop.Maintenance.Locks.{
  update_lock, Held, Held-exists, Begins, again, refused, fresh, begin_at-Begins, finish_at-other,
}
use searchcar_desktop.Maintenance.Stale.{
  maintenance_file, locks_differ, locks_differ_sym, left, clear_stale_maintenance_lock-Clears,
}
use searchcar_desktop.Maintenance.Exclusive.{
  Processes, Event, launches, dies, finishes, exits, begins, enters, clears, posix,
  desktop_database, note_begin, note_enter, act, act_all,
}
use searchcar_desktop.Maintenance.Exclusive.Places.{
  contains-without, without-contains, Holds, lock_place, finish_at-files, left-Held,
}

module _ (root : FilePath) where
  pub record Owners (s : Processes) : Type 0 where
    pub no_zero : contains s.alive 0 ≡ false
    pub updates :
        (p : ℕ) → contains s.updating p ≡ true → Holds (update_lock root) s.alive s.files p
    pub insides :
        (p : ℕ) → contains s.inside p ≡ true → Holds (maintenance_file root) s.alive s.files p

  module _ {s : Processes} (o : Owners s) where
    launches-Owners : (pid : ℕ) → Owners (act root (launches pid) s)
    unfolding act
    launches-Owners pid = elim (Bool-cases (pid == 0)) [
      | inl e ↦ rw e o
      | inr e ↦ rw e (record {
        no_zero = ground (arith, o.no_zero);
        updates = λ p h. (ground (arith, (o.updates p h).0), (o.updates p h).1);
        insides = λ p h. (ground (arith, (o.insides p h).0), (o.insides p h).1);
      })
    ]

    dies-Owners : (pid : ℕ) → Owners (act root (dies pid) s)
    unfolding act
    dies-Owners pid = record {
      no_zero = elim (Bool-cases (contains (without pid s.alive) 0)) [
        | inl e ↦ absurd (cc ((contains-without pid 0 s.alive e).0, o.no_zero))
        | inr e ↦ e
      ];
      updates = λ p h.
          let (k, d) = contains-without pid p s.updating h in
          (without-contains pid p s.alive (o.updates p k).0 d, (o.updates p k).1);
      insides = λ p h.
          let (k, d) = contains-without pid p s.inside h in
          (without-contains pid p s.alive (o.insides p k).0 d, (o.insides p k).1);
    }

    -- the lock of a process is not the file of another lock
    begun-Owners :
        (pid now : ℕ) {r : BeginReply} {fs : Files}
        → contains s.alive pid ≡ true
        → Begins (update_lock root) pid now s.files r fs
        → Owners (note_begin pid (r, fs) s)
    unfolding note_begin pid_of
    begun-Owners pid now a (again h) = record {
      no_zero = o.no_zero;
      updates = λ p k. elim (Bool-cases (pid == p)) [
        | inl e ↦ subst (Holds (update_lock root) s.alive s.files) (==→eq pid p e) (a, h)
        | inr e ↦ o.updates p (ground (arith, k, e))
      ];
      insides = o.insides;
    }
    begun-Owners pid now a (refused x d) = record {
      no_zero = o.no_zero;
      updates = o.updates;
      insides = o.insides;
    }
    begun-Owners pid now a (fresh h) = record {
      no_zero = o.no_zero;
      updates = λ p k. elim (Bool-cases (pid == p)) [
        | inl e ↦
            subst
              (Holds (update_lock root) s.alive
                ((update_lock root, document (some pid) "UPDATE_INSTALL" now) ∷ s.files))
              (==→eq pid p e)
              (
                a,
                ap pid_of (
                    read_file-written (update_lock root) (document (some pid) "UPDATE_INSTALL" now)
                      s.files),
              )
        | inr e ↦ absurd (
            cc (h, Held-exists (update_lock root) s.files p (o.updates p (ground (arith, k, e))).1))
      ];
      insides = λ p k. (
        (o.insides p k).0,
        ap pid_of (
              read_file-other (update_lock root) (maintenance_file root) _ s.files
                (locks_differ_sym root))
            ∙ (o.insides p k).1,
      );
    }

    begins-Owners : (pid now : ℕ) → Owners (act root (begins pid now) s)
    unfolding act begin_update_install desktop_update_install_path update_lock
    begins-Owners pid now = elim (Bool-cases (contains s.alive pid)) [
      | inl e ↦ rw e (begun-Owners pid now e (begin_at-Begins (update_lock root) pid now s.files))
      | inr e ↦ rw e o
    ]

    finishes-Owners : (pid : ℕ) → Owners (act root (finishes pid) s)
    unfolding act finish_update_install desktop_update_install_path update_lock
    finishes-Owners pid = elim (Bool-cases (contains s.alive pid)) [
      | inl e ↦ rw e (record {
        no_zero = o.no_zero;
        updates = λ p h.
            let (k, d) = contains-without pid p s.updating h in
            (
              (o.updates p k).0,
              ap (λ (r : Bool × Files). pid_of (read_file (update_lock root) r.1))
                    (finish_at-other (update_lock root) s.files p pid (o.updates p k).1
                      (λ x. d (sym x)))
                  ∙ (o.updates p k).1,
            );
        insides = λ p h. (
          (o.insides p h).0,
          ap pid_of (
                finish_at-files (update_lock root) (maintenance_file root) pid s.files
                  (locks_differ_sym root))
              ∙ (o.insides p h).1,
        );
      })
      | inr e ↦ rw e o
    ]

    -- where the lock file is: beside the database's directory
    entered-Owners :
        (pid : ℕ) (path : FilePath) (operation : String) (now : ℕ)
        → contains s.alive pid ≡ true
        → path ≡ maintenance_file root
        → read_file path s.files ≡ none
        → Owners (record s {
          files = (path, document (some pid) operation now) ∷ s.files;
          inside = pid ∷ s.inside;
        })
    unfolding pid_of
    entered-Owners pid path operation now a e h = rw e (record {
      no_zero = o.no_zero;
      updates = λ p k. (
        (o.updates p k).0,
        ap pid_of (
              read_file-other (maintenance_file root) (update_lock root) _ s.files
                (locks_differ root))
            ∙ (o.updates p k).1,
      );
      insides = λ p k. elim (Bool-cases (pid == p)) [
        | inl q ↦
            subst
              (Holds (maintenance_file root) s.alive
                ((maintenance_file root, document (some pid) operation now) ∷ s.files))
              (==→eq pid p q)
              (
                a,
                ap pid_of (
                    read_file-written (maintenance_file root) (document (some pid) operation now)
                      s.files),
              )
        | inr q ↦ absurd (
            cc (
              ap (λ x. read_file x s.files) e,
              h,
              Held-exists (maintenance_file root) s.files p (o.insides p (ground (arith, k, q))).1,
            ))
      ];
    })

    exits-Owners : (pid : ℕ) → Owners (act root (exits pid) s)
    unfolding act leave_maintenance
    exits-Owners pid = elim (Bool-cases (contains s.inside pid)) [
      | inl e ↦
          rw (e, lock_place root)
            (record {
              no_zero = o.no_zero;
              updates = λ p k. (
                (o.updates p k).0,
                ap pid_of (
                      read_file-unlink_other (maintenance_file root) (update_lock root) s.files
                        (locks_differ root))
                    ∙ (o.updates p k).1,
              );
              insides = λ p h.
                  let (k, d) = contains-without pid p s.inside h in
                  absurd (d (only (maintenance_file root) (o.insides p k).1 (o.insides pid e).1));
            })
      | inr e ↦ rw e o
    ]
      where
        only : (path : FilePath) {a b : ℕ} → Held path a s.files → Held path b s.files → a ≡ b
        only path x y = cc

    clears-Owners : Owners (act root clears s)
    unfolding act
    clears-Owners = record {
      no_zero = o.no_zero;
      updates = λ p k. (
        (o.updates p k).0,
        ap pid_of
              (after.1 ∙ left-Held (update_lock root) s.alive s.files p o.no_zero (o.updates p k))
            ∙ (o.updates p k).1,
      );
      insides = λ p k. (
        (o.insides p k).0,
        ap pid_of (
              after.0
              ∙ left-Held (maintenance_file root) s.alive s.files p o.no_zero (o.insides p k))
            ∙ (o.insides p k).1,
      );
    }
      where
        open_files : Files
        open_files = (clear_stale_maintenance_lock (posix s.alive) (some root) s.files).1

        after :
            (read_file (maintenance_file root) open_files
              ≡ left (posix s.alive) (maintenance_file root) s.files)
            × (read_file (update_lock root) open_files
                ≡ left (posix s.alive) (update_lock root) s.files)
        after =
            let all = clear_stale_maintenance_lock-Clears (posix s.alive) root s.files in
            (all.0, all.1)

    enters-Owners :
        (pid : ℕ) (operation : String) (now : ℕ) → Owners (act root (enters pid operation now) s)
    unfolding act enter_maintenance note_enter
    enters-Owners pid operation now = elim (Bool-cases (contains s.alive pid)) [
      | inl e ↦
          rw e
            (elim (Option-cases
              (read_file (database_maintenance_path (desktop_database root)) s.files)) [
                | inl k ↦ rw k (entered-Owners pid _ operation now e (lock_place root) k)
                | inr (c, k) ↦ rw k o
              ])
      | inr e ↦ rw e o
    ]

  act-Owners : (e : Event) (s : Processes) → Owners s → Owners (act root e s)
  act-Owners (launches pid) s o = launches-Owners o pid
  act-Owners (dies pid) s o = dies-Owners o pid
  act-Owners (begins pid now) s o = begins-Owners o pid now
  act-Owners (finishes pid) s o = finishes-Owners o pid
  act-Owners (enters pid operation now) s o = enters-Owners o pid operation now
  act-Owners (exits pid) s o = exits-Owners o pid
  act-Owners clears s o = clears-Owners o

  pub act_all-Owners : (es : List Event) (s : Processes) → Owners s → Owners (act_all root es s)
  unfolding act_all
  act_all-Owners [] s o = o
  act_all-Owners (e ∷ es) s o = act_all-Owners es (act root e s) (act-Owners e s o)
