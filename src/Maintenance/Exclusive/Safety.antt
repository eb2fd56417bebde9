-- ===== src/Maintenance/Exclusive/Safety.antt =====
-- No two processes hold one lock, and whoever holds one keeps the scans away.
use searchcar_desktop.Base.{ℕ, ◌≡◌, refl, arith, true, some, List, [], contains}
use searchcar_desktop.Maintenance.{FilePath, Files, maintenance_active}
use searchcar_desktop.Maintenance.Locks.{update_lock, Held, Held-exists}
use searchcar_desktop.Maintenance.Stale.{maintenance_file}
use searchcar_desktop.Maintenance.Exclusive.{Processes, Event, act_all}
use searchcar_desktop.Maintenance.Exclusive.Kept.{Owners, act_all-Owners}

-- the two locks, and who holds them
pub data Lock : Type 0 where
  installation maintenance : Lock

abbrev pub holders : Lock → Processes → List ℕ
holders installation s = s.updating
holders maintenance s = s.inside

-- no process is there yet; the files may hold anything
abbrev pub deserted : Files → Processes
deserted fs = record { files = fs; alive = []; updating = []; inside = [] }

module _ (root : FilePath) where
  deserted-Owners : (fs : Files) → Owners root (deserted fs)
  deserted-Owners fs = record { no_zero = refl; updates = λ p h. cc; insides = λ p h. cc }

  one_owner : (path : FilePath) (fs : Files) (p q : ℕ) → Held path p fs → Held path q fs → p ≡ q
  one_owner path fs p q h k = cc

  exists-active :
      (lock : Lock) (s : Processes) (p : ℕ)
      → Owners root s
      → contains (holders lock s) p ≡ true
      → maintenance_active (some root) s.files ≡ true
  unfolding maintenance_active update_lock maintenance_file
  exists-active installation s p o h =
      rw (Held-exists (update_lock root) s.files p (o.updates p h).1) (ground arith)
  exists-active maintenance s p o h =
      rw (Held-exists (maintenance_file root) s.files p (o.insides p h).1) refl

  same-holder :
      (lock : Lock) (s : Processes) (p q : ℕ)
      → Owners root s
      → contains (holders lock s) p ≡ true
      → contains (holders lock s) q ≡ true
      → p ≡ q
  same-holder installation s p q o h k =
      one_owner (update_lock root) s.files p q (o.updates p h).1 (o.updates q k).1
  same-holder maintenance s p q o h k =
      one_owner (maintenance_file root) s.files p q (o.insides p h).1 (o.insides q k).1

  -- Whatever the files hold at first, and in whatever order processes start, die, begin and finish
  -- installations of updates, enter and leave maintenances and clear stale locks: two processes
  -- that hold the same lock are one, and while it holds it the maintenance is active.
  pub act_all-exclusive :
      (fs : Files) (es : List Event) (lock : Lock) (p q : ℕ)
      → contains (holders lock (act_all root es (deserted fs))) p ≡ true
      → contains (holders lock (act_all root es (deserted fs))) q ≡ true
      → (p ≡ q) × (maintenance_active (some root) (act_all root es (deserted fs)).files ≡ true)
  act_all-exclusive fs es lock p q h k =
      (same-holder lock after p q owners h k, exists-active lock after p owners h)
    where
      after : Processes
      after = act_all root es (deserted fs)

      owners : Owners root after
      owners = act_all-Owners root es (deserted fs) (deserted-Owners fs)
