-- ===== src/Maintenance/Update.antt =====
-- `prepare_desktop_update` of desktop_runtime.py, among the transactions of the other threads and
-- processes. These look for a lock file before their transaction begins, so that one that has found
-- none may still commit when the lock is there.
pub mod Ready
pub mod Released
use searchcar_desktop.Base.{
  ℕ, zero, suc, String, Bool, true, false, Option, none, some, List, [], ◌∷◌, map, if◌then◌else◌,
  ◌==◌, count_by,
}
use searchcar_desktop.Store.{Db, ScanRun, is_unfinished}
use searchcar_desktop.System.Events.{Event, claim, request, poll, run}
use searchcar_desktop.Maintenance.{
  FilePath, Files, maintenance_active, BeginReply, begun, begin_update_install,
  finish_update_install,
}

pub record World : Type 0 where
  pub files : Files
  pub db : Db

-- with what `maintenance_active` has replied
unfoldable pub under : Bool → Event → Event
under m (claim _ now w) = claim m now w
under m (request _ refusal kind payload owner now created) =
    request m refusal kind payload owner now created
under m (poll _ can_run now created) = poll m can_run now created
under m e = e

-- a transaction that commits before the files change again, or one that has asked whether the
-- maintenance is active at any time before, with the reply that the event holds
pub data Turn : Type 0 where
  prompt overtaken : Event → Turn

unfoldable pub event_of : Bool → Turn → Event
unfolding under
event_of m (prompt e) = under m e
event_of m (overtaken e) = e

pub data UpdateReply : Type 0 where
  active_scan : ℕ → UpdateReply
  ready : UpdateReply
  not_begun : BeginReply → UpdateReply
  backup_failed : String → UpdateReply

abbrev pub active_scan_count : Db → ℕ
active_scan_count db = count_by (λ (r : ScanRun). is_unfinished r.status) db.scan_runs

module _ (upper : ℕ → List ℕ) (is_space : ℕ → Bool) (root : FilePath) where
  -- the transactions of others, in order
  unfoldable pub meanwhile : List Turn → World → World
  unfolding event_of
  meanwhile events w = record w {
    db = run upper is_space (map (event_of (maintenance_active (some root) w.files)) events) w.db;
  }

  unfoldable pub give_up : ℕ → World → World
  give_up pid w = record w { files = (finish_update_install (some root) pid w.files).1 }

  -- `export_backup` ends with an error or not, after some more transactions
  unfoldable pub back_up : ℕ → List Turn → Option String → World → UpdateReply × World
  unfolding meanwhile give_up
  back_up pid during (some error) w = (backup_failed error, give_up pid (meanwhile during w))
  back_up pid during none w = (ready, meanwhile during w)

  -- the second count
  unfoldable pub recheck : ℕ → List Turn → Option String → World → UpdateReply × World
  unfolding back_up give_up
  recheck pid during failure w =
      if active_scan_count w.db == 0
      then back_up pid during failure w
      else (active_scan (active_scan_count w.db), give_up pid w)

  unfoldable pub guarded :
      BeginReply × Files → ℕ → List Turn → List Turn → Option String → World → UpdateReply × World
  unfolding recheck meanwhile
  guarded (begun _, fs) pid between during failure w =
      recheck pid during failure (meanwhile between (record w { files = fs }))
  guarded (refused, fs) pid between during failure w = (not_begun refused, record w { files = fs })

  -- `before`, `between` and `during` are the transactions of others after the first count, after the
  -- lock is there and until the backup is done; `failure` is the error of the backup
  unfoldable pub prepare_desktop_update :
      ℕ → ℕ → List Turn → List Turn → List Turn → Option String → World → UpdateReply × World
  unfolding guarded meanwhile
  prepare_desktop_update pid now before between during failure w =
      let w' = meanwhile before w in
      if active_scan_count w.db == 0
      then guarded (begin_update_install (some root) pid now w'.files) pid between during failure w'
      else (active_scan (active_scan_count w.db), w)
