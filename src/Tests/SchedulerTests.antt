-- ===== src/Tests/SchedulerTests.antt =====
-- The scheduler of the sample tables.
use searchcar_desktop.Base.{◌≡◌, refl, inl, true, false, arith, any, In}
use searchcar_desktop.Store.{SchedulerSetting}
use searchcar_desktop.Scheduler.Settings.{
  configured, toggle_all_schedulers, tray_scheduler_status, any_running, configured_settings,
}
use searchcar_desktop.Scheduler.Poll.{enqueue_scheduled}
use searchcar_desktop.Scheduler.Due.{due, enqueue_scheduled-due}
use searchcar_desktop.Scheduler.Owners.{Grown, unfinished_of, enqueue_scheduled-Grown}
use searchcar_desktop.Scheduler.Tray.{Toggled, toggle_all_schedulers-Toggles}
use searchcar_desktop.Tests.Samples.{sample_db, sample_setting}

enqueue_scheduled-due_example :
    let db' = enqueue_scheduled false true 150 150 sample_db in
    any (due 150 db') db'.settings ≡ false
enqueue_scheduled-due_example = enqueue_scheduled-due true 150 150 sample_db (omega arith)

enqueue_scheduled-Grown_example :
    Grown
      (unfinished_of 1 sample_db)
      (unfinished_of 1 (enqueue_scheduled false true 150 150 sample_db))
enqueue_scheduled-Grown_example = enqueue_scheduled-Grown 1 false true 150 150 sample_db

toggle_all_schedulers-Toggles_example :
    let (reply, db') = toggle_all_schedulers 120 sample_db in
    (reply ≡ tray_scheduler_status db')
    × ((t : SchedulerSetting) × In t db'.settings
        × Toggled
            (configured sample_db sample_setting)
            (any_running (configured_settings sample_db))
            sample_setting
            t)
toggle_all_schedulers-Toggles_example =
    toggle_all_schedulers-Toggles 120 sample_db sample_setting (inl refl)
