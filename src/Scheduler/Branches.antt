-- ===== src/Scheduler/Branches.antt =====
-- What one step of the poll may leave behind.
use searchcar_desktop.Base.{
  ℕ, ◌≡◌, refl, arith, Bool, true, false, not, ◌&&◌, Option, none, some, ltb, leb, if◌then◌else◌,
}
use searchcar_desktop.Store.{Db, SchedulerSetting}
use searchcar_desktop.Scheduler.Poll.{poll_setting, run_due, rescheduled}

-- no time, or a time that has come
abbrev pub time_is_up : ℕ → Option ℕ → Bool
time_is_up now none = true
time_is_up now (some t) = leb t now

-- the branches of one step of the poll
pub poll_setting-elim :
    (P : SchedulerSetting × Db → Type 0) (can_run : Bool) (now created : ℕ) (s : SchedulerSetting)
    (db : Db)
    → ((not s.paused && time_is_up now s.next_run_at) ≡ false → P (s, db))
    → P (rescheduled now s, db)
    → P (run_due now created s db)
    → P (poll_setting can_run now created s db)
unfolding poll_setting
poll_setting-elim P can_run now created s db idle later due = branches s.paused s.next_run_at idle
  where
    timed :
        (early run : Bool)
        → (early ≡ true → P (s, db))
        → P (
            if early
            then (s, db)
            else if run
            then run_due now created s db
            else (rescheduled now s, db))
    timed true run k = k refl
    timed false true k = due
    timed false false k = later

    branches :
        (paused : Bool) (next : Option ℕ)
        → ((not paused && time_is_up now next) ≡ false → P (s, db))
        → P (
            if◌then◌else◌ {A = SchedulerSetting × Db} paused
              (s, db)
              (elim next [
                | none ↦ (rescheduled now s, db)
                | some t ↦
                    if ltb now t
                    then (s, db)
                    else if can_run
                    then run_due now created s db
                    else (rescheduled now s, db)
              ]))
    branches true next k = k refl
    branches false none k = later
    branches false (some t) k = timed (ltb now t) can_run (λ e. k (ground (arith, e)))

-- nothing happens before the time of a scheduler
pub poll_setting-quiet :
    (can_run : Bool) (now created : ℕ) (s : SchedulerSetting) (db : Db)
    → (not s.paused && time_is_up now s.next_run_at) ≡ false
    → poll_setting can_run now created s db ≡ (s, db)
unfolding poll_setting
poll_setting-quiet can_run now created s db h = quiet s.paused s.next_run_at h
  where
    quiet :
        (paused : Bool) (next : Option ℕ)
        → (not paused && time_is_up now next) ≡ false
        → (if◌then◌else◌ {A = SchedulerSetting × Db} paused
            (s, db)
            (elim next [
              | none ↦ (rescheduled now s, db)
              | some t ↦
                  if ltb now t
                  then (s, db)
                  else if can_run
                  then run_due now created s db
                  else (rescheduled now s, db)
            ]))
          ≡ (s, db)
    quiet true next h = refl
    quiet false none h = absurd (cc)
    quiet false (some t) h = let early : ltb now t ≡ true = ground (arith, h) in rw early refl
