-- ===== src/Scheduler/Tray.antt =====
-- What the catch-up and the tray's toggle do to the schedulers.
use searchcar_desktop.Base.{
  ℕ, ◌≤◌, ◌≡◌, refl, inl, inr, Bool, true, false, ◌&&◌, not, none, some, or_some, Option, ◌+◌, ap,
  ◌∙◌, List, [], ◌∷◌, map, all, select, contains, is_some, In, Bool-cases, if◌then◌else◌,
}
use searchcar_desktop.Store.{Db, SchedulerSetting}
use searchcar_desktop.Scheduler.Settings.{
  configured, configured_settings, any_running, some_setting, toggle_row, toggle_all_schedulers,
  tray_scheduler_status, earliest, TrayStatus, minutes,
}

In-map :
    (f : SchedulerSetting → SchedulerSetting) (s : SchedulerSetting) (ss : List SchedulerSetting)
    → In s ss
    → In (f s) (map f ss)
In-map f s [] m = elim m [ ]
In-map f s (x ∷ ss) (inl e) = inl (cc)
In-map f s (x ∷ ss) (inr m) = inr (In-map f s ss m)

-- why a scheduler's run is taken up: its owner is forced, its interval has passed since the last
-- completed run, or no run was completed and the time of the next one is there
pub data Reason (now : ℕ) (forced : List ℕ) (s : SchedulerSetting) : Type 0 where
  is_forced : contains forced s.user_id ≡ true → Reason now forced s
  is_over :
      (completed : ℕ)
      → s.last_completed_run_at ≡ some completed
      → completed + minutes s.interval_minutes ≤ now
      → Reason now forced s
  is_next :
      (t : ℕ)
      → s.last_completed_run_at ≡ none
      → s.next_run_at ≡ some t
      → t ≤ now
      → Reason now forced s

-- paused, or going on with a time for the next run
abbrev pub set_to : Bool → SchedulerSetting → Bool
set_to pause s = if pause then s.paused else not s.paused && is_some s.next_run_at

-- what the toggle makes of a scheduler: it stays enabled, with its owner, its
-- interval and its last completed run, and is paused or goes on
abbrev pub Toggled : Bool → Bool → SchedulerSetting → SchedulerSetting → Type 0
Toggled false pause s t = t ≡ s
Toggled true pause s t =
    (t.id ≡ s.id)
    × (t.user_id ≡ s.user_id)
    × (t.enabled ≡ s.enabled)
    × (t.interval_minutes ≡ s.interval_minutes)
    × (t.last_completed_run_at ≡ s.last_completed_run_at)
    × (set_to pause t ≡ true)

toggle_row-Toggled :
    (pause : Bool) (now : ℕ) (db : Db) (s : SchedulerSetting) (c : Bool)
    → configured db s ≡ c
    → Toggled c pause s (toggle_row pause now db s)
unfolding toggle_row
toggle_row-Toggled pause now db s false h = rw h refl
toggle_row-Toggled true now db s true h = rw h (refl, refl, refl, refl, refl, refl)
toggle_row-Toggled false now db s true h =
    rw h (refl, refl, refl, refl, refl, some_time s.next_run_at)
  where
    some_time : (o : Option ℕ) → is_some (or_some o now) ≡ true
    some_time none = refl
    some_time (some t) = refl

none_Toggled :
    (pause : Bool) (db : Db) (s : SchedulerSetting) (ss : List SchedulerSetting)
    → In s ss
    → some_setting (select (configured db) ss) ≡ false
    → Toggled (configured db s) pause s s
none_Toggled pause db s [] m h = elim m [ ]
none_Toggled pause db s (x ∷ ss) m h = elim (Bool-cases (configured db x)) [
  | inl e ↦ absurd (cc (rw e at h))
  | inr e ↦ elim m [
    | inl q ↦ rw (ap (configured db) q ∙ e) refl
    | inr n ↦ none_Toggled pause db s ss n (rw e at h)
  ]
]

abbrev status_of : List SchedulerSetting → TrayStatus
status_of ss = record {
  enabled = some_setting ss;
  paused = some_setting ss && all (λ s. s.paused) ss;
  next_run_at = earliest ss;
}

none_status :
    (ss : List SchedulerSetting)
    → some_setting ss ≡ false
    → (record { enabled = false; paused = false; next_run_at = none }) ≡ status_of ss
unfolding earliest
none_status [] h = refl
none_status (s ∷ ss) h = absurd (cc)

-- The tray's toggle keeps every scheduler, and pauses all that are configured (enabled, with projects
-- and an active owner) if one of these was going on, and otherwise lets each go on, with a time for
-- its next run; they stay enabled, with owner, interval and last completed run, and the others stay
-- as they were. Its reply is the state of the schedulers after it.
pub toggle_all_schedulers-Toggles :
    (now : ℕ) (db : Db) (s : SchedulerSetting)
    → In s db.settings
    → let (reply, db') = toggle_all_schedulers now db in
      (reply ≡ tray_scheduler_status db')
      × ((t : SchedulerSetting) × In t db'.settings
          × Toggled (configured db s) (any_running (configured_settings db)) s t)
unfolding toggle_all_schedulers tray_scheduler_status
toggle_all_schedulers-Toggles now db s m =
    let pause = any_running (configured_settings db) in
    elim (Bool-cases (some_setting (configured_settings db))) [
      | inl e ↦ rw e (
        refl,
        (
          toggle_row pause now db s,
          In-map (toggle_row pause now db) s db.settings m,
          toggle_row-Toggled pause now db s (configured db s) refl,
        ),
      )
      | inr e ↦
          rw e (
            none_status (configured_settings db) e,
            (s, m, none_Toggled pause db s db.settings m e),
          )
    ]
