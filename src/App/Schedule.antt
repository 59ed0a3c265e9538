-- ===== src/App/Schedule.antt =====
-- When the periodic restart of app/app.go fires.
use velux_to_mqtt_gw.Prelude.{
  ℕ, ◌+◌, ◌*◌, ◌%◌, ◌≤◌, ◌<◌, ◌≡◌, ◌≢◌, arith, false, ok, err, Result-cases, inl, inr,
}
use velux_to_mqtt_gw.Config.{
  Config, RestartConfig, load_config, restart_time_of_day, restart_scheduled, is_empty, validate,
  apply_defaults, Invalid,
}
use velux_to_mqtt_gw.App.Life.{next_restart_time, nanoseconds, start_reboot_loop, at_time}

-- The next restart lies after now, at most one day ahead, and at the hour and minute asked for.
pub next_restart_time-next :
    (now hour minute : ℕ)
    → hour < 24
    → minute < 60
    → (now < next_restart_time now hour minute)
      × (next_restart_time now hour minute ≤ now + nanoseconds 86400)
      × (next_restart_time now hour minute % nanoseconds 86400
          ≡ nanoseconds (hour * 3600 + minute * 60))
unfolding next_restart_time
next_restart_time-next now hour minute hh hm = ground arith

scheduled_time :
    (r : RestartConfig) {hour minute : ℕ}
    → is_empty r.restart_at ≡ false
    → restart_time_of_day r ≡ ok (hour, minute)
    → start_reboot_loop r ≡ at_time hour minute
unfolding start_reboot_loop restart_scheduled
scheduled_time r set e = ground arith

validated_time :
    (c : Config) (e : Invalid) → restart_time_of_day c.restart ≡ err e → validate c ≢ ok tt
unfolding validate
validated_time c e h = ground arith

loaded_time :
    (parsed c : Config) (e : Invalid)
    → restart_time_of_day c.restart ≡ err e
    → load_config parsed ≢ ok c
unfolding load_config
loaded_time parsed c e h = ground (arith, validated_time (apply_defaults parsed) e)

-- A configuration that was loaded with `restart-at` set runs the loop at the time of day written
-- there, whatever its interval is.
pub start_reboot_loop-scheduled :
    (parsed c : Config)
    → load_config parsed ≡ ok c
    → is_empty c.restart.restart_at ≡ false
    → (time : ℕ × ℕ) × (restart_time_of_day c.restart ≡ ok time)
      × (start_reboot_loop c.restart ≡ at_time time.0 time.1)
start_reboot_loop-scheduled parsed c h set = elim (Result-cases (restart_time_of_day c.restart)) [
  | inl (e, refused) ↦ absurd (loaded_time parsed c e refused h)
  | inr (time, read) ↦ (time, read, scheduled_time c.restart set read)
]
