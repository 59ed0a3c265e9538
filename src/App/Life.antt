-- ===== src/App/Life.antt =====
-- `Start`, `Stop` and the choice of the restart loop of app/app.go.
use velux_to_mqtt_gw.Prelude.{
  ℕ, ◌+◌, ◌*◌, ◌/◌, ◌∷◌, true, false, not, if◌then◌else◌, ltb, ◌==◌, ok, err,
}
use velux_to_mqtt_gw.Prelude.Int.{ℤ, pos, negsuc}
use velux_to_mqtt_gw.Config.{
  RestartConfig, power_cycle_enabled, restart_time_of_day, restart_scheduled,
}
use velux_to_mqtt_gw.App.State.{
  Failure, bring_up_failed, startup_reboot, closed_all, loops_started, loops_stopped, World, Wiring,
  App, Outcome, succeeded, failed, event, record_contact, start_heartbeat, stop_heartbeat,
  drop_session,
}
use velux_to_mqtt_gw.App.Connect.{connect_and_load, register_covers}
use velux_to_mqtt_gw.App.Recover.{do_reboot, do_power_cycle}

-- The health check and the restarts run from here on.
abbrev pub launch_loops : App → App
launch_loops s = event loops_started s

-- A bring-up that worked is followed by a reboot, which frees the sessions of a former run.
unfoldable pub after_startup_reboot : Outcome → Outcome
after_startup_reboot (failed e s) = failed (startup_reboot e) s
after_startup_reboot (succeeded s) = succeeded (launch_loops s)

unfoldable pub after_register : World → Wiring → Outcome → Outcome
after_register w wiring (failed e s) = failed e s
after_register w wiring (succeeded s) =
    after_startup_reboot (do_reboot w wiring (start_heartbeat s))

-- One that failed with `e` is repaired with the plug, if there is one.
unfoldable pub after_startup_cycle : Failure → Outcome → Outcome
after_startup_cycle e (failed why s) = failed (bring_up_failed e) s
after_startup_cycle e (succeeded s) = succeeded (launch_loops s)

unfoldable pub after_load : World → Wiring → RestartConfig → Outcome → Outcome
after_load w wiring rc (succeeded s) = after_register w wiring (register_covers w s)
after_load w wiring rc (failed e s) =
    if not (power_cycle_enabled rc)
    then failed e s
    else after_startup_cycle e (do_power_cycle w wiring rc s)

unfoldable pub start : World → Wiring → RestartConfig → App → Outcome
start w wiring rc s = after_load w wiring rc (connect_and_load w wiring (record_contact w s))

-- The loops end, then the covers go offline and their discovery with them, then the session.
unfoldable pub stop : App → App
stop s =
    if s.stopped
    then s
    else (let quiet = stop_heartbeat (event loops_stopped (record s { stopped = true })) in
        drop_session (record quiet { available = false; trace = closed_all ∷ quiet.trace }))

-- The loop that `startRebootLoop` starts; the interval is in hours.
pub data RestartLoop : Type 0 where
  no_restarts : RestartLoop
  at_time : (hour minute : ℕ) → RestartLoop
  every : ℕ → RestartLoop

unfoldable pub interval_loop : ℤ → RestartLoop
interval_loop (negsuc n) = no_restarts
interval_loop (pos n) = if n == 0 then no_restarts else every n

unfoldable pub start_reboot_loop : RestartConfig → RestartLoop
start_reboot_loop rc = elim (restart_time_of_day rc) [
  | err e ↦ interval_loop rc.restart_interval
  | ok (hour, minute) ↦
      if restart_scheduled rc then at_time hour minute else interval_loop rc.restart_interval
]

abbrev pub nanoseconds : ℕ → ℕ
nanoseconds seconds = seconds * 1000000000

-- `nextRestartTime`, where no day is longer or shorter than another: times are the location's own,
-- in nanoseconds from a midnight on.
unfoldable pub next_restart_time : ℕ → ℕ → ℕ → ℕ
next_restart_time now hour minute =
    let day = now / nanoseconds 86400 in
    let next = nanoseconds (day * 86400 + hour * 3600 + minute * 60) in
    if ltb now next then next else nanoseconds ((day + 1) * 86400 + hour * 3600 + minute * 60)
