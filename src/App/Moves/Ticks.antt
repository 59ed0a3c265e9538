-- ===== src/App/Moves/Ticks.antt =====
-- The ticks of the two loops of app/app.go are sequences of moves.
use velux_to_mqtt_gw.Prelude.{ℕ, zero, suc, Bool, true, false, if◌then◌else◌, not}
use velux_to_mqtt_gw.Prelude.Int.{pos, negsuc}
use velux_to_mqtt_gw.Config.{RestartConfig, power_cycle_enabled, periodic_power_cycle_enabled}
use velux_to_mqtt_gw.App.State.{
  World, Wiring, App, Outcome, succeeded, failed, after, recovered, contact_restored,
}
use velux_to_mqtt_gw.App.Recover.{do_reconnect, do_reboot, do_power_cycle}
use velux_to_mqtt_gw.App.Health.{
  flag_wedge, escalate_to_power_cycle, escalated, after_reboot, after_reconnect,
  after_periodic_cycle, recover, check_health, check_every, check_interval, run_periodic_restart,
  is_silent, is_debounce_error,
}
use velux_to_mqtt_gw.App.Moves.{
  Moves, reconnect, soft_restart, power_cycle, flag, clear, complain, done, then_move,
}

module _ (w : World) (wiring : Wiring) (rc : RestartConfig) where
  if-Moves :
      {s t u : App} (b : Bool)
      → Moves w wiring rc s t
      → Moves w wiring rc s u
      → Moves w wiring rc s (if b then t else u)
  if-Moves true ms ns = ms
  if-Moves false ms ns = ns

  escalated-Moves :
      {s : App} (o : Outcome) → Moves w wiring rc s (after o) → Moves w wiring rc s (escalated o)
  unfolding escalated
  escalated-Moves (failed e t) ms = then_move ms (complain e)
  escalated-Moves (succeeded t) ms = then_move ms (clear recovered)

  escalate-Moves :
      {s : App} (t : App)
      → Moves w wiring rc s t
      → Moves w wiring rc s (escalate_to_power_cycle w wiring rc t)
  unfolding escalate_to_power_cycle
  escalate-Moves t ms =
      if-Moves (not (power_cycle_enabled rc)) ms
        (escalated-Moves (do_power_cycle w wiring rc t) (then_move ms power_cycle))

  after_reboot-Moves :
      {s : App} (o : Outcome)
      → Moves w wiring rc s (after o)
      → Moves w wiring rc s (after_reboot w wiring rc o)
  unfolding after_reboot
  after_reboot-Moves (failed e t) ms = escalate-Moves t ms
  after_reboot-Moves (succeeded t) ms = then_move ms (clear recovered)

  after_reconnect-Moves :
      {s : App} (o : Outcome)
      → Moves w wiring rc s (after o)
      → Moves w wiring rc s (after_reconnect w wiring rc o)
  unfolding after_reconnect
  after_reconnect-Moves (failed e t) ms = escalate-Moves t ms
  after_reconnect-Moves (succeeded t) ms =
      after_reboot-Moves (do_reboot w wiring t) (then_move ms soft_restart)

  recover-Moves :
      {s : App} (t : App) → Moves w wiring rc s t → Moves w wiring rc s (recover w wiring rc t)
  unfolding recover
  recover-Moves t ms = after_reconnect-Moves (do_reconnect w wiring t) (then_move ms reconnect)

  after_periodic_cycle-Moves :
      {s : App} (o : Outcome)
      → Moves w wiring rc s (after o)
      → Moves w wiring rc s (after_periodic_cycle w wiring o)
  unfolding after_periodic_cycle
  after_periodic_cycle-Moves (succeeded t) ms = ms
  after_periodic_cycle-Moves (failed e t) ms =
      if-Moves (is_debounce_error e) ms (then_move ms soft_restart)

  silent-Moves :
      (interval : ℕ) (s : App) → Moves w wiring rc s (check_interval w wiring rc interval s)
  unfolding check_interval
  silent-Moves interval s =
      if-Moves (not (is_silent w interval s)) (then_move done (clear contact_restored)) (
        if-Moves rc.restart_on_error (recover-Moves (flag_wedge rc s) (then_move done flag))
          (then_move done flag))

  -- A pass of the health check is a sequence of moves, whatever it finds and does.
  pub check_health-Moves : (s : App) → Moves w wiring rc s (check_health w wiring rc s)
  unfolding check_health
  check_health-Moves s =
      elim rc.health_check_interval as (λ n. Moves w wiring rc s (check_every w wiring rc n s)) [
        | negsuc n ↦ done
        | pos zero ↦ done
        | pos (suc n) ↦ silent-Moves (suc n) s
      ]

  -- So is a tick of the restart loop.
  pub run_periodic_restart-Moves :
      (s : App) → Moves w wiring rc s (run_periodic_restart w wiring rc s)
  unfolding run_periodic_restart
  run_periodic_restart-Moves s =
      if-Moves (periodic_power_cycle_enabled rc)
        (after_periodic_cycle-Moves (do_power_cycle w wiring rc s) (then_move done power_cycle))
        (then_move done soft_restart)
