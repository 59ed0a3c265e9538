-- ===== src/App/Health.antt =====
-- `checkHealth`, `escalateToPowerCycle` and `runPeriodicRestart` of app/app.go: which recovery runs
-- when, and what the covers show meanwhile.
use velux_to_mqtt_gw.Prelude.{
  ℕ, zero, suc, ◌-◌, ◌*◌, Bool, true, false, not, ◌&&◌, if◌then◌else◌, ltb,
}
use velux_to_mqtt_gw.Prelude.Int.{ℤ, pos, negsuc}
use velux_to_mqtt_gw.Config.{RestartConfig, power_cycle_enabled, periodic_power_cycle_enabled}
use velux_to_mqtt_gw.App.State
use velux_to_mqtt_gw.App.State.{
  Failure, Report, Restored, World, Wiring, App, Outcome, succeeded, failed, after, event, reported,
  mark_all_unavailable, mark_all_available,
}
use velux_to_mqtt_gw.App.Recover.{do_reconnect, do_reboot, do_power_cycle}

-- `errors.Is` for `context.Canceled` or `DeadlineExceeded`: it looks through every `%w`.
unfoldable pub is_context_error : Failure → Bool
is_context_error State.canceled = true
is_context_error State.deadline_exceeded = true
is_context_error (State.exhausted n e) = is_context_error e
is_context_error (State.register_failed e) = is_context_error e
is_context_error (State.bring_up_failed e) = is_context_error e
is_context_error (State.startup_reboot e) = is_context_error e
is_context_error e = false

-- `errors.Is(err, errPowerCycleDebounced)`
unfoldable pub is_debounce_error : Failure → Bool
is_debounce_error State.debounced = true
is_debounce_error (State.exhausted n e) = is_debounce_error e
is_debounce_error (State.register_failed e) = is_debounce_error e
is_debounce_error (State.bring_up_failed e) = is_debounce_error e
is_debounce_error (State.startup_reboot e) = is_debounce_error e
is_debounce_error e = false

-- The `switch` over the error of an escalation.
unfoldable pub escalation_report : Failure → Report
escalation_report e =
    if is_debounce_error e
    then State.still_debounced
    else if is_context_error e
    then State.aborted_by_shutdown
    else State.power_cycle_failed

-- `if a.wedged.CompareAndSwap(true, false) { log; a.cm.MarkAllAvailable() }`
unfoldable pub clear_wedge : Restored → App → App
clear_wedge why s =
    if s.wedged
    then mark_all_available (event (reported (State.restored why)) (record s { wedged = false }))
    else s

-- What `escalateToPowerCycle` does with the outcome of the cycle.
unfoldable pub escalated : Outcome → App
escalated (failed e t) = event (reported (escalation_report e)) t
escalated (succeeded t) = clear_wedge State.recovered t

unfoldable pub escalate_to_power_cycle : World → Wiring → RestartConfig → App → App
escalate_to_power_cycle w wiring rc s =
    if not (power_cycle_enabled rc) then s else escalated (do_power_cycle w wiring rc s)

-- The first tick that finds the gateway silent flags it and takes the covers offline.
unfoldable pub flag_wedge : RestartConfig → App → App
flag_wedge rc s =
    if s.wedged
    then s
    else mark_all_unavailable (
        event
          (reported (
            if power_cycle_enabled rc && rc.restart_on_error
            then State.unreachable_automatic
            else State.unreachable_manual))
          (record s { wedged = true }))

-- The ladder: a new session, then a reboot of the gateway, and the plug where either fails.
unfoldable pub after_reboot : World → Wiring → RestartConfig → Outcome → App
after_reboot w wiring rc (failed e s) = escalate_to_power_cycle w wiring rc s
after_reboot w wiring rc (succeeded s) = clear_wedge State.recovered s

unfoldable pub after_reconnect : World → Wiring → RestartConfig → Outcome → App
after_reconnect w wiring rc (failed e s) = escalate_to_power_cycle w wiring rc s
after_reconnect w wiring rc (succeeded s) = after_reboot w wiring rc (do_reboot w wiring s)

unfoldable pub recover : World → Wiring → RestartConfig → App → App
recover w wiring rc s = after_reconnect w wiring rc (do_reconnect w wiring s)

-- Nanoseconds without contact that are still healthy: the interval, times 2.0.
abbrev pub threshold : ℕ → ℕ
threshold interval = interval * 1000000000 * 2

-- A last contact that lies in the future is no time ago.
abbrev pub is_silent : World → ℕ → App → Bool
is_silent w interval s = ltb (threshold interval) (w.clock s.trace - s.last_contact)

-- A pass where the interval is positive.
unfoldable pub check_interval : World → Wiring → RestartConfig → ℕ → App → App
check_interval w wiring rc interval s =
    if not (is_silent w interval s)
    then clear_wedge State.contact_restored s
    else if rc.restart_on_error
    then recover w wiring rc (flag_wedge rc s)
    else flag_wedge rc s

abbrev pub check_every : World → Wiring → RestartConfig → ℤ → App → App
check_every w wiring rc (negsuc n) s = s
check_every w wiring rc (pos zero) s = s
check_every w wiring rc (pos (suc n)) s = check_interval w wiring rc (suc n) s

unfoldable pub check_health : World → Wiring → RestartConfig → App → App
check_health w wiring rc s = check_every w wiring rc rc.health_check_interval s

-- A failed cycle is followed by the reboot, unless one has just been.
unfoldable pub after_periodic_cycle : World → Wiring → Outcome → App
after_periodic_cycle w wiring (succeeded s) = s
after_periodic_cycle w wiring (failed e s) =
    if is_debounce_error e then s else after (do_reboot w wiring s)

unfoldable pub run_periodic_restart : World → Wiring → RestartConfig → App → App
run_periodic_restart w wiring rc s =
    if periodic_power_cycle_enabled rc
    then after_periodic_cycle w wiring (do_power_cycle w wiring rc s)
    else after (do_reboot w wiring s)
