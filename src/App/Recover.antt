-- ===== src/App/Recover.antt =====
-- The three recoveries of app/app.go that hold `resetMu`, from the cheapest to the hardest:
-- `doReconnect`, `doReboot` and `doPowerCycle`.
use velux_to_mqtt_gw.Prelude.{
  ℕ, ◌-◌, List, [], ◌∷◌, Bool, not, ◌&&◌, none, some, if◌then◌else◌, ltb, ◌==◌, length,
}
use velux_to_mqtt_gw.Prelude.Int.{to_ℕ}
use velux_to_mqtt_gw.Config.{RestartConfig, power_cycle_enabled}
use velux_to_mqtt_gw.App.State.{
  reboot, Failure, no_publish_wiring, no_topic, debounced, nil_error, exhausted, register_failed,
  called, waited, reported, power_cycling, World, Wiring, App, Outcome, succeeded, failed, event,
  start_heartbeat, stop_heartbeat, publish, drop_session,
}
use velux_to_mqtt_gw.App.Connect.{◌then_try◌, connect_and_load, register_covers}

-- `rebootBackoffSchedule`
unfoldable pub reboot_backoff_schedule : List ℕ
reboot_backoff_schedule = 2 ∷ 5 ∷ 10 ∷ 30 ∷ 60 ∷ 90 ∷ 120 ∷ []

-- `powerCycleMinGap`, in nanoseconds.
abbrev pub power_cycle_min_gap : ℕ
power_cycle_min_gap = 900000000000

unfoldable pub do_reconnect : World → Wiring → App → Outcome
do_reconnect w wiring s =
    connect_and_load w wiring (drop_session (stop_heartbeat s))
    then_try (λ s. register_covers w s)
    then_try (λ s. succeeded (start_heartbeat s))

-- What follows a successful attempt of the loop below.
unfoldable pub bring_up : World → App → Outcome
bring_up w s = elim (register_covers w s) [
  | failed e t ↦ failed (register_failed e) t
  | succeeded t ↦ succeeded (start_heartbeat t)
]

-- The loop over the schedule that `doReboot` and `doPowerCycle` share; `slots` is the length of the
-- whole schedule, and `last` is `lastErr`.
unfoldable pub retry : World → Wiring → ℕ → Failure → List ℕ → App → Outcome
retry w wiring slots last [] s = failed (exhausted slots last) s
retry w wiring slots last (wait ∷ waits) s = elim (w.ctx_done s.trace) [
  | some e ↦ failed e s
  | none ↦ elim (connect_and_load w wiring (event (waited wait) s)) [
    | succeeded t ↦ bring_up w t
    | failed e t ↦ retry w wiring slots e waits (drop_session t)
  ]
]

unfoldable pub retry_schedule : World → Wiring → App → Outcome
retry_schedule w wiring s =
    retry w wiring (length reboot_backoff_schedule) nil_error reboot_backoff_schedule s

unfoldable pub do_reboot : World → Wiring → App → Outcome
do_reboot w wiring s =
    retry_schedule w wiring (drop_session (event (called reboot) (stop_heartbeat s)))

-- A negative dwell is over at once.
abbrev pub dwell_seconds : RestartConfig → ℕ
dwell_seconds rc = to_ℕ rc.power_cycle_off_seconds

-- A clock that has gone back counts as no time passed.
abbrev pub is_debounced : App → ℕ → Bool
is_debounced s now =
    not (s.last_power_cycle == 0) && ltb (now - s.last_power_cycle) power_cycle_min_gap

abbrev pub power_on : RestartConfig → App → App
power_on rc s = publish rc.power_cycle_topic rc.power_cycle_on_payload s

-- Behind the dwell, whether it ended or the shutdown cut it short, the power comes back.
unfoldable pub restore_power : World → Wiring → RestartConfig → App → Outcome
restore_power w wiring rc s = elim (w.ctx_done s.trace) [
  | some e ↦ failed e (power_on rc s)
  | none ↦ retry_schedule w wiring (power_on rc (event (waited (dwell_seconds rc)) s))
]

-- The first half of a cycle, at the time `now`.
unfoldable pub power_off : RestartConfig → ℕ → App → App
power_off rc now s =
    let stopped = stop_heartbeat (record s { last_power_cycle = now }) in
    let announced = event (reported (power_cycling now)) stopped in
    drop_session (publish rc.power_cycle_topic rc.power_cycle_off_payload announced)

unfoldable pub cut_power : World → Wiring → RestartConfig → ℕ → App → Outcome
cut_power w wiring rc now s = restore_power w wiring rc (power_off rc now s)

unfoldable pub do_power_cycle : World → Wiring → RestartConfig → App → Outcome
do_power_cycle w wiring rc s =
    if not wiring.has_publish
    then failed no_publish_wiring s
    else if not (power_cycle_enabled rc)
    then failed no_topic s
    else if is_debounced s (w.clock s.trace)
    then failed debounced s
    else cut_power w wiring rc (w.clock s.trace) s
