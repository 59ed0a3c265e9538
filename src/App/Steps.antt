-- ===== src/App/Steps.antt =====
-- The rule for the loop of `doReboot` and `doPowerCycle` in app/app.go: what each attempt keeps, the
-- loop concludes.
use velux_to_mqtt_gw.Prelude.{
  ℕ, List, [], ◌∷◌, ◌≡◌, arith, Option-cases, inl, inr, Bool, true, false, not, ◌&&◌, length, ◌≢◌,
}
use velux_to_mqtt_gw.App.State.{
  Failure, waited, exhausted, World, Wiring, App, Outcome, Outcome-cases, succeeded, failed, after,
  event, drop_session, called, reboot, nil_error, stop_heartbeat,
}
use velux_to_mqtt_gw.App.Connect.{connect_and_load}
use velux_to_mqtt_gw.App.Recover.{
  bring_up, retry, retry_schedule, reboot_backoff_schedule, do_reboot, dwell_seconds, power_on,
  power_off, restore_power, cut_power, do_power_cycle, is_debounced,
}
use velux_to_mqtt_gw.Config.{RestartConfig, power_cycle_enabled}

abbrev pub Either : (App → Type 0) → (App → Type 0) → Outcome → Type 0
Either R P (succeeded s) = R s
Either R P (failed e s) = P s

module _ (w : World) (wiring : Wiring) (P R : App → Type 0) (Q : Outcome → Type 0)
    (fails : (e : Failure) (s : App) → P s → Q (failed e s))
    (loads : (wait : ℕ) (s : App)
      → P s
      → Either R (λ t. P (drop_session t)) (connect_and_load w wiring (event (waited wait) s)))
    (ups : (s : App) → R s → Q (bring_up w s)) where
  pub retry_rule :
      (slots : ℕ) (last : Failure) (waits : List ℕ) (s : App)
      → P s
      → Q (retry w wiring slots last waits s)
  unfolding retry
  retry_rule slots last [] s p = fails (exhausted slots last) s p
  retry_rule slots last (wait ∷ waits) s p = elim (Option-cases (w.ctx_done s.trace)) [
    | inr (e, done) ↦ rw (retry, done) (fails e s p)
    | inl go ↦ elim (Outcome-cases (connect_and_load w wiring (event (waited wait) s))) [
      | inl (e, t, down) ↦
          let kept = loads wait s p in
          rw (retry, go, down) (retry_rule slots e waits (drop_session t) (rw down at kept))
      | inr (t, up) ↦ let kept = loads wait s p in rw (retry, go, up) (ups t (rw up at kept))
    ]
  ]

  pub retry_schedule_rule : (s : App) → P s → Q (retry_schedule w wiring s)
  unfolding retry_schedule
  retry_schedule_rule s p =
      retry_rule (length reboot_backoff_schedule) nil_error reboot_backoff_schedule s p

  pub do_reboot_rule :
      (s : App)
      → P (drop_session (event (called reboot) (stop_heartbeat s)))
      → Q (do_reboot w wiring s)
  unfolding do_reboot
  do_reboot_rule s p =
      retry_schedule_rule (drop_session (event (called reboot) (stop_heartbeat s))) p

  -- The state behind the dwell, cut short or not.
  pub restore_power_rule :
      (rc : RestartConfig) (s : App)
      → ((e : Failure) → Q (failed e (power_on rc s)))
      → P (power_on rc (event (waited (dwell_seconds rc)) s))
      → Q (restore_power w wiring rc s)
  unfolding restore_power
  restore_power_rule rc s short long = elim (Option-cases (w.ctx_done s.trace)) [
    | inr (e, done) ↦ rw (restore_power, done) (short e)
    | inl go ↦
        rw (restore_power, go)
          (retry_schedule_rule (power_on rc (event (waited (dwell_seconds rc)) s)) long)
  ]

  pub cut_power_rule :
      (rc : RestartConfig) (now : ℕ) (s : App)
      → ((e : Failure) → Q (failed e (power_on rc (power_off rc now s))))
      → P (power_on rc (event (waited (dwell_seconds rc)) (power_off rc now s)))
      → Q (cut_power w wiring rc now s)
  unfolding cut_power
  cut_power_rule rc now s short long = restore_power_rule rc (power_off rc now s) short long

-- When `doPowerCycle` does anything at all.
abbrev pub accepts : World → Wiring → RestartConfig → App → Bool
accepts w wiring rc s =
    wiring.has_publish && (power_cycle_enabled rc && not (is_debounced s (w.clock s.trace)))

pub do_power_cycle-accepted :
    (w : World) (wiring : Wiring) (rc : RestartConfig) (s : App)
    → accepts w wiring rc s ≡ true
    → do_power_cycle w wiring rc s ≡ cut_power w wiring rc (w.clock s.trace) s
unfolding do_power_cycle
do_power_cycle-accepted w wiring rc s h = ground arith

pub do_power_cycle-refused :
    (w : World) (wiring : Wiring) (rc : RestartConfig) (s : App)
    → accepts w wiring rc s ≡ false
    → (after (do_power_cycle w wiring rc s) ≡ s)
      × ((t : App) → do_power_cycle w wiring rc s ≢ succeeded t)
unfolding do_power_cycle
do_power_cycle-refused w wiring rc s h = ground arith
