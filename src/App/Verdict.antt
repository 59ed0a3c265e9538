-- ===== src/App/Verdict.antt =====
-- What a pass of the health check of app/app.go concludes, and what it does to the plug.
use velux_to_mqtt_gw.Prelude.{
  ℕ, suc, Bool, true, false, ◌≡◌, refl, arith, ◌⊎◌, inl, inr, if◌then◌else◌, not, Bool-cases, ap,
}
use velux_to_mqtt_gw.Prelude.Int.{pos}
use velux_to_mqtt_gw.Config.{RestartConfig, power_cycle_enabled}
use velux_to_mqtt_gw.App.State.{
  Restored, recovered, waited, World, Wiring, App, Outcome, succeeded, failed, after, event,
  record_contact, start_heartbeat, stop_heartbeat, drop_session, ask, mark_all_available,
  mark_all_unavailable,
}
use velux_to_mqtt_gw.App.Connect.{connect_client, connect_and_load, register_covers}
use velux_to_mqtt_gw.App.Recover.{bring_up, do_reconnect, do_reboot, do_power_cycle, power_off}
use velux_to_mqtt_gw.App.Steps.{
  Either, do_reboot_rule, cut_power_rule, accepts, do_power_cycle-accepted, do_power_cycle-refused,
}
use velux_to_mqtt_gw.App.Health.{
  flag_wedge, clear_wedge, escalated, escalate_to_power_cycle, after_reboot, after_reconnect,
  recover, check_health, check_interval, check_every, is_silent,
}

-- Flagged, or healthy again: not flagged, on a live session, with a heartbeat and covers online.
abbrev pub IsHealthy : App → Type 0
IsHealthy s =
    (s.wedged ≡ false) × (s.heartbeat ≡ true) × (s.connected ≡ true) × (s.available ≡ true)

abbrev Decided : App → Type 0
Decided s = (s.wedged ≡ true) ⊎ IsHealthy s

-- A recovery that was started while flagged.
abbrev Flagged : App → Type 0
Flagged s = s.wedged ≡ true

abbrev FlaggedUp : App → Type 0
FlaggedUp s = (s.wedged ≡ true) × (s.connected ≡ true)

abbrev Concludes : Outcome → Type 0
Concludes (succeeded s) =
    (s.wedged ≡ true) × (s.heartbeat ≡ true) × (s.connected ≡ true) × (s.available ≡ true)
Concludes (failed e s) = s.wedged ≡ true

load-Flagged :
    (w : World) (wiring : Wiring) (wait : ℕ) (s : App)
    → Flagged s
    → Either FlaggedUp
        (λ t. Flagged (drop_session t))
        (connect_and_load w wiring (event (waited wait) s))
unfolding connect_and_load connect_client ask record_contact drop_session
load-Flagged w wiring wait s h = ground arith

bring_up-flagged : (w : World) (s : App) → FlaggedUp s → Concludes (bring_up w s)
unfolding bring_up register_covers start_heartbeat
bring_up-flagged w s h = ground arith

do_reconnect-Flagged :
    (w : World) (wiring : Wiring) (s : App) → Flagged s → Concludes (do_reconnect w wiring s)
unfolding do_reconnect connect_and_load connect_client register_covers ask record_contact
    start_heartbeat stop_heartbeat drop_session
do_reconnect-Flagged w wiring s h = ground arith

do_reboot-Flagged :
    (w : World) (wiring : Wiring) (s : App) → Flagged s → Concludes (do_reboot w wiring s)
unfolding stop_heartbeat drop_session
do_reboot-Flagged w wiring s h =
    do_reboot_rule w wiring Flagged FlaggedUp Concludes (λ e t k. k) (load-Flagged w wiring)
      (bring_up-flagged w) s h

do_power_cycle-Flagged :
    (w : World) (wiring : Wiring) (rc : RestartConfig) (s : App)
    → Flagged s
    → Concludes (do_power_cycle w wiring rc s)
unfolding stop_heartbeat drop_session power_off
do_power_cycle-Flagged w wiring rc s h = elim (Bool-cases (accepts w wiring rc s)) [
  | inl on ↦ rw (do_power_cycle-accepted w wiring rc s on) (
      cut_power_rule w wiring Flagged FlaggedUp Concludes (λ e t k. k) (load-Flagged w wiring)
        (bring_up-flagged w) rc (w.clock s.trace) s (λ e. h) h)
  | inr off ↦ refused (do_power_cycle w wiring rc s) (do_power_cycle-refused w wiring rc s off)
]
  where
    refused : (o : Outcome) → (after o ≡ s) × ((t : App) → o ≡ succeeded t → ⊥) → Concludes o
    refused (succeeded t) (same, never) = absurd (never t refl)
    refused (failed e t) (same, never) = ground arith

cleared : (why : Restored) (s : App) → Concludes (succeeded s) → IsHealthy (clear_wedge why s)
unfolding clear_wedge mark_all_available
cleared why s h = ground arith

escalated-Decided : (o : Outcome) → Concludes o → Decided (escalated o)
unfolding escalated
escalated-Decided (failed e s) h = inl h
escalated-Decided (succeeded s) h = inr (cleared recovered s h)

if-Decided : (b : Bool) (s t : App) → Decided s → Decided t → Decided (if b then s else t)
if-Decided true s t hs ht = hs
if-Decided false s t hs ht = ht

escalate-Decided :
    (w : World) (wiring : Wiring) (rc : RestartConfig) (s : App)
    → Flagged s
    → Decided (escalate_to_power_cycle w wiring rc s)
unfolding escalate_to_power_cycle
escalate-Decided w wiring rc s h =
    if-Decided (not (power_cycle_enabled rc)) s (escalated (do_power_cycle w wiring rc s)) (inl h)
      (escalated-Decided (do_power_cycle w wiring rc s) (do_power_cycle-Flagged w wiring rc s h))

after_reboot-Decided :
    (w : World) (wiring : Wiring) (rc : RestartConfig) (o : Outcome)
    → Concludes o
    → Decided (after_reboot w wiring rc o)
unfolding after_reboot
after_reboot-Decided w wiring rc (failed e s) h = escalate-Decided w wiring rc s h
after_reboot-Decided w wiring rc (succeeded s) h = inr (cleared recovered s h)

after_reconnect-Decided :
    (w : World) (wiring : Wiring) (rc : RestartConfig) (o : Outcome)
    → Concludes o
    → Decided (after_reconnect w wiring rc o)
unfolding after_reconnect
after_reconnect-Decided w wiring rc (failed e s) h = escalate-Decided w wiring rc s h
after_reconnect-Decided w wiring rc (succeeded s) h =
    after_reboot-Decided w wiring rc (do_reboot w wiring s) (do_reboot-Flagged w wiring s h.0)

flag-Flagged : (rc : RestartConfig) (s : App) → Flagged (flag_wedge rc s)
unfolding flag_wedge mark_all_unavailable
flag-Flagged rc s = ground arith

silent_pass :
    (w : World) (wiring : Wiring) (rc : RestartConfig) (interval : ℕ) (s : App)
    → is_silent w interval s ≡ true
    → Decided (check_interval w wiring rc interval s)
unfolding check_interval recover
silent_pass w wiring rc interval s silent =
    rw (check_interval, silent)
      (if-Decided rc.restart_on_error (recover w wiring rc (flag_wedge rc s)) (flag_wedge rc s)
        (after_reconnect-Decided w wiring rc (do_reconnect w wiring (flag_wedge rc s))
          (do_reconnect-Flagged w wiring (flag_wedge rc s) (flag-Flagged rc s)))
        (inl (flag-Flagged rc s)))

check_health-every :
    (w : World) (wiring : Wiring) (rc : RestartConfig) (n : ℕ) (s : App)
    → rc.health_check_interval ≡ pos (suc n)
    → check_health w wiring rc s ≡ check_interval w wiring rc (suc n) s
unfolding check_health
check_health-every w wiring rc n s every = ap (λ i. check_every w wiring rc i s) every

-- A pass of the health check that finds the gateway silent for more than twice the interval leaves it
-- flagged as unreachable, or has recovered it: then the flag is gone, and there is a live session with
-- a running heartbeat and the covers are online. This holds for whatever the world answers.
pub check_health-silent :
    (w : World) (wiring : Wiring) (rc : RestartConfig) (n : ℕ) (s : App)
    → rc.health_check_interval ≡ pos (suc n)
    → is_silent w (suc n) s ≡ true
    → ((check_health w wiring rc s).wedged ≡ true) ⊎ IsHealthy (check_health w wiring rc s)
check_health-silent w wiring rc n s every silent =
    rw (check_health-every w wiring rc n s every) (silent_pass w wiring rc (suc n) s silent)
