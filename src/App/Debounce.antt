-- ===== src/App/Debounce.antt =====
-- The times of the power cycles in app/app.go: `lastPowerCycle` is the newest of them.
pub mod Spaced
use velux_to_mqtt_gw.Prelude.{
  ℕ, ◌+◌, ◌≤◌, List, [], ◌∷◌, Bool, true, false, not, ◌≡◌, ◌≢◌, refl, arith, Bool-cases, inl, inr,
  ◌∙◌, ap, sym,
}
use velux_to_mqtt_gw.Config.{RestartConfig, power_cycle_enabled}
use velux_to_mqtt_gw.App.State.{
  Failure, Restored, Event, reported, power_cycling, waited, World, Wiring, App, Outcome, succeeded,
  failed, after, event, record_contact, start_heartbeat, stop_heartbeat, drop_session, ask,
  mark_all_available, mark_all_unavailable,
}
use velux_to_mqtt_gw.App.Connect.{connect_client, connect_and_load, register_covers}
use velux_to_mqtt_gw.App.Recover.{
  bring_up, do_reconnect, do_reboot, do_power_cycle, cut_power, power_off, power_cycle_min_gap,
  is_debounced,
}
use velux_to_mqtt_gw.App.Steps.{
  Either, do_reboot_rule, cut_power_rule, accepts, do_power_cycle-accepted, do_power_cycle-refused,
}
use velux_to_mqtt_gw.App.Health.{flag_wedge, clear_wedge, escalation_report}
use velux_to_mqtt_gw.App.Moves.{IsReachable, new_app}
use velux_to_mqtt_gw.App.Keeps.{IsKept, reachable-kept}

-- When the power was cut, the last time first.
unfoldable pub cut_times : List Event → List ℕ
cut_times [] = []
cut_times (reported (power_cycling t) ∷ trace) = t ∷ cut_times trace
cut_times (e ∷ trace) = cut_times trace

-- Two neighbours are at least the gap apart.
abbrev pub IsSpaced : List ℕ → Type 0
IsSpaced [] = Unit
IsSpaced (t ∷ []) = Unit
IsSpaced (t ∷ u ∷ ts) = (u + power_cycle_min_gap ≤ t) × IsSpaced (u ∷ ts)

abbrev pub last_time : List ℕ → ℕ
last_time [] = 0
last_time (t ∷ ts) = t

-- `lastPowerCycle` is the newest of the times, and 0 before the first of them.
pub record IsDated (ts : List ℕ) (s : App) : Type 0 where
  pub times : cut_times s.trace ≡ ts
  pub last : s.last_power_cycle ≡ last_time ts

pub load-IsDated :
    (w : World) (wiring : Wiring) (ts : List ℕ) (wait : ℕ) (s : App)
    → IsDated ts s
    → Either
        (IsDated ts)
        (λ t. IsDated ts (drop_session t))
        (connect_and_load w wiring (event (waited wait) s))
unfolding connect_and_load connect_client ask record_contact cut_times drop_session
load-IsDated w wiring ts wait s h = ground arith

pub bring_up-IsDated :
    (w : World) (ts : List ℕ) (s : App) → IsDated ts s → IsDated ts (after (bring_up w s))
unfolding bring_up register_covers start_heartbeat cut_times
bring_up-IsDated w ts s h = ground arith

pub do_reboot-IsDated :
    (w : World) (wiring : Wiring) (ts : List ℕ) (s : App)
    → IsDated ts s
    → IsDated ts (after (do_reboot w wiring s))
unfolding stop_heartbeat drop_session cut_times
do_reboot-IsDated w wiring ts s h =
    do_reboot_rule w wiring (IsDated ts) (IsDated ts) (λ o. IsDated ts (after o)) (λ e t k. k)
      (load-IsDated w wiring ts) (bring_up-IsDated w ts) s
      (record { times = h.times; last = h.last })

pub load_alone-IsDated :
    (w : World) (wiring : Wiring) (s : App)
    → s.last_power_cycle ≡ last_time (cut_times s.trace)
    → IsDated (cut_times s.trace) (after (connect_and_load w wiring s))
unfolding connect_and_load connect_client ask record_contact cut_times
load_alone-IsDated w wiring s h = ground arith

pub register-IsDated :
    (w : World) (s : App)
    → s.last_power_cycle ≡ last_time (cut_times s.trace)
    → IsDated (cut_times s.trace) (after (register_covers w s))
unfolding register_covers cut_times
register-IsDated w s h = ground arith

pub do_reconnect-IsDated :
    (w : World) (wiring : Wiring) (s : App)
    → s.last_power_cycle ≡ last_time (cut_times s.trace)
    → IsDated (cut_times s.trace) (after (do_reconnect w wiring s))
unfolding do_reconnect connect_and_load connect_client register_covers ask record_contact
    start_heartbeat stop_heartbeat drop_session cut_times
do_reconnect-IsDated w wiring s h = ground arith

pub flag-IsDated :
    (rc : RestartConfig) (s : App)
    → s.last_power_cycle ≡ last_time (cut_times s.trace)
    → IsDated (cut_times s.trace) (flag_wedge rc s)
unfolding flag_wedge mark_all_unavailable cut_times
flag-IsDated rc s h = ground arith

pub clear-IsDated :
    (why : Restored) (s : App)
    → s.last_power_cycle ≡ last_time (cut_times s.trace)
    → IsDated (cut_times s.trace) (clear_wedge why s)
unfolding clear_wedge mark_all_available cut_times
clear-IsDated why s h = ground arith

pub complain-IsDated :
    (e : Failure) (s : App)
    → s.last_power_cycle ≡ last_time (cut_times s.trace)
    → IsDated (cut_times s.trace) (event (reported (escalation_report e)) s)
unfolding escalation_report cut_times
complain-IsDated e s h = ground arith

pub cut_power-IsDated :
    (w : World) (wiring : Wiring) (rc : RestartConfig) (ts : List ℕ) (now : ℕ) (s : App)
    → IsDated ts s
    → IsDated (now ∷ ts) (after (cut_power w wiring rc now s))
unfolding stop_heartbeat drop_session cut_times power_off
cut_power-IsDated w wiring rc ts now s h =
    cut_power_rule w wiring (IsDated (now ∷ ts)) (IsDated (now ∷ ts))
      (λ o. IsDated (now ∷ ts) (after o)) (λ e t k. k) (load-IsDated w wiring (now ∷ ts))
      (bring_up-IsDated w (now ∷ ts)) rc now s (λ e. ground arith) (ground arith)
