-- ===== src/App/Debounce/Spaced.antt =====
-- The debounce of app/app.go over the whole life of the bridge.
use velux_to_mqtt_gw.Prelude.{
  ℕ, List, [], ◌∷◌, true, false, ◌≡◌, ◌≢◌, refl, arith, Bool-cases, inl, inr, ◌∙◌, ap, sym,
}
use velux_to_mqtt_gw.Config.{RestartConfig}
use velux_to_mqtt_gw.App.State.{
  Event, World, Wiring, App, after, record_contact, start_heartbeat, mark_all_available,
  mark_all_unavailable,
}
use velux_to_mqtt_gw.App.Connect.{register_covers}
use velux_to_mqtt_gw.App.Recover.{do_power_cycle, cut_power, is_debounced}
use velux_to_mqtt_gw.App.Steps.{accepts, do_power_cycle-accepted, do_power_cycle-refused}
use velux_to_mqtt_gw.App.Health.{flag_wedge, clear_wedge, escalation_report}
use velux_to_mqtt_gw.App.Moves.{IsReachable, new_app}
use velux_to_mqtt_gw.App.Keeps.{IsKept, reachable-kept}
use velux_to_mqtt_gw.App.Debounce.{
  cut_times, IsSpaced, last_time, IsDated, do_reboot-IsDated, load_alone-IsDated, register-IsDated,
  do_reconnect-IsDated, flag-IsDated, clear-IsDated, complain-IsDated, cut_power-IsDated,
}

abbrev IsPositive : List ℕ → Type 0
IsPositive [] = Unit
IsPositive (t ∷ ts) = t ≢ 0

record IsDebounced (s : App) : Type 0 where
  last : s.last_power_cycle ≡ last_time (cut_times s.trace)
  spaced : IsSpaced (cut_times s.trace)
  positive : IsPositive (cut_times s.trace)

-- A step that keeps the times keeps the invariant.
dated-IsDebounced : {s t : App} → IsDebounced s → IsDated (cut_times s.trace) t → IsDebounced t
dated-IsDebounced {s} {t} h k = record {
  last = k.last ∙ ap last_time (sym k.times);
  spaced = rw (k.times) (h.spaced);
  positive = rw (k.times) (h.positive);
}

IsSpaced-next :
    (s : App) (now : ℕ) (ts : List ℕ)
    → s.last_power_cycle ≡ last_time ts
    → IsSpaced ts
    → IsPositive ts
    → is_debounced s now ≡ false
    → IsSpaced (now ∷ ts)
IsSpaced-next s now [] last spaced positive h = tt
IsSpaced-next s now (t ∷ ts) last spaced positive h = (ground arith, spaced)

power_cycle-IsDebounced :
    (w : World) (wiring : Wiring) (rc : RestartConfig)
    → ((trace : List Event) → w.clock trace ≢ 0)
    → (s : App) → IsDebounced s
    → IsDebounced (after (do_power_cycle w wiring rc s))
power_cycle-IsDebounced w wiring rc clock s h = elim (Bool-cases (accepts w wiring rc s)) [
  | inr off ↦ rw ((do_power_cycle-refused w wiring rc s off).0) h
  | inl on ↦ rw (do_power_cycle-accepted w wiring rc s on) (cut on)
]
  where
    now : ℕ
    now = w.clock s.trace

    dated : IsDated (now ∷ cut_times s.trace) (after (cut_power w wiring rc now s))
    dated =
        cut_power-IsDated w wiring rc (cut_times s.trace) now s
          (record { times = refl; last = h.last })

    cut : accepts w wiring rc s ≡ true → IsDebounced (after (cut_power w wiring rc now s))
    cut on = record {
      last = dated.last ∙ ap last_time (sym dated.times);
      spaced =
          rw (dated.times)
            (IsSpaced-next s now (cut_times s.trace) h.last h.spaced h.positive (ground arith));
      positive = rw (dated.times) (clock s.trace);
    }

IsDebounced-kept :
    (w : World) (wiring : Wiring) (rc : RestartConfig)
    → ((trace : List Event) → w.clock trace ≢ 0)
    → IsKept w wiring rc IsDebounced
unfolding cut_times record_contact flag_wedge clear_wedge mark_all_available mark_all_unavailable
    register_covers start_heartbeat escalation_report
IsDebounced-kept w wiring rc clock = record {
  contact = λ s h. dated-IsDebounced h (record { times = refl; last = h.last });
  load = λ s h. dated-IsDebounced h (load_alone-IsDated w wiring s h.last);
  register = λ s h. dated-IsDebounced h (register-IsDated w s h.last);
  heartbeat = λ s h. dated-IsDebounced h (record { times = refl; last = h.last });
  reconnect = λ s h. dated-IsDebounced h (do_reconnect-IsDated w wiring s h.last);
  reboot = λ s h.
      dated-IsDebounced h
        (do_reboot-IsDated w wiring (cut_times s.trace) s (record { times = refl; last = h.last }));
  power_cycle = power_cycle-IsDebounced w wiring rc clock;
  launch = λ s h. dated-IsDebounced h (record { times = refl; last = h.last });
  flag = λ s h. dated-IsDebounced h (flag-IsDated rc s h.last);
  clear = λ why s h. dated-IsDebounced h (clear-IsDated why s h.last);
  complain = λ e s h. dated-IsDebounced h (complain-IsDated e s h.last);
}

-- A mains cycle never follows another by less than fifteen minutes, in whatever way the health check,
-- the restart loop and the startup come to it, and even if the clock is set back; the clock only must
-- not stand at the Unix epoch, which `lastPowerCycle` reads as "never".
pub reachable-debounced :
    (w : World) (wiring : Wiring) (rc : RestartConfig) (s : App)
    → ((trace : List Event) → w.clock trace ≢ 0)
    → IsReachable w wiring rc s
    → IsSpaced (cut_times s.trace)
unfolding cut_times
reachable-debounced w wiring rc s clock r =
    (reachable-kept w wiring rc IsDebounced (IsDebounced-kept w wiring rc clock) s r fresh).spaced
  where
    fresh : IsDebounced new_app
    fresh = record { last = refl; spaced = tt; positive = tt }
