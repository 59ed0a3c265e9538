-- ===== src/App/Runs.antt =====
-- Runs of app/app.go: a gateway that answers, one that takes no connection, and a clock that goes on by
-- a thousand seconds with every event.
use velux_to_mqtt_gw.Prelude.{
  ok, ℕ, suc, ◌*◌, List, [], ◌∷◌, true, false, ◌≡◌, ◌≢◌, refl, arith, none, some, length, ◌⊎◌,
  if◌then◌else◌, ◌&&◌,
}
use velux_to_mqtt_gw.Prelude.Int.{pos}
use velux_to_mqtt_gw.Config.{
  RestartConfig, Config, load_config, validate, restart_time_of_day, parse_time_of_day,
  apply_defaults, off_default, on_default, power_cycle_enabled,
}
use velux_to_mqtt_gw.App.State.{Event, refused, World, Wiring, App, after, called, connect}
use velux_to_mqtt_gw.App.Recover.{do_reconnect, do_reboot, do_power_cycle}
use velux_to_mqtt_gw.App.Health.{check_health, check_interval, is_silent}
use velux_to_mqtt_gw.App.Life.{start, start_reboot_loop, at_time}
use velux_to_mqtt_gw.App.Moves.{IsReachable, new_app, done, then_move, power_cycle}
use velux_to_mqtt_gw.App.Steps.{accepts}
use velux_to_mqtt_gw.App.Session.{
  IsConclusive, do_reconnect-IsConclusive, do_reboot-IsConclusive, do_power_cycle-IsConclusive,
}
use velux_to_mqtt_gw.App.Startup.{start-IsConclusive, reachable-stray}
use velux_to_mqtt_gw.App.Plug.{
  plug_commands, IsPowered, cycled, do_power_cycle-plug, reachable-IsPowered,
}
use velux_to_mqtt_gw.App.Debounce.{cut_times, IsSpaced}
use velux_to_mqtt_gw.App.Debounce.Spaced.{reachable-debounced}
use velux_to_mqtt_gw.App.Attempts.{connects, seconds_waited, IsExhausted, do_reboot-deaf}
use velux_to_mqtt_gw.App.Verdict.{IsHealthy, check_health-silent}
use velux_to_mqtt_gw.App.Gates.{check_interval-gated}
use velux_to_mqtt_gw.App.Schedule.{start_reboot_loop-scheduled}
use velux_to_mqtt_gw.Config.Examples.{parsed}

abbrev ticking : List Event → ℕ
ticking trace = suc (length trace) * 1000000000000

abbrev answering : World
answering = record { reply = λ trace. none; ctx_done = λ trace. none; clock = ticking }

abbrev deaf : World
deaf = record { reply = λ trace. some (refused 111); ctx_done = λ trace. none; clock = ticking }

abbrev wired : Wiring
wired = record { has_client = true; has_publish = true }

-- A plug at the topic "p", a health check every five minutes.
abbrev with_plug : RestartConfig
with_plug = record {
  restart_interval = pos 24;
  health_check_interval = pos 300;
  restart_on_error = true;
  power_cycle_topic = 112 ∷ [];
  power_cycle_off_payload = off_default;
  power_cycle_on_payload = on_default;
  power_cycle_off_seconds = pos 10;
  restart_at = [];
  periodic_power_cycle = false;
}

abbrev started : App
started = after (start answering wired with_plug new_app)

abbrev cycled_once : App
cycled_once = after (do_power_cycle answering wired with_plug started)

abbrev cycled_twice : App
cycled_twice = after (do_power_cycle answering wired with_plug cycled_once)

abbrev twice : IsReachable answering wired with_plug cycled_twice
twice = then_move (then_move done power_cycle) power_cycle

ticking_positive : (trace : List Event) → ticking trace ≢ 0
ticking_positive trace = ground arith

reachable-debounced_example : IsSpaced (cut_times cycled_twice.trace)
reachable-debounced_example =
    reachable-debounced answering wired with_plug cycled_twice ticking_positive twice

reachable-IsPowered_example : IsPowered with_plug (plug_commands cycled_twice.trace)
reachable-IsPowered_example = reachable-IsPowered answering wired with_plug cycled_twice twice

reachable-stray_example : cycled_twice.stray ≡ 0
reachable-stray_example = reachable-stray answering wired with_plug cycled_twice twice

do_power_cycle-plug_example :
    (plug_commands (after (do_power_cycle deaf wired with_plug new_app)).trace
      ≡ (if accepts deaf wired with_plug new_app then cycled with_plug [] else []))
    × (plug_commands (after (do_reconnect deaf wired new_app)).trace ≡ [])
    × (plug_commands (after (do_reboot deaf wired new_app)).trace ≡ [])
unfolding plug_commands
do_power_cycle-plug_example = do_power_cycle-plug deaf wired with_plug new_app

-- The app long after its last contact.
abbrev silent_app : App
silent_app = record new_app { available = true; connected = true; heartbeat = true }

check_interval-gated_example :
    (plug_commands (check_interval deaf wired with_plug 300 silent_app).trace
      ≡ plug_commands silent_app.trace)
    ⊎ ((plug_commands (check_interval deaf wired with_plug 300 silent_app).trace
          ≡ cycled with_plug (plug_commands silent_app.trace))
        × ((is_silent deaf 300 silent_app
              && (with_plug.restart_on_error && power_cycle_enabled with_plug))
            ≡ true))
check_interval-gated_example = check_interval-gated deaf wired with_plug 300 silent_app

check_health-silent_example :
    ((check_health answering wired with_plug silent_app).wedged ≡ true)
    ⊎ IsHealthy (check_health answering wired with_plug silent_app)
check_health-silent_example = check_health-silent answering wired with_plug 299 silent_app refl refl

do_reconnect-IsConclusive_example : IsConclusive 0 (do_reconnect answering wired silent_app)
do_reconnect-IsConclusive_example = do_reconnect-IsConclusive answering wired silent_app

do_reboot-IsConclusive_example : IsConclusive 0 (do_reboot deaf wired silent_app)
do_reboot-IsConclusive_example = do_reboot-IsConclusive deaf wired silent_app

do_power_cycle-IsConclusive_example :
    IsConclusive 0 (do_power_cycle answering wired with_plug silent_app)
unfolding power_cycle_enabled
do_power_cycle-IsConclusive_example =
    do_power_cycle-IsConclusive answering wired with_plug silent_app refl

start-IsConclusive_example : IsConclusive 0 (start deaf wired with_plug new_app)
start-IsConclusive_example = start-IsConclusive deaf wired with_plug new_app refl

refuses : (trace : List Event) → deaf.reply (called connect ∷ trace) ≢ none
refuses trace = ground arith

do_reboot-deaf_example : IsExhausted 7 7 317 (do_reboot deaf wired new_app)
unfolding connects seconds_waited
do_reboot-deaf_example = do_reboot-deaf deaf wired new_app refuses (λ trace. refl)

-- The restart at "02:30".
abbrev scheduled : Config
scheduled = record parsed {
  restart = record parsed.restart { restart_at = 48 ∷ 50 ∷ 58 ∷ 51 ∷ 48 ∷ [] };
}

start_reboot_loop-scheduled_example :
    (time : ℕ × ℕ) × (restart_time_of_day (apply_defaults scheduled).restart ≡ ok time)
    × (start_reboot_loop (apply_defaults scheduled).restart ≡ at_time time.0 time.1)
unfolding load_config validate restart_time_of_day parse_time_of_day apply_defaults
start_reboot_loop-scheduled_example =
    start_reboot_loop-scheduled scheduled (apply_defaults scheduled) refl refl
