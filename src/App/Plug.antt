-- ===== src/App/Plug.antt =====
-- The smart plug of app/app.go: what is published to it, and when.
use velux_to_mqtt_gw.Prelude.{
  ℕ, List, [], ◌∷◌, Bool, false, ◌≡◌, refl, arith, Bool-cases, inl, inr, if◌then◌else◌,
}
use velux_to_mqtt_gw.Config.{RestartConfig}
use velux_to_mqtt_gw.App.State.{
  Event, published, waited, World, Wiring, App, after, event, record_contact, start_heartbeat,
  stop_heartbeat, drop_session, ask, mark_all_available, mark_all_unavailable,
}
use velux_to_mqtt_gw.App.Connect.{connect_client, connect_and_load, register_covers}
use velux_to_mqtt_gw.App.Recover.{
  bring_up, do_reconnect, do_reboot, do_power_cycle, cut_power, power_off,
}
use velux_to_mqtt_gw.App.Steps.{
  Either, do_reboot_rule, cut_power_rule, accepts, do_power_cycle-accepted, do_power_cycle-refused,
}
use velux_to_mqtt_gw.App.Health.{flag_wedge, clear_wedge}
use velux_to_mqtt_gw.App.Moves.{IsReachable}
use velux_to_mqtt_gw.App.Keeps.{IsKept, reachable-kept}

-- A publish to the plug: its topic, its payload and the retain flag. The covers' publishes go through
-- the bridge, and are no events of this trace.
abbrev pub Command : Type 0
Command = List ℕ × List ℕ × Bool

unfoldable pub plug_commands : List Event → List Command
plug_commands [] = []
plug_commands (published topic payload retained ∷ trace) =
    (topic, payload, retained) ∷ plug_commands trace
plug_commands (e ∷ trace) = plug_commands trace

abbrev Has : List Command → App → Type 0
Has cmds s = plug_commands s.trace ≡ cmds

connect_and_load-plug :
    (w : World) (wiring : Wiring) (s : App)
    → plug_commands (after (connect_and_load w wiring s)).trace ≡ plug_commands s.trace
unfolding connect_and_load connect_client ask record_contact plug_commands
connect_and_load-plug w wiring s = ground arith

load-plug :
    (w : World) (wiring : Wiring) (cmds : List Command) (wait : ℕ) (s : App)
    → Has cmds s
    → Either
        (Has cmds)
        (λ t. Has cmds (drop_session t))
        (connect_and_load w wiring (event (waited wait) s))
unfolding connect_and_load connect_client ask record_contact plug_commands drop_session
load-plug w wiring cmds wait s h = ground arith

bring_up-plug :
    (w : World) (cmds : List Command) (s : App) → Has cmds s → Has cmds (after (bring_up w s))
unfolding bring_up register_covers start_heartbeat plug_commands
bring_up-plug w cmds s h = ground arith

pub do_reconnect-plug :
    (w : World) (wiring : Wiring) (s : App)
    → Has (plug_commands s.trace) (after (do_reconnect w wiring s))
unfolding do_reconnect connect_and_load connect_client register_covers ask record_contact
    start_heartbeat stop_heartbeat drop_session plug_commands
do_reconnect-plug w wiring s = ground arith

pub do_reboot-plug :
    (w : World) (wiring : Wiring) (s : App)
    → Has (plug_commands s.trace) (after (do_reboot w wiring s))
unfolding stop_heartbeat drop_session plug_commands
do_reboot-plug w wiring s =
    do_reboot_rule w wiring (Has cmds) (Has cmds) (λ o. Has cmds (after o)) (λ e t h. h)
      (load-plug w wiring cmds) (bring_up-plug w cmds) s refl
  where
    cmds : List Command
    cmds = plug_commands s.trace

abbrev pub cycled : RestartConfig → List Command → List Command
cycled rc cmds =
    (rc.power_cycle_topic, rc.power_cycle_on_payload, false)
    ∷ (rc.power_cycle_topic, rc.power_cycle_off_payload, false)
    ∷ cmds

cut_power-plug :
    (w : World) (wiring : Wiring) (rc : RestartConfig) (now : ℕ) (s : App)
    → Has (cycled rc (plug_commands s.trace)) (after (cut_power w wiring rc now s))
unfolding stop_heartbeat drop_session plug_commands power_off
cut_power-plug w wiring rc now s =
    cut_power_rule w wiring (Has cmds) (Has cmds) (λ o. Has cmds (after o)) (λ e t h. h)
      (load-plug w wiring cmds) (bring_up-plug w cmds) rc now s (λ e. refl) (refl)
  where
    cmds : List Command
    cmds = cycled rc (plug_commands s.trace)

pub cycle_commands :
    (w : World) (wiring : Wiring) (rc : RestartConfig) (s : App)
    → plug_commands (after (do_power_cycle w wiring rc s)).trace
      ≡ (if accepts w wiring rc s then cycled rc (plug_commands s.trace) else plug_commands s.trace)
cycle_commands w wiring rc s = elim (Bool-cases (accepts w wiring rc s)) [
  | inl on ↦
      rw (on, do_power_cycle-accepted w wiring rc s on)
        (cut_power-plug w wiring rc (w.clock s.trace) s)
  | inr off ↦ rw (off, (do_power_cycle-refused w wiring rc s off).0)
]

-- A power cycle sends exactly two commands to the plug, OFF and then ON, neither retained, whatever
-- the gateway answers and even where a shutdown cuts the dwell short. One that is refused (no plug,
-- or too early), a reconnect and a reboot send none.
pub do_power_cycle-plug :
    (w : World) (wiring : Wiring) (rc : RestartConfig) (s : App)
    → (plug_commands (after (do_power_cycle w wiring rc s)).trace ≡ (
        if accepts w wiring rc s
        then (rc.power_cycle_topic, rc.power_cycle_on_payload, false)
          ∷ (rc.power_cycle_topic, rc.power_cycle_off_payload, false)
          ∷ plug_commands s.trace
        else plug_commands s.trace))
      × (plug_commands (after (do_reconnect w wiring s)).trace ≡ plug_commands s.trace)
      × (plug_commands (after (do_reboot w wiring s)).trace ≡ plug_commands s.trace)
do_power_cycle-plug w wiring rc s =
    (cycle_commands w wiring rc s, do_reconnect-plug w wiring s, do_reboot-plug w wiring s)

-- Nothing was sent to the plug, or what was sent last is ON, not retained.
abbrev pub IsPowered : RestartConfig → List Command → Type 0
IsPowered rc [] = Unit
IsPowered rc (c ∷ cmds) = c ≡ (rc.power_cycle_topic, rc.power_cycle_on_payload, false)

Leaves : RestartConfig → App → Type 0
Leaves rc s = IsPowered rc (plug_commands s.trace)

power_cycle-powered :
    (w : World) (wiring : Wiring) (rc : RestartConfig) (s : App)
    → Leaves rc s
    → Leaves rc (after (do_power_cycle w wiring rc s))
unfolding Leaves
power_cycle-powered w wiring rc s h = elim (Bool-cases (accepts w wiring rc s)) [
  | inl on ↦ rw (cycle_commands w wiring rc s, on)
  | inr off ↦ rw (cycle_commands w wiring rc s, off) h
]

powered-kept : (w : World) (wiring : Wiring) (rc : RestartConfig) → IsKept w wiring rc (Leaves rc)
unfolding Leaves plug_commands record_contact flag_wedge clear_wedge mark_all_available
    mark_all_unavailable register_covers start_heartbeat
powered-kept w wiring rc = record {
  contact = λ s h. h;
  load = λ s h. rw (connect_and_load-plug w wiring s) h;
  register = λ s h. ground arith;
  heartbeat = λ s h. h;
  reconnect = λ s h. rw (do_reconnect-plug w wiring s) h;
  reboot = λ s h. rw (do_reboot-plug w wiring s) h;
  power_cycle = λ s h. power_cycle-powered w wiring rc s h;
  launch = λ s h. h;
  flag = λ s h. ground arith;
  clear = λ why s h. ground arith;
  complain = λ e s h. h;
}

-- The gateway is never left without power: in every state of the running bridge between its moves, the
-- last command that the plug was sent, if any, is ON, not retained.
pub reachable-IsPowered :
    (w : World) (wiring : Wiring) (rc : RestartConfig) (s : App)
    → IsReachable w wiring rc s
    → IsPowered rc (plug_commands s.trace)
unfolding Leaves plug_commands
reachable-IsPowered w wiring rc s r =
    reachable-kept w wiring rc (Leaves rc) (powered-kept w wiring rc) s r tt
