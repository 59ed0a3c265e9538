-- ===== src/App/Startup.antt =====
-- `Start` of app/app.go, and the heartbeats of the bridge that it sets running.
use velux_to_mqtt_gw.Prelude.{ℕ, Bool, true, false, ◌≡◌, refl, arith, if◌then◌else◌, not}
use velux_to_mqtt_gw.Config.{RestartConfig, power_cycle_enabled}
use velux_to_mqtt_gw.App.Moves.{IsReachable, new_app}
use velux_to_mqtt_gw.App.State.{
  Failure, World, Wiring, App, Outcome, succeeded, failed, after, record_contact, start_heartbeat,
  ask,
}
use velux_to_mqtt_gw.App.Connect.{connect_client, connect_and_load, register_covers}
use velux_to_mqtt_gw.App.Recover.{do_reboot, do_power_cycle}
use velux_to_mqtt_gw.App.Life.{
  start, after_load, after_register, after_startup_reboot, after_startup_cycle,
}
use velux_to_mqtt_gw.App.Session.{
  IsConclusive, IsQuiet, do_reboot-IsConclusive, do_power_cycle-quiet, stray-Moves,
  stray_of_conclusive,
}

if-IsConclusive :
    (strays : ℕ) (b : Bool) (o p : Outcome)
    → IsConclusive strays o
    → IsConclusive strays p
    → IsConclusive strays (if b then o else p)
if-IsConclusive strays true o p ho hp = ho
if-IsConclusive strays false o p ho hp = hp

after_startup_cycle-IsConclusive :
    (e : Failure) (strays : ℕ) (o : Outcome)
    → IsConclusive strays o
    → IsConclusive strays (after_startup_cycle e o)
unfolding after_startup_cycle
after_startup_cycle-IsConclusive e strays (succeeded s) h = h
after_startup_cycle-IsConclusive e strays (failed why s) h = h

after_startup_reboot-IsConclusive :
    (strays : ℕ) (o : Outcome)
    → IsConclusive strays o
    → IsConclusive strays (after_startup_reboot o)
unfolding after_startup_reboot
after_startup_reboot-IsConclusive strays (succeeded s) h = h
after_startup_reboot-IsConclusive strays (failed why s) h = h

after_register-IsConclusive :
    (w : World) (wiring : Wiring) (o : Outcome) (strays : ℕ)
    → IsQuiet strays (after o)
    → IsConclusive strays (after_register w wiring o)
unfolding after_register start_heartbeat
after_register-IsConclusive w wiring (failed e s) strays h = h
after_register-IsConclusive w wiring (succeeded s) strays (off, same) = ground (
  arith,
  after_startup_reboot-IsConclusive (start_heartbeat s).stray
      (do_reboot w wiring (start_heartbeat s))
      (do_reboot-IsConclusive w wiring (start_heartbeat s)),
)

register_covers-IsQuiet :
    (w : World) (strays : ℕ) (s : App)
    → IsQuiet strays s
    → IsQuiet strays (after (register_covers w s))
unfolding register_covers
register_covers-IsQuiet w strays s h = ground arith

after_load-IsConclusive :
    (w : World) (wiring : Wiring) (rc : RestartConfig) (strays : ℕ) (o : Outcome)
    → IsQuiet strays (after o)
    → IsConclusive strays (after_load w wiring rc o)
unfolding after_load
after_load-IsConclusive w wiring rc strays (succeeded s) h =
    after_register-IsConclusive w wiring (register_covers w s) strays
      (register_covers-IsQuiet w strays s h)
after_load-IsConclusive w wiring rc strays (failed e s) h =
    let cycled =
      after_startup_cycle-IsConclusive e strays (do_power_cycle w wiring rc s)
        (do_power_cycle-quiet w wiring rc strays s h) in
    if-IsConclusive strays (not (power_cycle_enabled rc)) (failed e s) _ h cycled

connect_and_load-IsQuiet :
    (w : World) (wiring : Wiring) (strays : ℕ) (s : App)
    → IsQuiet strays s
    → IsQuiet strays (after (connect_and_load w wiring s))
unfolding connect_and_load connect_client ask record_contact
connect_and_load-IsQuiet w wiring strays s h = ground arith

-- `Start` of an app whose heartbeat is not running ends in one of those two ways as well: with one
-- heartbeat on a live session and the covers online, or with an error and no heartbeat.
pub start-IsConclusive :
    (w : World) (wiring : Wiring) (rc : RestartConfig) (s : App)
    → s.heartbeat ≡ false
    → IsConclusive s.stray (start w wiring rc s)
unfolding start record_contact
start-IsConclusive w wiring rc s off =
    after_load-IsConclusive w wiring rc s.stray (connect_and_load w wiring (record_contact w s))
      (connect_and_load-IsQuiet w wiring s.stray (record_contact w s) (off, refl))

-- From the fresh app on, at most one heartbeat runs in every state of the running bridge.
pub reachable-stray :
    (w : World) (wiring : Wiring) (rc : RestartConfig) (s : App)
    → IsReachable w wiring rc s
    → s.stray ≡ 0
reachable-stray w wiring rc s ms = stray-Moves ms (
    stray_of_conclusive 0 (start w wiring rc new_app) (start-IsConclusive w wiring rc new_app refl))
