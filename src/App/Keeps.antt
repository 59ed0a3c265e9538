-- ===== src/App/Keeps.antt =====
-- What every step of app/app.go keeps, every reachable state has.
use velux_to_mqtt_gw.Prelude.{Bool, true, false, if◌then◌else◌, not}
use velux_to_mqtt_gw.Config.{RestartConfig, power_cycle_enabled}
use velux_to_mqtt_gw.App.State.{
  Failure, Restored, World, Wiring, App, Outcome, succeeded, failed, after, event, reported,
  record_contact, start_heartbeat,
}
use velux_to_mqtt_gw.App.Connect.{connect_and_load, register_covers}
use velux_to_mqtt_gw.App.Recover.{do_reconnect, do_reboot, do_power_cycle}
use velux_to_mqtt_gw.App.Health.{flag_wedge, clear_wedge, escalation_report}
use velux_to_mqtt_gw.App.Life.{
  start, after_load, after_register, after_startup_reboot, after_startup_cycle, launch_loops,
}
use velux_to_mqtt_gw.App.Moves
use velux_to_mqtt_gw.App.Moves.{Move, Moves, IsReachable, Moves-keep, new_app}

pub record IsKept (w : World) (wiring : Wiring) (rc : RestartConfig) (P : App → Type 0)
    : Type 0 where
  pub contact : (s : App) → P s → P (record_contact w s)
  pub load : (s : App) → P s → P (after (connect_and_load w wiring s))
  pub register : (s : App) → P s → P (after (register_covers w s))
  pub heartbeat : (s : App) → P s → P (start_heartbeat s)
  pub reconnect : (s : App) → P s → P (after (do_reconnect w wiring s))
  pub reboot : (s : App) → P s → P (after (do_reboot w wiring s))
  pub power_cycle : (s : App) → P s → P (after (do_power_cycle w wiring rc s))
  pub launch : (s : App) → P s → P (launch_loops s)
  pub flag : (s : App) → P s → P (flag_wedge rc s)
  pub clear : (why : Restored) (s : App) → P s → P (clear_wedge why s)
  pub complain : (e : Failure) (s : App) → P s → P (event (reported (escalation_report e)) s)

module _ (w : World) (wiring : Wiring) (rc : RestartConfig) (P : App → Type 0)
    (keeps : IsKept w wiring rc P) where
  if-kept : (b : Bool) (o p : Outcome) → P (after o) → P (after p) → P (after (if b then o else p))
  if-kept true o p ho hp = ho
  if-kept false o p ho hp = hp

  after_startup_cycle-kept :
      (e : Failure) (o : Outcome) → P (after o) → P (after (after_startup_cycle e o))
  unfolding after_startup_cycle
  after_startup_cycle-kept e (succeeded s) h = keeps.launch s h
  after_startup_cycle-kept e (failed why s) h = h

  after_startup_reboot-kept : (o : Outcome) → P (after o) → P (after (after_startup_reboot o))
  unfolding after_startup_reboot
  after_startup_reboot-kept (succeeded s) h = keeps.launch s h
  after_startup_reboot-kept (failed why s) h = h

  after_register-kept : (o : Outcome) → P (after o) → P (after (after_register w wiring o))
  unfolding after_register
  after_register-kept (failed e s) h = h
  after_register-kept (succeeded s) h =
      after_startup_reboot-kept (do_reboot w wiring (start_heartbeat s))
        (keeps.reboot (start_heartbeat s) (keeps.heartbeat s h))

  after_load-kept : (o : Outcome) → P (after o) → P (after (after_load w wiring rc o))
  unfolding after_load
  after_load-kept (succeeded s) h = after_register-kept (register_covers w s) (keeps.register s h)
  after_load-kept (failed e s) h =
      if-kept (not (power_cycle_enabled rc)) (failed e s)
        (after_startup_cycle e (do_power_cycle w wiring rc s)) h
        (after_startup_cycle-kept e (do_power_cycle w wiring rc s) (keeps.power_cycle s h))

  pub start-kept : (s : App) → P s → P (after (start w wiring rc s))
  unfolding start
  start-kept s h =
      after_load-kept (connect_and_load w wiring (record_contact w s))
        (keeps.load (record_contact w s) (keeps.contact s h))

  pub move-kept : (s t : App) → Move w wiring rc s t → P s → P t
  move-kept s _ Moves.contact h = keeps.contact s h
  move-kept s _ Moves.reconnect h = keeps.reconnect s h
  move-kept s _ Moves.soft_restart h = keeps.reboot s h
  move-kept s _ Moves.power_cycle h = keeps.power_cycle s h
  move-kept s _ Moves.flag h = keeps.flag s h
  move-kept s _ (Moves.clear why) h = keeps.clear why s h
  move-kept s _ (Moves.complain e) h = keeps.complain e s h

  pub reachable-kept : (s : App) → IsReachable w wiring rc s → P new_app → P s
  reachable-kept s ms h = Moves-keep P move-kept ms (start-kept new_app h)
