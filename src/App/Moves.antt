-- ===== src/App/Moves.antt =====
-- The running bridge of app/app.go as a relation. The health check, the restart loop and the inbound
-- frames are goroutines of their own: what holds `resetMu` is one move, and moves interleave freely.
pub mod Ticks
use velux_to_mqtt_gw.Prelude.{
  ℕ, List, [], Bool, true, false, ◌≡◌, refl, arith, Bool-cases, inl, inr, if◌then◌else◌, not, ◌==◌,
}
use velux_to_mqtt_gw.Config.{RestartConfig}
use velux_to_mqtt_gw.App.State.{
  Failure, Restored, World, Wiring, App, Outcome, succeeded, failed, after, event, reported,
  record_contact,
}
use velux_to_mqtt_gw.App.Recover.{do_reconnect, do_reboot, do_power_cycle}
use velux_to_mqtt_gw.App.Health.{clear_wedge, flag_wedge, escalation_report}
use velux_to_mqtt_gw.App.Life.{start}

-- The app of `newApp`, before `Start`.
abbrev pub new_app : App
new_app = record {
  heartbeat = false;
  stray = 0;
  wedged = false;
  last_contact = 0;
  last_power_cycle = 0;
  connected = false;
  available = false;
  stopped = false;
  trace = [];
}

pub data Move (w : World) (wiring : Wiring) (rc : RestartConfig) : App → App → Type 0 where
  contact : {s : App} → Move w wiring rc s (record_contact w s)
  reconnect : {s : App} → Move w wiring rc s (after (do_reconnect w wiring s))
  soft_restart : {s : App} → Move w wiring rc s (after (do_reboot w wiring s))
  power_cycle : {s : App} → Move w wiring rc s (after (do_power_cycle w wiring rc s))
  flag : {s : App} → Move w wiring rc s (flag_wedge rc s)
  clear : {s : App} (why : Restored) → Move w wiring rc s (clear_wedge why s)
  complain : {s : App} (e : Failure) → Move w wiring rc s (event (reported (escalation_report e)) s)

pub data Moves (w : World) (wiring : Wiring) (rc : RestartConfig) : App → App → Type 0 where
  done : {s : App} → Moves w wiring rc s s
  then_move : {s t u : App} → Moves w wiring rc s t → Move w wiring rc t u → Moves w wiring rc s u

-- A state of the running bridge: `Start` has run, to its end or to an error, and moves have followed.
abbrev pub IsReachable : World → Wiring → RestartConfig → App → Type 0
IsReachable w wiring rc s = Moves w wiring rc (after (start w wiring rc new_app)) s

module _ {w : World} {wiring : Wiring} {rc : RestartConfig} where
  pub Moves-keep :
      (P : App → Type 0)
      → ((s t : App) → Move w wiring rc s t → P s → P t)
      → {s t : App} → Moves w wiring rc s t
      → P s
      → P t
  Moves-keep P keep done p = p
  Moves-keep P keep (then_move {t = t} {u = u} ms m) p = keep t u m (Moves-keep P keep ms p)
