-- ===== src/App/Gates.antt =====
-- When the loops of app/app.go may cut the power.
use velux_to_mqtt_gw.Prelude.{
  ℕ, List, Bool, true, false, ◌≡◌, refl, arith, ◌⊎◌, inl, inr, if◌then◌else◌, not, ◌&&◌, Bool-cases,
  ◌∙◌,
}
use velux_to_mqtt_gw.Config.{RestartConfig, power_cycle_enabled}
use velux_to_mqtt_gw.App.State.{
  Restored, recovered, contact_restored, World, Wiring, App, Outcome, succeeded, failed, after,
  mark_all_available, mark_all_unavailable,
}
use velux_to_mqtt_gw.App.Recover.{do_reconnect, do_reboot, do_power_cycle}
use velux_to_mqtt_gw.App.Steps.{accepts}
use velux_to_mqtt_gw.App.Health.{
  flag_wedge, clear_wedge, escalated, escalate_to_power_cycle, after_reboot, after_reconnect,
  recover, check_interval, is_silent,
}
use velux_to_mqtt_gw.App.Plug.{
  plug_commands, Command, cycled, cycle_commands, do_reconnect-plug, do_reboot-plug,
}

-- No command was sent, or one cycle, and that only where `may`.
abbrev Cautious : RestartConfig → Bool → List Command → App → Type 0
Cautious rc may cmds s =
    (plug_commands s.trace ≡ cmds) ⊎ ((plug_commands s.trace ≡ cycled rc cmds) × (may ≡ true))

clear_wedge-plug :
    (why : Restored) (s : App) → plug_commands (clear_wedge why s).trace ≡ plug_commands s.trace
unfolding clear_wedge mark_all_available plug_commands
clear_wedge-plug why s = ground arith

flag_wedge-plug :
    (rc : RestartConfig) (s : App) → plug_commands (flag_wedge rc s).trace ≡ plug_commands s.trace
unfolding flag_wedge mark_all_unavailable plug_commands
flag_wedge-plug rc s = ground arith

escalated-plug : (o : Outcome) → plug_commands (escalated o).trace ≡ plug_commands (after o).trace
unfolding escalated plug_commands
escalated-plug (failed e s) = refl
escalated-plug (succeeded s) = clear_wedge-plug recovered s

cycle-Cautious :
    (w : World) (wiring : Wiring) (rc : RestartConfig) (s : App)
    → Cautious rc true (plug_commands s.trace) (after (do_power_cycle w wiring rc s))
cycle-Cautious w wiring rc s = elim (Bool-cases (accepts w wiring rc s)) [
  | inl on ↦ inr (cycle_commands w wiring rc s ∙ rw (on), refl)
  | inr off ↦ inl (cycle_commands w wiring rc s ∙ rw (off))
]

-- Two steps that keep the commands may stand before and behind.
Cautious-keep :
    (rc : RestartConfig) {may : Bool} {cmds : List Command} (s t : App)
    → plug_commands t.trace ≡ plug_commands s.trace
    → Cautious rc may cmds s
    → Cautious rc may cmds t
Cautious-keep rc s t same (inl h) = inl (same ∙ h)
Cautious-keep rc s t same (inr (h, k)) = inr (same ∙ h, k)

if-Cautious :
    (rc : RestartConfig) {cmds : List Command} (b : Bool) (s t : App)
    → plug_commands s.trace ≡ cmds
    → Cautious rc true cmds t
    → Cautious rc (not b) cmds (if b then s else t)
if-Cautious rc true s t hs ht = inl hs
if-Cautious rc false s t hs ht = ht

escalate-Cautious :
    (w : World) (wiring : Wiring) (rc : RestartConfig) (s : App)
    → Cautious rc
        (not (not (power_cycle_enabled rc)))
        (plug_commands s.trace)
        (escalate_to_power_cycle w wiring rc s)
unfolding escalate_to_power_cycle
escalate-Cautious w wiring rc s =
    if-Cautious rc (not (power_cycle_enabled rc)) s (escalated (do_power_cycle w wiring rc s)) refl
      (Cautious-keep rc (after (do_power_cycle w wiring rc s))
        (escalated (do_power_cycle w wiring rc s)) (escalated-plug (do_power_cycle w wiring rc s))
        (cycle-Cautious w wiring rc s))

module _ (w : World) (wiring : Wiring) (rc : RestartConfig) (cmds : List Command) where
  Gated : App → Type 0
  Gated s = Cautious rc (not (not (power_cycle_enabled rc))) cmds s

  escalate-Gated :
      (s : App) → plug_commands s.trace ≡ cmds → Gated (escalate_to_power_cycle w wiring rc s)
  unfolding Gated
  escalate-Gated s h = rw (← h) (escalate-Cautious w wiring rc s)

  after_reboot-Gated :
      (o : Outcome) → plug_commands (after o).trace ≡ cmds → Gated (after_reboot w wiring rc o)
  unfolding after_reboot Gated
  after_reboot-Gated (failed e s) h = escalate-Gated s h
  after_reboot-Gated (succeeded s) h = inl (clear_wedge-plug recovered s ∙ h)

  after_reconnect-Gated :
      (o : Outcome) → plug_commands (after o).trace ≡ cmds → Gated (after_reconnect w wiring rc o)
  unfolding after_reconnect
  after_reconnect-Gated (failed e s) h = escalate-Gated s h
  after_reconnect-Gated (succeeded s) h =
      after_reboot-Gated (do_reboot w wiring s) (do_reboot-plug w wiring s ∙ h)

  recover-Gated : (s : App) → plug_commands s.trace ≡ cmds → Gated (recover w wiring rc s)
  unfolding recover
  recover-Gated s h =
      after_reconnect-Gated (do_reconnect w wiring s) (do_reconnect-plug w wiring s ∙ h)

-- A pass of the health check cuts the power at most once, with one OFF and one ON, and only where the
-- gateway has been silent for too long, restarting on errors is on and a plug is configured; in every
-- other case it sends nothing to the plug.
pub check_interval-gated :
    (w : World) (wiring : Wiring) (rc : RestartConfig) (interval : ℕ) (s : App)
    → (plug_commands (check_interval w wiring rc interval s).trace ≡ plug_commands s.trace)
      ⊎ ((plug_commands (check_interval w wiring rc interval s).trace
            ≡ cycled rc (plug_commands s.trace))
          × ((is_silent w interval s && (rc.restart_on_error && power_cycle_enabled rc)) ≡ true))
unfolding check_interval Gated
check_interval-gated w wiring rc interval s = elim (Bool-cases (is_silent w interval s)) [
  | inr heard ↦ inl (rw (check_interval, heard) (clear_wedge-plug contact_restored s))
  | inl silent ↦
      rw (check_interval, silent)
        (tick rc.restart_on_error (recover w wiring rc (flag_wedge rc s)) (flag_wedge rc s)
          (recover-Gated w wiring rc (plug_commands s.trace) (flag_wedge rc s)
            (flag_wedge-plug rc s))
          (flag_wedge-plug rc s))
]
  where
    tick :
        (b : Bool) (t u : App)
        → Cautious rc (not (not (power_cycle_enabled rc))) (plug_commands s.trace) t
        → plug_commands u.trace ≡ plug_commands s.trace
        → Cautious rc (b && power_cycle_enabled rc) (plug_commands s.trace) (if b then t else u)
    tick false t u ht hu = inl hu
    tick true t u (inl same) hu = inl same
    tick true t u (inr (one, on)) hu = inr (one, ground arith)
