-- ===== src/App/Session.antt =====
-- The heartbeat and the session of app/app.go: what a recovery leaves behind, on success and on
-- failure.
use velux_to_mqtt_gw.Prelude.{ℕ, true, false, ◌≡◌, refl, arith, Bool-cases, inl, inr, ◌≢◌, ◌∙◌}
use velux_to_mqtt_gw.Config.{RestartConfig}
use velux_to_mqtt_gw.App.Moves.{
  Move, Moves, Moves-keep, contact, reconnect, soft_restart, power_cycle, flag, clear, complain,
}
use velux_to_mqtt_gw.App.State.{
  event, waited, World, Wiring, App, Outcome, succeeded, failed, after, record_contact,
  start_heartbeat, mark_all_available, mark_all_unavailable, stop_heartbeat, drop_session, ask,
}
use velux_to_mqtt_gw.App.Steps.{
  Either, do_reboot_rule, cut_power_rule, accepts, do_power_cycle-accepted, do_power_cycle-refused,
}
use velux_to_mqtt_gw.App.Connect.{connect_client, connect_and_load, register_covers}
use velux_to_mqtt_gw.App.Recover.{
  bring_up, do_reconnect, do_reboot, do_power_cycle, cut_power, power_off,
}
use velux_to_mqtt_gw.App.Health.{flag_wedge, clear_wedge}

-- A success has a session, covers that are online and one heartbeat, a failure no heartbeat, and
-- neither leaves more strays than there were.
abbrev pub IsConclusive : ℕ → Outcome → Type 0
IsConclusive strays (succeeded s) =
    (s.heartbeat ≡ true) × (s.connected ≡ true) × (s.available ≡ true) × (s.stray ≡ strays)
IsConclusive strays (failed e s) = (s.heartbeat ≡ false) × (s.stray ≡ strays)

-- Stopped, with so many strays.
abbrev pub IsQuiet : ℕ → App → Type 0
IsQuiet strays s = (s.heartbeat ≡ false) × (s.stray ≡ strays)

abbrev IsLoaded : ℕ → App → Type 0
IsLoaded strays s = IsQuiet strays s × (s.connected ≡ true)

load-IsQuiet :
    (w : World) (wiring : Wiring) (strays wait : ℕ) (s : App)
    → IsQuiet strays s
    → Either
        (IsLoaded strays)
        (λ t. IsQuiet strays (drop_session t))
        (connect_and_load w wiring (event (waited wait) s))
unfolding connect_and_load connect_client ask record_contact drop_session
load-IsQuiet w wiring strays wait s h = ground arith

bring_up-IsConclusive :
    (w : World) (strays : ℕ) (s : App) → IsLoaded strays s → IsConclusive strays (bring_up w s)
unfolding bring_up register_covers start_heartbeat
bring_up-IsConclusive w strays s h = ground arith

-- Whatever the world answers, a reconnect ends with one heartbeat on a live session and the covers
-- online, or with an error and no heartbeat, and no heartbeat is left running unnamed.
pub do_reconnect-IsConclusive :
    (w : World) (wiring : Wiring) (s : App) → IsConclusive s.stray (do_reconnect w wiring s)
unfolding do_reconnect connect_and_load connect_client register_covers ask record_contact
    start_heartbeat stop_heartbeat drop_session
do_reconnect-IsConclusive w wiring s = ground arith

-- So does a reboot.
pub do_reboot-IsConclusive :
    (w : World) (wiring : Wiring) (s : App) → IsConclusive s.stray (do_reboot w wiring s)
unfolding do_reboot stop_heartbeat drop_session
do_reboot-IsConclusive w wiring s =
    do_reboot_rule w wiring (IsQuiet s.stray) (IsLoaded s.stray) (IsConclusive s.stray) (λ e t h. h)
      (load-IsQuiet w wiring s.stray) (bring_up-IsConclusive w s.stray) s (refl, refl)

cut_power-IsConclusive :
    (w : World) (wiring : Wiring) (rc : RestartConfig) (now : ℕ) (s : App)
    → IsConclusive s.stray (cut_power w wiring rc now s)
unfolding power_off stop_heartbeat drop_session
cut_power-IsConclusive w wiring rc now s =
    cut_power_rule w wiring (IsQuiet s.stray) (IsLoaded s.stray) (IsConclusive s.stray) (λ e t h. h)
      (load-IsQuiet w wiring s.stray) (bring_up-IsConclusive w s.stray) rc now s (λ e. (refl, refl))
      (refl, refl)

-- A power cycle that is not refused ends in the same two ways.
pub do_power_cycle-IsConclusive :
    (w : World) (wiring : Wiring) (rc : RestartConfig) (s : App)
    → accepts w wiring rc s ≡ true
    → IsConclusive s.stray (do_power_cycle w wiring rc s)
do_power_cycle-IsConclusive w wiring rc s h =
    rw (do_power_cycle-accepted w wiring rc s h) (cut_power-IsConclusive w wiring rc _ s)

-- The outcome of a cycle may also be a refusal, which changes nothing.
pub do_power_cycle-quiet :
    (w : World) (wiring : Wiring) (rc : RestartConfig) (strays : ℕ) (s : App)
    → IsQuiet strays s
    → IsConclusive strays (do_power_cycle w wiring rc s)
do_power_cycle-quiet w wiring rc strays s (off, same) = elim (Bool-cases (accepts w wiring rc s)) [
  | inl h ↦ rw (← same) (do_power_cycle-IsConclusive w wiring rc s h)
  | inr h ↦ refused (do_power_cycle w wiring rc s) (do_power_cycle-refused w wiring rc s h)
]
  where
    refused : (o : Outcome) → (after o ≡ s) × ((t : App) → o ≢ succeeded t) → IsConclusive strays o
    refused (succeeded t) (e, never) = absurd (never t refl)
    refused (failed e t) (eq, never) = ground arith

pub stray_of_conclusive : (n : ℕ) (o : Outcome) → IsConclusive n o → (after o).stray ≡ n
stray_of_conclusive n (succeeded s) (on, up, online, same) = same
stray_of_conclusive n (failed e s) (off, same) = same

do_power_cycle-stray :
    (w : World) (wiring : Wiring) (rc : RestartConfig) (s : App)
    → (after (do_power_cycle w wiring rc s)).stray ≡ s.stray
do_power_cycle-stray w wiring rc s = elim (Bool-cases (accepts w wiring rc s)) [
  | inl h ↦
      stray_of_conclusive s.stray (do_power_cycle w wiring rc s)
        (do_power_cycle-IsConclusive w wiring rc s h)
  | inr h ↦ rw ((do_power_cycle-refused w wiring rc s h).0)
]

stray-Move :
    {w : World} {wiring : Wiring} {rc : RestartConfig} (s t : App)
    → Move w wiring rc s t
    → s.stray ≡ 0
    → t.stray ≡ 0
unfolding record_contact flag_wedge clear_wedge mark_all_available mark_all_unavailable
stray-Move s _ contact h = h
stray-Move {w} {wiring} s _ reconnect h =
    stray_of_conclusive s.stray _ (do_reconnect-IsConclusive w wiring s) ∙ h
stray-Move {w} {wiring} s _ soft_restart h =
    stray_of_conclusive s.stray _ (do_reboot-IsConclusive w wiring s) ∙ h
stray-Move {w} {wiring} {rc} s _ power_cycle h = do_power_cycle-stray w wiring rc s ∙ h
stray-Move s _ flag h = ground arith
stray-Move s _ (clear why) h = ground arith
stray-Move s _ (complain e) h = h

-- However the loops interleave, no heartbeat is ever left running beside the one that `a.heartbeat`
-- names, once none is.
pub stray-Moves :
    {w : World} {wiring : Wiring} {rc : RestartConfig} {s t : App}
    → Moves w wiring rc s t
    → s.stray ≡ 0
    → t.stray ≡ 0
stray-Moves ms h = Moves-keep (λ s. s.stray ≡ 0) stray-Move ms h
