-- ===== src/Bridge/Published.antt =====
-- From a report of the gateway to what cover.go publishes.
use velux_to_mqtt_gw.Prelude.{
  ℕ, ◌*◌, ◌≤◌, [], ◌∷◌, true, false, ◌≡◌, arith, ◌==◌, if◌then◌else◌, ltb, ◌&&◌,
}
use velux_to_mqtt_gw.Protocol.Parameter.{position_to_percent, known}
use velux_to_mqtt_gw.Klf200.Node.{is_opening_device, is_blind}
use velux_to_mqtt_gw.Klf200.Updater.{update_position}
use velux_to_mqtt_gw.Bridge.State.{
  state_open, state_closed, cover_state, validate_position, validate_target, derive_state,
  derive_state_normal, derive_state_inverted,
}
use velux_to_mqtt_gw.Bridge.Cover.{
  Cover, Message, Topic, number, cover, update_cover, update_node, update_limit_switch,
  publish_availability, keep_open, online,
}
use velux_to_mqtt_gw.Bridge.Cover

-- When the gateway reports that a device other than a blind stands at its target of `p` percent, the cover
-- publishes exactly that percentage, as closed where it is the closed end and as open everywhere else,
-- and that it is online.
pub update_node-settled :
    (c : Cover) (p : ℕ)
    → p ≤ 100
    → is_opening_device c.node.kind ≡ true
    → is_blind c.node.kind ≡ false
    → (update_node (record c {
      node = update_position (record { hi = p * 2; lo = 0 }) (record { hi = p * 2; lo = 0 }) c.node;
    })).0
      ≡ (Cover.position, number p)
        ∷ (
          Cover.state,
          cover (if p == (if c.inverted then 0 else 100) then state_closed else state_open),
        )
        ∷ (
          Cover.keep_open_state,
          keep_open
              (known c.node.limitation_max && ltb (position_to_percent c.node.limitation_max) 100),
        )
        ∷ (Cover.available, online)
        ∷ (Cover.keep_open_available, online)
        ∷ []
unfolding update_node update_cover update_limit_switch publish_availability update_position
    cover_state validate_position validate_target derive_state derive_state_normal
    derive_state_inverted
update_node-settled c p hp ho hb = ground arith
