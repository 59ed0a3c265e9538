-- ===== src/Bridge/Runs.antt =====
-- Runs of app/bridge, on a window and an inverted awning.
use velux_to_mqtt_gw.Prelude.{
  ℕ, ◌<◌, [], ◌∷◌, true, false, ◌&&◌, none, ◌≡◌, ◌↔◌, refl, arith, ltb, ◌==◌, if◌then◌else◌,
}
use velux_to_mqtt_gw.Protocol.Parameter.{raw_of, known, position_to_percent}
use velux_to_mqtt_gw.Klf200.Node
use velux_to_mqtt_gw.Klf200.Node.{Node, is_opening_device, is_blind}
use velux_to_mqtt_gw.Klf200.Updater.{update_position}
use velux_to_mqtt_gw.Bridge.State.{
  derive_state, state_open, state_closed, state_opening, state_closing,
}
use velux_to_mqtt_gw.Bridge.Cover
use velux_to_mqtt_gw.Bridge.Cover.{
  Cover, update_node, cover_operation, move_to, number, cover, keep_open, online,
}
use velux_to_mqtt_gw.Bridge.Derived.{derive_state_iff}
use velux_to_mqtt_gw.Bridge.Published.{update_node-settled}
use velux_to_mqtt_gw.Bridge.Commands.{itoa, cover_operation-percent}

abbrev awning : Node
awning = record {
  kind = Node.awning;
  node_id = 3;
  name = [];
  serial_number = [];
  position = raw_of 0;
  target_position = raw_of 0xC800;
  limitation_min = raw_of 0xD400;
  limitation_max = raw_of 0xD400;
  limitation_time = 255;
  limitation_originator = 1;
  orientation = raw_of 0;
  target_orientation = raw_of 0;
  intensity = raw_of 0;
  updates = 0;
}

abbrev awning_cover : Cover
awning_cover = record { node = awning; inverted = true; last_state = none }

update_node-settled_example :
    (update_node (record awning_cover {
      node = update_position (record { hi = 200; lo = 0 }) (record { hi = 200; lo = 0 }) awning;
    })).0
    ≡ (Cover.position, number 100)
      ∷ (Cover.state, cover (if 100 == 0 then state_closed else state_open))
      ∷ (
        Cover.keep_open_state,
        keep_open (known (raw_of 0xD400) && ltb (position_to_percent (raw_of 0xD400)) 100),
      )
      ∷ (Cover.available, online)
      ∷ (Cover.keep_open_available, online)
      ∷ []
unfolding is_opening_device is_blind
update_node-settled_example = update_node-settled awning_cover 100 (omega arith) refl refl

abbrev here : ℕ
here = 30

abbrev there : ℕ
there = 60

derive_state_iff_example :
    ((derive_state here there false ≡ state_closed) ↔ ((here ≡ 100) × (there ≡ 100)))
    × ((derive_state here there false ≡ state_opening) ↔ (there < here))
    × ((derive_state here there false ≡ state_closing) ↔ (here < there))
    × ((derive_state here there true ≡ state_closed) ↔ ((here ≡ 0) × (there ≡ 0)))
    × ((derive_state here there true ≡ state_opening) ↔ (here < there))
    × ((derive_state here there true ≡ state_closing) ↔ (there < here))
derive_state_iff_example = derive_state_iff here there

cover_operation-percent_example :
    cover_operation true (itoa 42) ≡ move_to (record { hi = 84; lo = 0 })
cover_operation-percent_example = cover_operation-percent true 42 (omega arith)
