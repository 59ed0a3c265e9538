-- ===== src/Klf200/Node.antt =====
-- app/klf200/node.go, node_registry.go, node_helper.go and the state of opening_device.go and
-- other_devices.go: the nodes, and how one is made from its information.
use velux_to_mqtt_gw.Prelude.{ℕ, List, Bool, true, false, ◌||◌, ◌==◌, if◌then◌else◌, ◌≡◌, arith}
use velux_to_mqtt_gw.Protocol.Parameter.{
  Parameter, new_position, parameter, percent, value_or_zero, new_ignore_position,
  new_target_position, new_intensity, nothing,
}
use velux_to_mqtt_gw.Prelude.Int.{pos}
use velux_to_mqtt_gw.Protocol.Frames.Commands.{zero_parameter}
use velux_to_mqtt_gw.Protocol.Frames.Nodes.{NodeInfo}

-- The concrete type of a node. A window carries its rain sensor.
pub data Kind : Type 0 where
  window : Bool → Kind
  roller_shutter awning garage_door gate blade blind : Kind
  light on_off_switch generic : Kind

-- One record for every type: a field that a type has not keeps its first value. `updates` counts the
-- calls of `AfterUpdate`, each of which runs the callbacks that the bridge has registered.
pub record Node : Type 0 where
  pub kind : Kind
  pub node_id : ℕ  -- uint16
  pub name : List ℕ
  pub serial_number : List ℕ
  pub position : Parameter
  pub target_position : Parameter
  pub limitation_min : Parameter
  pub limitation_max : Parameter
  pub limitation_time : ℕ
  pub limitation_originator : ℕ
  pub orientation : Parameter
  pub target_orientation : Parameter
  pub intensity : Parameter
  pub updates : ℕ

-- `OriginatorUser` of const.go.
abbrev pub originator_user : ℕ
originator_user = 1

-- What implements `Opener`: the types that embed an `OpeningDevice`.
unfoldable pub is_opening_device : Kind → Bool
is_opening_device light = false
is_opening_device on_off_switch = false
is_opening_device generic = false
is_opening_device k = true

unfoldable pub is_blind : Kind → Bool
is_blind blind = true
is_blind k = false

unfoldable pub is_light : Kind → Bool
is_light light = true
is_light k = false

-- `newOpeningDevice`
unfoldable pub new_opening_device : Kind → NodeInfo → Parameter → Parameter → Node
new_opening_device kind info position target = record {
  kind = kind;
  node_id = info.node_id;
  name = info.name;
  serial_number = info.serial_number;
  position = value_or_zero (new_position (parameter position));
  target_position = value_or_zero (new_position (parameter target));
  limitation_min = new_ignore_position;
  limitation_max = new_ignore_position;
  limitation_time = 255;
  limitation_originator = originator_user;
  orientation = zero_parameter;
  target_orientation = zero_parameter;
  intensity = zero_parameter;
  updates = 0;
}

-- A node without a position.
unfoldable pub new_base_node : Kind → NodeInfo → Node
new_base_node kind info = record {
  kind = kind;
  node_id = info.node_id;
  name = info.name;
  serial_number = info.serial_number;
  position = zero_parameter;
  target_position = zero_parameter;
  limitation_min = zero_parameter;
  limitation_max = zero_parameter;
  limitation_time = 0;
  limitation_originator = 0;
  orientation = zero_parameter;
  target_orientation = zero_parameter;
  intensity = zero_parameter;
  updates = 0;
}

-- The constructor of the blinds, which overrides the target position.
unfoldable pub new_blind : NodeInfo → Node
unfolding new_opening_device
new_blind info = record (new_opening_device blind info info.current_position info.target) {
  orientation = value_or_zero (new_position (percent (pos 0)));
  target_orientation = new_target_position;
  target_position = new_target_position;
}

unfoldable pub new_light : NodeInfo → Node
unfolding new_base_node
new_light info = record (new_base_node light info) {
  intensity = value_or_zero (new_intensity nothing);
}

-- The type codes of const.go that a constructor is registered for.
unfoldable pub kind_of_type : ℕ → Kind
kind_of_type code =
    if code == 0x0100
    then window false
    else if code == 0x0101
    then window true
    else if (code == 0x0080)
        || ((code == 0x0340) || ((code == 0x0600) || ((code == 0x0040) || (code == 0x0280))))
    then roller_shutter
    else if (code == 0x00C0) || (code == 0x0400)
    then awning
    else if (code == 0x0140) || (code == 0x017A)
    then garage_door
    else if (code == 0x01C0) || (code == 0x01FA)
    then gate
    else if code == 0x0740
    then blade
    else if (code == 0x0440) || ((code == 0x0081) || (code == 0x0480))
    then blind
    else if code == 0x0180
    then light
    else if (code == 0x03C0) || (code == 0x01BA)
    then on_off_switch
    else generic

-- The interior blinds start at the zero parameter, not at what the gateway reports.
abbrev is_interior : ℕ → Bool
is_interior code = (code == 0x0040) || (code == 0x0280)

make_node : Kind → NodeInfo → Node
unfolding new_opening_device new_base_node new_blind new_light
make_node blind info = new_blind info
make_node light info = new_light info
make_node on_off_switch info = new_base_node on_off_switch info
make_node generic info = new_base_node generic info
make_node kind info =
    if is_interior info.node_type
    then new_opening_device kind info zero_parameter zero_parameter
    else new_opening_device kind info info.current_position info.target

-- `NodeFromInfo`, `ConvertAllNodesFrame` and `ConvertNodeFrame`.
unfoldable pub node_from_info : NodeInfo → Node
unfolding kind_of_type make_node
node_from_info info = make_node (kind_of_type info.node_type) info

make_node-fields :
    (kind : Kind) (info : NodeInfo)
    → ((make_node kind info).node_id ≡ info.node_id) × ((make_node kind info).kind ≡ kind)
unfolding make_node
make_node-fields (window rain) info = ground arith
make_node-fields roller_shutter info = ground arith
make_node-fields awning info = ground arith
make_node-fields garage_door info = ground arith
make_node-fields gate info = ground arith
make_node-fields blade info = ground arith
make_node-fields blind info = ground arith
make_node-fields light info = ground arith
make_node-fields on_off_switch info = ground arith
make_node-fields generic info = ground arith

-- A node keeps the id that the gateway reports, and its type is the one registered for its type code.
pub node_from_info-fields :
    (info : NodeInfo)
    → ((node_from_info info).node_id ≡ info.node_id)
      × ((node_from_info info).kind ≡ kind_of_type info.node_type)
unfolding node_from_info
node_from_info-fields info = make_node-fields (kind_of_type info.node_type) info
