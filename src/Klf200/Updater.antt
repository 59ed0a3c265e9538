-- ===== src/Klf200/Updater.antt =====
-- app/klf200/node_updater.go: what an inbound frame does to the nodes.
pub mod Laws
use velux_to_mqtt_gw.Prelude.{
  ℕ, suc, ◌+◌, List, [], ◌∷◌, Bool, true, false, ◌&&◌, Option, none, some, ◌==◌, leb, if◌then◌else◌,
  byte, hi_byte,
}
use velux_to_mqtt_gw.Protocol.Parameter.{Parameter, known, parameter_max, parameter_to_int, raw_of}
use velux_to_mqtt_gw.Protocol.Frames.Commands.{PositionChanged}
use velux_to_mqtt_gw.Protocol.Frames.Status.{StatusRequestNotification, lookup}
use velux_to_mqtt_gw.Protocol.Frames.Limitation.{LimitationStatus}
use velux_to_mqtt_gw.Protocol.Message
use velux_to_mqtt_gw.Protocol.Message.{Frame}
use velux_to_mqtt_gw.Klf200.Node.{Node, Kind, is_opening_device, is_blind, is_light}

-- `position.Known() && position.Position() <= protocol.ParameterMax`
abbrev pub is_plain : Parameter → Bool
is_plain p = known p && leb (parameter_to_int p) parameter_max

abbrev pub keep_plain : Parameter → Parameter → Parameter
keep_plain new old = if is_plain new then new else old

abbrev pub after_update : Node → Node
after_update n = record n { updates = suc n.updates }

-- `processPositionFrame`, for the node that it finds.
unfoldable pub update_position : Parameter → Parameter → Node → Node
update_position position target n =
    if is_blind n.kind
    then after_update (record n { position = keep_plain position n.position })
    else if is_opening_device n.kind
    then after_update (record n {
      position = keep_plain position n.position;
      target_position = keep_plain target n.target_position;
    })
    else if is_light n.kind
    then after_update (record n { intensity = keep_plain position n.intensity })
    else n

-- `NodeParameterMP` and `NodeParameterFP3`
abbrev node_parameter_mp : ℕ
node_parameter_mp = 0

abbrev node_parameter_fp3 : ℕ
node_parameter_fp3 = 3

unfoldable pub both : Option Parameter → Option Parameter → Node → Node
both (some mp) (some fp3) n =
    after_update
      (record n { position = keep_plain mp n.position; orientation = keep_plain fp3 n.orientation })
both mp fp3 n = n

-- `processStatusRequestNotification`: only a blind, and only where both parameters are there.
unfoldable pub update_status : StatusRequestNotification → Node → Node
update_status f n =
    if is_blind n.kind
    then both (lookup node_parameter_mp f.parameter_data)
        (lookup node_parameter_fp3 f.parameter_data) n
    else n

-- `processLimitationStatusNotification`: every opening device has a limitation.
unfoldable pub update_limitation : LimitationStatus → Node → Node
update_limitation f n =
    if is_opening_device n.kind
    then after_update (record n {
      limitation_min = raw_of f.min_value;
      limitation_max = raw_of f.max_value;
      limitation_originator = f.limit_originator;
      limitation_time = f.limit_time;
    })
    else n

-- The node that `ByID` finds is changed in place.
unfoldable pub update_at : ℕ → (Node → Node) → List Node → List Node
update_at id change [] = []
update_at id change (node ∷ nodes) =
    if node.node_id == id then change node ∷ nodes else node ∷ update_at id change nodes

unfoldable pub process_frame : Frame → List Node → List Node
process_frame (Message.all_nodes_notification f) nodes =
    update_at f.node_id (update_position f.current_position f.target) nodes
process_frame (Message.position_changed f) nodes =
    update_at f.node_id (update_position f.current_position f.target) nodes
process_frame (Message.status_request_notification f) nodes =
    update_at f.node_id (update_status f) nodes
process_frame (Message.limitation_status f) nodes = update_at f.node_id (update_limitation f) nodes
process_frame f nodes = nodes
