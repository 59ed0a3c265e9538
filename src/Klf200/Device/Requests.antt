-- ===== src/Klf200/Device/Requests.antt =====
-- The requests of opening_device.go, as the gateway reads them.
use velux_to_mqtt_gw.Prelude.{
  ℕ, List, [], ◌∷◌, Bool, true, false, ◌≡◌, refl, arith, some, ok, ◌>>=◌, IsU16, IsByte,
  if◌then◌else◌,
}
use velux_to_mqtt_gw.Protocol.Parameter.{
  Parameter, raw_of, new_ignore_position, new_parameter, parameter_from_raw, new_current_position,
  new_position, position_from_percent,
}
use velux_to_mqtt_gw.Protocol.Frames.Commands.{
  CommandSendRequest, marshal_command_send_request, unmarshal_command_send_request, node_run,
}
use velux_to_mqtt_gw.Protocol.Frames.Bytes.{padded}
use velux_to_mqtt_gw.Klf200.Node.{Node, is_blind, originator_user}
use velux_to_mqtt_gw.Klf200.Command.{command_request, priority_user_level2}
use velux_to_mqtt_gw.Klf200.Device.{
  set_position, set_position_plain, set_position_and_orientation, open_device, close_device,
  stop_device, set_orientation, open_orientation, close_orientation, stop_orientation,
  position_percent,
}

-- What the gateway reads from a request that it decodes into an empty frame.
abbrev pub Reads : ℕ → ℕ → Parameter → CommandSendRequest → CommandSendRequest → Type 0
Reads sid node_id position empty request =
    (marshal_command_send_request request >>= λ payload.
    unmarshal_command_send_request empty payload)
    ≡ ok (record empty {
      session_id = sid;
      originator = originator_user;
      priority = priority_user_level2;
      node_ids = node_id ∷ [];
      parameter = position;
    })

single_node-Reads :
    (empty : CommandSendRequest) (sid active fpi1 fpi2 node_id : ℕ) (position : Parameter)
    (functional : List Parameter)
    → IsU16 sid
    → IsByte node_id
    → new_parameter (some position) ≡ position
    → Reads sid node_id position empty (record {
      session_id = sid;
      originator = originator_user;
      priority = priority_user_level2;
      active_parameter = active;
      fpi1 = fpi1;
      fpi2 = fpi2;
      parameter = position;
      functional_parameter = functional;
      node_ids = node_id ∷ [];
    })
unfolding marshal_command_send_request unmarshal_command_send_request node_run padded
single_node-Reads empty sid a f1 f2 node_id position functional hs hn hp = ground (arith, hp)

command_request-Reads :
    (empty : CommandSendRequest) (sid node_id : ℕ) (position : Parameter)
    (fps : List (ℕ × Parameter))
    → IsU16 sid
    → IsByte node_id
    → new_parameter (some position) ≡ position
    → Reads sid node_id position empty (command_request sid node_id position fps)
unfolding command_request
command_request-Reads empty sid node_id position fps hs hn hp =
    single_node-Reads empty sid 0 _ _ node_id position _ hs hn hp

-- A request with the sentinel 0xD400, and a node that is where it was.
abbrev pub LeavesPosition : ℕ → CommandSendRequest → Node → CommandSendRequest × Node → Type 0
LeavesPosition sid empty n (request, m) =
    Reads sid n.node_id (raw_of 0xD400) empty request
    × (m.position ≡ n.position)
    × (m.target_position ≡ n.target_position)

set_orientation-LeavesPosition :
    (empty : CommandSendRequest) (sid : ℕ) (accepted : Bool) (orientation : Parameter) (n : Node)
    → IsU16 sid
    → IsByte n.node_id
    → LeavesPosition sid empty n (set_orientation sid accepted orientation n)
unfolding set_orientation new_ignore_position new_parameter parameter_from_raw
set_orientation-LeavesPosition empty sid true orientation n hs hn =
    (command_request-Reads empty sid n.node_id (raw_of 0xD400) _ hs hn refl, refl, refl)
set_orientation-LeavesPosition empty sid false orientation n hs hn =
    (command_request-Reads empty sid n.node_id (raw_of 0xD400) _ hs hn refl, refl, refl)

pick-Reads :
    (b : Bool) (empty : CommandSendRequest) (sid node_id : ℕ) (position : Parameter)
    (fps gps : List (ℕ × Parameter)) (m n : Node)
    → IsU16 sid
    → IsByte node_id
    → new_parameter (some position) ≡ position
    → Reads sid node_id position empty
        (if◌then◌else◌ {A = CommandSendRequest × Node} b
          (command_request sid node_id position fps, m)
          (command_request sid node_id position gps, n)).0
pick-Reads true empty sid node_id position fps gps m n hs hn hp =
    command_request-Reads empty sid node_id position fps hs hn hp
pick-Reads false empty sid node_id position fps gps m n hs hn hp =
    command_request-Reads empty sid node_id position gps hs hn hp

-- Opening, closing and stopping a device, blind or not, sends a request that the gateway reads as one to
-- this node alone, for 0x0000, 0xC800 and 0xD200, in the session it was given. The requests that open,
-- close and stop the slats of a blind are read with 0xD400, which leaves the position, and leave the
-- position and its target of the node.
pub device-Reads :
    (empty : CommandSendRequest) (sid : ℕ) (accepted : Bool) (n : Node)
    → IsU16 sid
    → IsByte n.node_id
    → Reads sid n.node_id (raw_of 0x0000) empty (open_device sid accepted n).0
      × Reads sid n.node_id (raw_of 0xC800) empty (close_device sid accepted n).0
      × Reads sid n.node_id (raw_of 0xD200) empty (stop_device sid accepted n).0
      × LeavesPosition sid empty n (open_orientation sid accepted n)
      × LeavesPosition sid empty n (close_orientation sid accepted n)
      × LeavesPosition sid empty n (stop_orientation sid accepted n)
unfolding open_device close_device stop_device set_position set_position_plain
    set_position_and_orientation new_position position_from_percent new_current_position
    new_parameter parameter_from_raw open_orientation close_orientation stop_orientation
device-Reads empty sid accepted n hs hn = (
  pick-Reads (is_blind n.kind) empty sid n.node_id (raw_of 0x0000) _ _ _ _ hs hn refl,
  pick-Reads (is_blind n.kind) empty sid n.node_id (raw_of 0xC800) _ _ _ _ hs hn refl,
  pick-Reads (is_blind n.kind) empty sid n.node_id (raw_of 0xD200) _ _ _ _ hs hn refl,
  set_orientation-LeavesPosition empty sid accepted (position_percent 50) n hs hn,
  set_orientation-LeavesPosition empty sid accepted (position_percent 100) n hs hn,
  set_orientation-LeavesPosition empty sid accepted new_current_position n hs hn,
)
