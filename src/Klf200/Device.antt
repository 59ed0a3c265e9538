-- ===== src/Klf200/Device.antt =====
-- app/klf200/opening_device.go: the commands of the opening devices. An operation takes the session id
-- of its request and whether the gateway accepts it; it returns the request and the node behind it.
pub mod Requests
use velux_to_mqtt_gw.Prelude.{
  ℕ, List, [], ◌∷◌, Bool, true, false, Option, none, some, if◌then◌else◌,
}
use velux_to_mqtt_gw.Prelude.Int.{ℤ, pos}
use velux_to_mqtt_gw.Protocol.Parameter.{
  Parameter, same_raw, new_position, percent, value_or_zero, new_current_position,
  new_ignore_position,
}
use velux_to_mqtt_gw.Protocol.Parameter.Limitation.{limitation_unlimited, limitation_clear_all}
use velux_to_mqtt_gw.Protocol.Frames.Commands.{CommandSendRequest}
use velux_to_mqtt_gw.Protocol.Frames.Limitation.{SetLimitationRequest}
use velux_to_mqtt_gw.Klf200.Node.{Node, Kind, is_blind}
use velux_to_mqtt_gw.Klf200.Updater.{after_update}
use velux_to_mqtt_gw.Klf200.Command.{command_request, limitation_request}

-- `positionPercent`, at a percentage that is in range.
abbrev pub position_percent : ℕ → Parameter
position_percent p = value_or_zero (new_position (percent (pos p)))

abbrev accepted_update : Bool → Node → Node
accepted_update accepted n = if accepted then after_update n else n

-- `OpeningDevice.setPosition`: the position itself changes only when the gateway reports it.
unfoldable pub set_position_plain : ℕ → Bool → Parameter → Node → CommandSendRequest × Node
set_position_plain sid accepted position n =
    (command_request sid n.node_id position [], accepted_update accepted n)

abbrev slats : Option Parameter → Parameter → Parameter
slats (some orientation) position = orientation
slats none position =
    if same_raw position (position_percent 0) then position_percent 0 else new_ignore_position

-- `Blind.SetPositionAndOrientation` stores the position before it is sent.
unfoldable pub set_position_and_orientation :
    ℕ → Bool → Parameter → Option Parameter → Node → CommandSendRequest × Node
set_position_and_orientation sid accepted position orientation n =
    let moved = record n { target_position = position; position = position } in
    (
      command_request sid n.node_id position ((3, slats orientation position) ∷ []),
      accepted_update accepted moved,
    )

unfoldable pub set_position : ℕ → Bool → Parameter → Node → CommandSendRequest × Node
unfolding set_position_plain set_position_and_orientation
set_position sid accepted position n =
    if is_blind n.kind
    then set_position_and_orientation sid accepted position none n
    else set_position_plain sid accepted position n

unfoldable pub open_device : ℕ → Bool → Node → CommandSendRequest × Node
unfolding set_position
open_device sid accepted n = set_position sid accepted (position_percent 0) n

unfoldable pub close_device : ℕ → Bool → Node → CommandSendRequest × Node
unfolding set_position
close_device sid accepted n = set_position sid accepted (position_percent 100) n

-- A blind stops with its target orientation in the third functional parameter.
unfoldable pub stop_device : ℕ → Bool → Node → CommandSendRequest × Node
unfolding set_position_plain set_position_and_orientation
stop_device sid accepted n =
    if is_blind n.kind
    then set_position_and_orientation sid accepted new_current_position (some n.target_orientation)
        n
    else set_position_plain sid accepted new_current_position n

unfoldable pub set_position_limitations :
    ℕ → Bool → Parameter → Parameter → Node → SetLimitationRequest × Node
set_position_limitations sid accepted min max n = (
  limitation_request sid n.node_id min max limitation_unlimited,
  if accepted then after_update (record n { limitation_min = min; limitation_max = max }) else n,
)

unfoldable pub clear_position_limitations : ℕ → Bool → Node → SetLimitationRequest × Node
clear_position_limitations sid accepted n = (
  limitation_request sid n.node_id new_ignore_position new_ignore_position limitation_clear_all,
  if accepted
      then after_update
          (record n { limitation_min = new_ignore_position; limitation_max = new_ignore_position })
      else n,
)

-- `Blind.SetOrientation` stores the orientation before it is sent. The main parameter is the sentinel
-- that leaves the position, and the slats of an open blind are opened, whatever is asked for.
unfoldable pub set_orientation : ℕ → Bool → Parameter → Node → CommandSendRequest × Node
set_orientation sid accepted orientation n =
    let turned = record n { target_orientation = orientation; orientation = orientation } in
    let fp3 =
      if same_raw n.target_position (position_percent 0) then position_percent 0 else orientation in
    (
      command_request sid n.node_id new_ignore_position ((3, fp3) ∷ []),
      accepted_update accepted turned,
    )

-- `openOrientationTarget` is 50 and `closeOrientationTarget` is 100.
unfoldable pub open_orientation : ℕ → Bool → Node → CommandSendRequest × Node
unfolding set_orientation
open_orientation sid accepted n = set_orientation sid accepted (position_percent 50) n

unfoldable pub close_orientation : ℕ → Bool → Node → CommandSendRequest × Node
unfolding set_orientation
close_orientation sid accepted n = set_orientation sid accepted (position_percent 100) n

unfoldable pub stop_orientation : ℕ → Bool → Node → CommandSendRequest × Node
unfolding set_orientation
stop_orientation sid accepted n = set_orientation sid accepted new_current_position n
