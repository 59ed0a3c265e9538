-- ===== src/Protocol/Fits.antt =====
-- The frames of app/klf200/protocol that come back as they were sent, type by type.
use velux_to_mqtt_gw.Prelude.{
  ℕ, ◌≤◌, List, [], ◌∷◌, ◌≡◌, ◌≢◌, All, length, IsU16, get_or, replicate,
}
use velux_to_mqtt_gw.Protocol.Frames.Commands.{CommandSendRequest, zero_parameter}
use velux_to_mqtt_gw.Protocol.Frames.Status.{
  StatusRequestNotification, status_type_request_main_info,
}
use velux_to_mqtt_gw.Protocol.Message
use velux_to_mqtt_gw.Protocol.Message.{Frame}
use velux_to_mqtt_gw.Protocol.Message.Wellformed.{IsU32, IsSettled, PositionChangedFits}
use velux_to_mqtt_gw.Protocol.Message.RoundTrip.Text.{HasNoNul}
use velux_to_mqtt_gw.Protocol.Message.RoundTrip.Info.{NodeInfoFits}
use velux_to_mqtt_gw.Protocol.Message.RoundTrip.SceneList.{IsNamed}

-- A text of at most `n` bytes with no NUL byte in it, which the reader takes for the end.
abbrev pub IsText : ℕ → List ℕ → Type 0
IsText n s = (length s ≤ n) × HasNoNul s

-- A password is a text of 1 to 32 bytes.
abbrev pub IsPassword : List ℕ → Type 0
IsPassword s = (length s ≢ 0) × IsText 32 s

-- The reader of a command takes its node ids for consecutive ones, and not the functional parameters.
pub record CommandFits (f : CommandSendRequest) : Type 0 where
  pub session_id : IsU16 f.session_id
  pub parameter : IsSettled f.parameter
  pub one_node : f.node_ids ≡ get_or f.node_ids 0 0 ∷ []
  pub active_parameter : f.active_parameter ≡ 0
  pub fpi1 : f.fpi1 ≡ 0
  pub fpi2 : f.fpi2 ≡ 0
  pub functional_parameter : f.functional_parameter ≡ replicate 16 zero_parameter

-- The main information of a node, which has no map of parameters.
pub record MainInfoFits (f : StatusRequestNotification) : Type 0 where
  pub status_type : f.status_type ≡ status_type_request_main_info
  pub session_id : IsU16 f.session_id
  pub target_position : IsSettled f.target_position
  pub current_position : IsSettled f.current_position
  pub remaining_time : IsU16 f.remaining_time
  pub last_master_execution_address : IsU32 f.last_master_execution_address
  pub status_count : f.status_count ≡ 0
  pub parameter_data : f.parameter_data ≡ []

-- Every number fits its width, every text its field, every list its array. A status request and a command
-- are for one node, a command has no functional parameters, and a status is the main information.
abbrev pub Fits : Frame → Type 0
Fits (Message.all_nodes_notification n) = NodeInfoFits n
Fits (Message.node_information_notification n) = NodeInfoFits n
Fits (Message.position_changed f) = PositionChangedFits f
Fits (Message.command_send_request f) = CommandFits f
Fits (Message.command_send_confirmation f) = IsU16 f.session_id
Fits (Message.command_run_status f) = IsU16 f.session_id × IsU16 f.parameter_value
Fits (Message.command_remaining_time f) = IsU16 f.session_id × IsU16 f.seconds
Fits (Message.session_finished f) = IsU16 f.session_id
Fits (Message.status_request_request f) =
    IsU16 f.session_id × (f.node_ids ≡ get_or f.node_ids 0 0 ∷ [])
Fits (Message.status_request_confirmation f) = IsU16 f.session_id
Fits (Message.status_request_notification f) = MainInfoFits f
Fits (Message.set_limitation_request f) = IsU16 f.session_id × (length f.node_ids ≤ 20)
Fits (Message.set_limitation_confirmation f) = IsU16 f.session_id
Fits (Message.get_limitation_request f) = IsU16 f.session_id × (length f.node_ids ≤ 20)
Fits (Message.get_limitation_confirmation f) = IsU16 f.session_id
Fits (Message.limitation_status f) = IsU16 f.session_id × IsU16 f.min_value × IsU16 f.max_value
Fits (Message.get_version_confirmation f) = length f.software_version ≡ 6
Fits (Message.get_protocol_version_confirmation f) = IsU16 f.major_version × IsU16 f.minor_version
Fits (Message.network_setup_confirmation f) =
    (length f.ip_address ≡ 4) × (length f.netmask ≡ 4) × (length f.gateway ≡ 4)
Fits (Message.discover_nodes_notification f) = length f.payload ≡ 131
Fits (Message.set_node_name_request f) = IsText 64 f.name
Fits (Message.node_information_changed f) = IsText 64 f.name × IsU16 f.order
Fits (Message.wink_send_request f) = IsU16 f.session_id × (length f.node_ids ≤ 20)
Fits (Message.wink_send_confirmation f) = IsU16 f.session_id
Fits (Message.wink_send_notification f) = IsU16 f.session_id
Fits (Message.scene_list_notification f) = (length f.scenes ≤ 3) × All IsNamed f.scenes
Fits (Message.activate_scene_request f) = IsU16 f.session_id
Fits (Message.activate_scene_confirmation f) = IsU16 f.session_id
Fits (Message.set_utc_request f) = IsU32 f.timestamp
Fits (Message.password_enter_request f) = IsPassword f.password
Fits (Message.password_change_request f) = IsPassword f.current_password × IsPassword f.new_password
Fits (Message.password_change_notification f) = IsPassword f.new_password
Fits f = Unit
