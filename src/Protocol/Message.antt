-- ===== src/Protocol/Message.antt =====
-- The `Frame` interface of app/klf200/protocol/frame.go, as the sum of the frame types that `Frames`
-- models, with the command codes of const.go.
pub mod Wellformed
pub mod RoundTrip
use velux_to_mqtt_gw.Prelude.{ℕ}
use velux_to_mqtt_gw.Protocol.Frames.Commands.{
  CommandSendRequest, CommandSendConfirmation, CommandRunStatus, CommandRemainingTime,
  SessionFinished, PositionChanged,
}
use velux_to_mqtt_gw.Protocol.Frames.Status.{
  StatusRequestRequest, StatusRequestConfirmation, StatusRequestNotification,
}
use velux_to_mqtt_gw.Protocol.Frames.Limitation.{
  GetLimitationRequest, GetLimitationConfirmation, LimitationStatus, SetLimitationRequest,
  SetLimitationConfirmation,
}
use velux_to_mqtt_gw.Protocol.Frames.Nodes.{NodeInfo, AllNodesConfirmation}
use velux_to_mqtt_gw.Protocol.Frames.Simple.{
  GetStateConfirmation, NodeInformationRequest, NodeInformationConfirmation,
}
use velux_to_mqtt_gw.Protocol.Frames.Auth.{
  GetVersionConfirmation, GetProtocolVersionConfirmation, LeaveLearnStateConfirmation,
  SetUtcRequest, PasswordEnterRequest, PasswordEnterConfirmation, PasswordChangeRequest,
  PasswordChangeConfirmation, PasswordChangeNotification,
}
use velux_to_mqtt_gw.Protocol.Frames.Network.{ErrorNotification, NetworkSetupConfirmation}
use velux_to_mqtt_gw.Protocol.Frames.Naming.{
  DiscoverNodesRequest, DiscoverNodesNotification, SetNodeNameRequest, SetNodeNameConfirmation,
  NodeInformationChanged,
}
use velux_to_mqtt_gw.Protocol.Frames.Scenes.{
  WinkSendRequest, WinkSendConfirmation, WinkSendNotification, SceneListConfirmation,
  SceneListNotification, ActivateSceneRequest, ActivateSceneConfirmation,
}

pub data Frame : Type 0 where
  reboot_request reboot_confirmation get_state_request : Frame
  get_state_confirmation : GetStateConfirmation → Frame
  node_information_request : NodeInformationRequest → Frame
  node_information_confirmation : NodeInformationConfirmation → Frame
  all_nodes_request : Frame
  all_nodes_confirmation : AllNodesConfirmation → Frame
  all_nodes_notification : NodeInfo → Frame
  all_nodes_finished : Frame
  node_information_notification : NodeInfo → Frame
  position_changed : PositionChanged → Frame
  monitor_enable_request monitor_enable_confirmation : Frame
  monitor_disable_request monitor_disable_confirmation : Frame
  command_send_request : CommandSendRequest → Frame
  command_send_confirmation : CommandSendConfirmation → Frame
  command_run_status : CommandRunStatus → Frame
  command_remaining_time : CommandRemainingTime → Frame
  session_finished : SessionFinished → Frame
  status_request_request : StatusRequestRequest → Frame
  status_request_confirmation : StatusRequestConfirmation → Frame
  status_request_notification : StatusRequestNotification → Frame
  set_limitation_request : SetLimitationRequest → Frame
  set_limitation_confirmation : SetLimitationConfirmation → Frame
  get_limitation_request : GetLimitationRequest → Frame
  get_limitation_confirmation : GetLimitationConfirmation → Frame
  limitation_status : LimitationStatus → Frame
  error_notification : ErrorNotification → Frame
  factory_default_request : Frame
  factory_default_confirmation : Frame
  get_version_request : Frame
  get_version_confirmation : GetVersionConfirmation → Frame
  get_protocol_version_request : Frame
  get_protocol_version_confirmation : GetProtocolVersionConfirmation → Frame
  leave_learn_state_request : Frame
  leave_learn_state_confirmation : LeaveLearnStateConfirmation → Frame
  network_setup_request : Frame
  network_setup_confirmation : NetworkSetupConfirmation → Frame
  discover_nodes_request : DiscoverNodesRequest → Frame
  discover_nodes_confirmation : Frame
  discover_nodes_notification : DiscoverNodesNotification → Frame
  set_node_name_request : SetNodeNameRequest → Frame
  set_node_name_confirmation : SetNodeNameConfirmation → Frame
  node_information_changed : NodeInformationChanged → Frame
  wink_send_request : WinkSendRequest → Frame
  wink_send_confirmation : WinkSendConfirmation → Frame
  wink_send_notification : WinkSendNotification → Frame
  scene_list_request : Frame
  scene_list_confirmation : SceneListConfirmation → Frame
  scene_list_notification : SceneListNotification → Frame
  activate_scene_request : ActivateSceneRequest → Frame
  activate_scene_confirmation : ActivateSceneConfirmation → Frame
  activation_log_updated : Frame
  set_utc_request : SetUtcRequest → Frame
  set_utc_confirmation : Frame
  get_local_time_request : Frame
  password_enter_request : PasswordEnterRequest → Frame
  password_enter_confirmation : PasswordEnterConfirmation → Frame
  password_change_request : PasswordChangeRequest → Frame
  password_change_confirmation : PasswordChangeConfirmation → Frame
  password_change_notification : PasswordChangeNotification → Frame

-- `Command` of each type.
unfoldable pub command : Frame → ℕ
command reboot_request = 0x0001
command reboot_confirmation = 0x0002
command get_state_request = 0x000C
command (get_state_confirmation f) = 0x000D
command (node_information_request f) = 0x0200
command (node_information_confirmation f) = 0x0201
command all_nodes_request = 0x0202
command (all_nodes_confirmation f) = 0x0203
command (all_nodes_notification f) = 0x0204
command all_nodes_finished = 0x0205
command (node_information_notification f) = 0x0210
command (position_changed f) = 0x0211
command monitor_enable_request = 0x0240
command monitor_enable_confirmation = 0x0241
command monitor_disable_request = 0x0242
command monitor_disable_confirmation = 0x0243
command (command_send_request f) = 0x0300
command (command_send_confirmation f) = 0x0301
command (command_run_status f) = 0x0302
command (command_remaining_time f) = 0x0303
command (session_finished f) = 0x0304
command (status_request_request f) = 0x0305
command (status_request_confirmation f) = 0x0306
command (status_request_notification f) = 0x0307
command (set_limitation_request f) = 0x0310
command (set_limitation_confirmation f) = 0x0311
command (get_limitation_request f) = 0x0312
command (get_limitation_confirmation f) = 0x0313
command (limitation_status f) = 0x0314
command (error_notification f) = 0x0000
command factory_default_request = 0x0003
command factory_default_confirmation = 0x0004
command get_version_request = 0x0008
command (get_version_confirmation f) = 0x0009
command get_protocol_version_request = 0x000A
command (get_protocol_version_confirmation f) = 0x000B
command leave_learn_state_request = 0x000E
command (leave_learn_state_confirmation f) = 0x000F
command network_setup_request = 0x00E0
command (network_setup_confirmation f) = 0x00E1
command (discover_nodes_request f) = 0x0103
command discover_nodes_confirmation = 0x0104
command (discover_nodes_notification f) = 0x0105
command (set_node_name_request f) = 0x0208
command (set_node_name_confirmation f) = 0x0209
command (node_information_changed f) = 0x020C
command (wink_send_request f) = 0x0308
command (wink_send_confirmation f) = 0x0309
command (wink_send_notification f) = 0x030A
command scene_list_request = 0x040C
command (scene_list_confirmation f) = 0x040D
command (scene_list_notification f) = 0x040E
command (activate_scene_request f) = 0x0412
command (activate_scene_confirmation f) = 0x0413
command activation_log_updated = 0x0506
command (set_utc_request f) = 0x2000
command set_utc_confirmation = 0x2001
command get_local_time_request = 0x2004
command (password_enter_request f) = 0x3000
command (password_enter_confirmation f) = 0x3001
command (password_change_request f) = 0x3002
command (password_change_confirmation f) = 0x3003
command (password_change_notification f) = 0x3004
