-- ===== src/Protocol/ReadBack/All.antt =====
-- The frame types of app/klf200/protocol read back what they wrote.
use velux_to_mqtt_gw.Prelude.{refl, ap, arith}
use velux_to_mqtt_gw.Protocol.Message
use velux_to_mqtt_gw.Protocol.Message.{Frame, command}
use velux_to_mqtt_gw.Protocol.Payload.{marshal_payload, unmarshal_payload, filled}
use velux_to_mqtt_gw.Protocol.Creation.{create_frame, frame_registry, register_all, register_frame}
use velux_to_mqtt_gw.Protocol.Constructors.{constructors}
use velux_to_mqtt_gw.Protocol.Frames.Auth.{
  marshal_get_protocol_version_confirmation, marshal_leave_learn_state_confirmation,
  marshal_password_change_confirmation, marshal_password_enter_confirmation,
  marshal_set_utc_request, unmarshal_leave_learn_state_confirmation,
  unmarshal_password_change_confirmation, unmarshal_password_enter_confirmation,
}
use velux_to_mqtt_gw.Protocol.Frames.Commands.{
  marshal_command_remaining_time, marshal_command_run_status, marshal_command_send_confirmation,
  marshal_position_changed, marshal_session_finished,
}
use velux_to_mqtt_gw.Protocol.Frames.Limitation.{
  marshal_get_limitation_confirmation, marshal_limitation_status,
  marshal_set_limitation_confirmation,
}
use velux_to_mqtt_gw.Protocol.Frames.Naming.{
  marshal_discover_nodes_request, marshal_set_node_name_confirmation,
  unmarshal_discover_nodes_request, unmarshal_set_node_name_confirmation,
}
use velux_to_mqtt_gw.Protocol.Frames.Network.{
  marshal_error_notification, unmarshal_error_notification,
}
use velux_to_mqtt_gw.Protocol.Frames.Nodes.{
  marshal_all_nodes_confirmation, unmarshal_all_nodes_confirmation,
}
use velux_to_mqtt_gw.Protocol.Frames.Scenes.{
  marshal_activate_scene_confirmation, marshal_activate_scene_request,
  marshal_scene_list_confirmation, marshal_wink_send_confirmation, marshal_wink_send_notification,
  unmarshal_scene_list_confirmation,
}
use velux_to_mqtt_gw.Protocol.Frames.Simple.{
  marshal_get_state_confirmation, marshal_node_information_confirmation,
  marshal_node_information_request, unmarshal_get_state_confirmation,
  unmarshal_node_information_confirmation, unmarshal_node_information_request,
}
use velux_to_mqtt_gw.Protocol.Frames.Status.{marshal_status_request_confirmation}
use velux_to_mqtt_gw.Protocol.Message.RoundTrip.Numbers.{
  activate_scene_confirmation-round_trip, activate_scene_request-round_trip,
  command_remaining_time-round_trip, get_limitation_confirmation-round_trip,
  get_protocol_version_confirmation-round_trip, limitation_status-round_trip,
  session_finished-round_trip, set_limitation_confirmation-round_trip, set_utc_request-round_trip,
  status_request_confirmation-round_trip, wink_send_confirmation-round_trip,
  wink_send_notification-round_trip,
}
use velux_to_mqtt_gw.Protocol.Message.RoundTrip.Small.{
  command_run_status-round_trip, command_send_confirmation-round_trip, position_changed-round_trip,
}
use velux_to_mqtt_gw.Protocol.ReadBack.Sized.{
  set_limitation_request-IsReadBack, get_limitation_request-IsReadBack,
  wink_send_request-IsReadBack, set_node_name_request-IsReadBack,
  node_information_changed-IsReadBack, password_enter_request-IsReadBack,
  password_change_request-IsReadBack, password_change_notification-IsReadBack,
  get_version_confirmation-IsReadBack, network_setup_confirmation-IsReadBack,
  discover_nodes_notification-IsReadBack,
}
use velux_to_mqtt_gw.Protocol.ReadBack.Tables.{
  all_nodes_notification-IsReadBack, node_information_notification-IsReadBack,
  scene_list_notification-IsReadBack,
}
use velux_to_mqtt_gw.Protocol.ReadBack.Statuses.{
  command_send_request-IsReadBack, status_request_request-IsReadBack,
  status_request_notification-IsReadBack,
}
use velux_to_mqtt_gw.Protocol.ReadBack.{IsReadBack, readable}
use velux_to_mqtt_gw.Protocol.Fits.{Fits}

-- Every frame that `Fits` holds of is read back, by the frame that its command code's constructor
-- makes.
pub read_back : (f : Frame) → Fits f → IsReadBack f
unfolding marshal_payload unmarshal_payload command create_frame frame_registry register_all
    register_frame constructors marshal_activate_scene_confirmation marshal_activate_scene_request
    marshal_all_nodes_confirmation marshal_command_remaining_time marshal_command_run_status
    marshal_command_send_confirmation marshal_discover_nodes_request marshal_error_notification
    marshal_get_limitation_confirmation marshal_get_protocol_version_confirmation
    marshal_get_state_confirmation marshal_leave_learn_state_confirmation marshal_limitation_status
    marshal_node_information_confirmation marshal_node_information_request
    marshal_password_change_confirmation marshal_password_enter_confirmation
    marshal_position_changed marshal_scene_list_confirmation marshal_session_finished
    marshal_set_limitation_confirmation marshal_set_node_name_confirmation marshal_set_utc_request
    marshal_status_request_confirmation marshal_wink_send_confirmation
    marshal_wink_send_notification unmarshal_all_nodes_confirmation unmarshal_discover_nodes_request
    unmarshal_error_notification unmarshal_get_state_confirmation
    unmarshal_leave_learn_state_confirmation unmarshal_node_information_confirmation
    unmarshal_node_information_request unmarshal_password_change_confirmation
    unmarshal_password_enter_confirmation unmarshal_scene_list_confirmation
    unmarshal_set_node_name_confirmation
read_back Message.reboot_request h = readable refl (omega arith) refl refl
read_back Message.reboot_confirmation h = readable refl (omega arith) refl refl
read_back Message.get_state_request h = readable refl (omega arith) refl refl
read_back (Message.get_state_confirmation f) h = readable refl (omega arith) refl refl
read_back (Message.node_information_request f) h = readable refl (omega arith) refl refl
read_back (Message.node_information_confirmation f) h = readable refl (omega arith) refl refl
read_back Message.all_nodes_request h = readable refl (omega arith) refl refl
read_back (Message.all_nodes_confirmation f) h = readable refl (omega arith) refl refl
read_back (Message.all_nodes_notification f) h = all_nodes_notification-IsReadBack f h
read_back Message.all_nodes_finished h = readable refl (omega arith) refl refl
read_back (Message.node_information_notification f) h = node_information_notification-IsReadBack f h
read_back (Message.position_changed f) h =
    readable refl (omega arith) refl
      (ap (filled Message.position_changed) (position_changed-round_trip _ f h))
read_back Message.monitor_enable_request h = readable refl (omega arith) refl refl
read_back Message.monitor_enable_confirmation h = readable refl (omega arith) refl refl
read_back Message.monitor_disable_request h = readable refl (omega arith) refl refl
read_back Message.monitor_disable_confirmation h = readable refl (omega arith) refl refl
read_back (Message.command_send_request f) h = command_send_request-IsReadBack f h
read_back (Message.command_send_confirmation f) h =
    readable refl (omega arith) refl
      (ap (filled Message.command_send_confirmation) (command_send_confirmation-round_trip _ f h))
read_back (Message.command_run_status f) h =
    readable refl (omega arith) refl
      (ap (filled Message.command_run_status) (command_run_status-round_trip _ f h.0 h.1))
read_back (Message.command_remaining_time f) h =
    readable refl (omega arith) refl
      (ap (filled Message.command_remaining_time) (command_remaining_time-round_trip _ f h.0 h.1))
read_back (Message.session_finished f) h =
    readable refl (omega arith) refl
      (ap (filled Message.session_finished) (session_finished-round_trip _ f h))
read_back (Message.status_request_request f) h = status_request_request-IsReadBack f h
read_back (Message.status_request_confirmation f) h =
    readable refl (omega arith) refl (
      ap (filled Message.status_request_confirmation)
        (status_request_confirmation-round_trip _ f h))
read_back (Message.status_request_notification f) h = status_request_notification-IsReadBack f h
read_back (Message.set_limitation_request f) h = set_limitation_request-IsReadBack f h
read_back (Message.set_limitation_confirmation f) h =
    readable refl (omega arith) refl (
      ap (filled Message.set_limitation_confirmation)
        (set_limitation_confirmation-round_trip _ f h))
read_back (Message.get_limitation_request f) h = get_limitation_request-IsReadBack f h
read_back (Message.get_limitation_confirmation f) h =
    readable refl (omega arith) refl (
      ap (filled Message.get_limitation_confirmation)
        (get_limitation_confirmation-round_trip _ f h))
read_back (Message.limitation_status f) h =
    readable refl (omega arith) refl
      (ap (filled Message.limitation_status) (limitation_status-round_trip _ f h.0 h.1 h.2))
read_back (Message.error_notification f) h = readable refl (omega arith) refl refl
read_back Message.factory_default_request h = readable refl (omega arith) refl refl
read_back Message.factory_default_confirmation h = readable refl (omega arith) refl refl
read_back Message.get_version_request h = readable refl (omega arith) refl refl
read_back (Message.get_version_confirmation f) h = get_version_confirmation-IsReadBack f h
read_back Message.get_protocol_version_request h = readable refl (omega arith) refl refl
read_back (Message.get_protocol_version_confirmation f) h = readable refl (omega arith) refl (
    ap (filled Message.get_protocol_version_confirmation)
      (get_protocol_version_confirmation-round_trip _ f h.0 h.1))
read_back Message.leave_learn_state_request h = readable refl (omega arith) refl refl
read_back (Message.leave_learn_state_confirmation f) h = readable refl (omega arith) refl refl
read_back Message.network_setup_request h = readable refl (omega arith) refl refl
read_back (Message.network_setup_confirmation f) h = network_setup_confirmation-IsReadBack f h
read_back (Message.discover_nodes_request f) h = readable refl (omega arith) refl refl
read_back Message.discover_nodes_confirmation h = readable refl (omega arith) refl refl
read_back (Message.discover_nodes_notification f) h = discover_nodes_notification-IsReadBack f h
read_back (Message.set_node_name_request f) h = set_node_name_request-IsReadBack f h
read_back (Message.set_node_name_confirmation f) h = readable refl (omega arith) refl refl
read_back (Message.node_information_changed f) h = node_information_changed-IsReadBack f h
read_back (Message.wink_send_request f) h = wink_send_request-IsReadBack f h
read_back (Message.wink_send_confirmation f) h =
    readable refl (omega arith) refl
      (ap (filled Message.wink_send_confirmation) (wink_send_confirmation-round_trip _ f h))
read_back (Message.wink_send_notification f) h =
    readable refl (omega arith) refl
      (ap (filled Message.wink_send_notification) (wink_send_notification-round_trip _ f h))
read_back Message.scene_list_request h = readable refl (omega arith) refl refl
read_back (Message.scene_list_confirmation f) h = readable refl (omega arith) refl refl
read_back (Message.scene_list_notification f) h = scene_list_notification-IsReadBack f h
read_back (Message.activate_scene_request f) h =
    readable refl (omega arith) refl
      (ap (filled Message.activate_scene_request) (activate_scene_request-round_trip _ f h))
read_back (Message.activate_scene_confirmation f) h =
    readable refl (omega arith) refl (
      ap (filled Message.activate_scene_confirmation)
        (activate_scene_confirmation-round_trip _ f h))
read_back Message.activation_log_updated h = readable refl (omega arith) refl refl
read_back (Message.set_utc_request f) h =
    readable refl (omega arith) refl
      (ap (filled Message.set_utc_request) (set_utc_request-round_trip _ f h))
read_back Message.set_utc_confirmation h = readable refl (omega arith) refl refl
read_back Message.get_local_time_request h = readable refl (omega arith) refl refl
read_back (Message.password_enter_request f) h = password_enter_request-IsReadBack f h
read_back (Message.password_enter_confirmation f) h = readable refl (omega arith) refl refl
read_back (Message.password_change_request f) h = password_change_request-IsReadBack f h
read_back (Message.password_change_confirmation f) h = readable refl (omega arith) refl refl
read_back (Message.password_change_notification f) h = password_change_notification-IsReadBack f h
