-- ===== src/Protocol/Payload.antt =====
-- `MarshalPayload` and `UnmarshalPayload` of every frame type of app/klf200/protocol, and `MarshalFrame`
-- of frame.go.
use velux_to_mqtt_gw.Prelude.{ℕ, List, [], Result, ok, err, ◌>>=◌}
use velux_to_mqtt_gw.Protocol.Wire.{Error, build_frame}
use velux_to_mqtt_gw.Protocol.Frames.Commands
use velux_to_mqtt_gw.Protocol.Frames.Status
use velux_to_mqtt_gw.Protocol.Frames.Limitation
use velux_to_mqtt_gw.Protocol.Frames.Nodes
use velux_to_mqtt_gw.Protocol.Frames.Auth
use velux_to_mqtt_gw.Protocol.Frames.Network
use velux_to_mqtt_gw.Protocol.Frames.Naming
use velux_to_mqtt_gw.Protocol.Frames.Scenes
use velux_to_mqtt_gw.Protocol.Frames.Simple
use velux_to_mqtt_gw.Protocol.Frames.Simple.{unmarshal_empty}
use velux_to_mqtt_gw.Protocol.Message
use velux_to_mqtt_gw.Protocol.Message.{Frame, command}

-- `MarshalPayload` of each type.
unfoldable pub marshal_payload : Frame → Result Error (List ℕ)
marshal_payload Message.reboot_request = ok []
marshal_payload Message.reboot_confirmation = ok []
marshal_payload Message.get_state_request = ok []
marshal_payload (Message.get_state_confirmation f) = ok (Simple.marshal_get_state_confirmation f)
marshal_payload (Message.node_information_request f) =
    ok (Simple.marshal_node_information_request f)
marshal_payload (Message.node_information_confirmation f) =
    ok (Simple.marshal_node_information_confirmation f)
marshal_payload Message.all_nodes_request = ok []
marshal_payload (Message.all_nodes_confirmation f) = ok (Nodes.marshal_all_nodes_confirmation f)
marshal_payload (Message.all_nodes_notification f) = Nodes.marshal_node_info f
marshal_payload Message.all_nodes_finished = ok []
marshal_payload (Message.node_information_notification f) = Nodes.marshal_node_info f
marshal_payload (Message.position_changed f) = ok (Commands.marshal_position_changed f)
marshal_payload Message.monitor_enable_request = ok []
marshal_payload Message.monitor_enable_confirmation = ok []
marshal_payload Message.monitor_disable_request = ok []
marshal_payload Message.monitor_disable_confirmation = ok []
marshal_payload (Message.command_send_request f) = Commands.marshal_command_send_request f
marshal_payload (Message.command_send_confirmation f) =
    ok (Commands.marshal_command_send_confirmation f)
marshal_payload (Message.command_run_status f) = ok (Commands.marshal_command_run_status f)
marshal_payload (Message.command_remaining_time f) = ok (Commands.marshal_command_remaining_time f)
marshal_payload (Message.session_finished f) = ok (Commands.marshal_session_finished f)
marshal_payload (Message.status_request_request f) = Status.marshal_status_request_request f
marshal_payload (Message.status_request_confirmation f) =
    ok (Status.marshal_status_request_confirmation f)
marshal_payload (Message.status_request_notification f) =
    Status.marshal_status_request_notification f
marshal_payload (Message.set_limitation_request f) = Limitation.marshal_set_limitation_request f
marshal_payload (Message.set_limitation_confirmation f) =
    ok (Limitation.marshal_set_limitation_confirmation f)
marshal_payload (Message.get_limitation_request f) = Limitation.marshal_get_limitation_request f
marshal_payload (Message.get_limitation_confirmation f) =
    ok (Limitation.marshal_get_limitation_confirmation f)
marshal_payload (Message.limitation_status f) = ok (Limitation.marshal_limitation_status f)
marshal_payload (Message.error_notification f) = ok (Network.marshal_error_notification f)
marshal_payload Message.factory_default_request = ok []
marshal_payload Message.factory_default_confirmation = ok []
marshal_payload Message.get_version_request = ok []
marshal_payload (Message.get_version_confirmation f) = ok (Auth.marshal_get_version_confirmation f)
marshal_payload Message.get_protocol_version_request = ok []
marshal_payload (Message.get_protocol_version_confirmation f) =
    ok (Auth.marshal_get_protocol_version_confirmation f)
marshal_payload Message.leave_learn_state_request = ok []
marshal_payload (Message.leave_learn_state_confirmation f) =
    ok (Auth.marshal_leave_learn_state_confirmation f)
marshal_payload Message.network_setup_request = ok []
marshal_payload (Message.network_setup_confirmation f) =
    ok (Network.marshal_network_setup_confirmation f)
marshal_payload (Message.discover_nodes_request f) = ok (Naming.marshal_discover_nodes_request f)
marshal_payload Message.discover_nodes_confirmation = ok []
marshal_payload (Message.discover_nodes_notification f) =
    ok (Naming.marshal_discover_nodes_notification f)
marshal_payload (Message.set_node_name_request f) = Naming.marshal_set_node_name_request f
marshal_payload (Message.set_node_name_confirmation f) =
    ok (Naming.marshal_set_node_name_confirmation f)
marshal_payload (Message.node_information_changed f) = Naming.marshal_node_information_changed f
marshal_payload (Message.wink_send_request f) = Scenes.marshal_wink_send_request f
marshal_payload (Message.wink_send_confirmation f) = ok (Scenes.marshal_wink_send_confirmation f)
marshal_payload (Message.wink_send_notification f) = ok (Scenes.marshal_wink_send_notification f)
marshal_payload Message.scene_list_request = ok []
marshal_payload (Message.scene_list_confirmation f) = ok (Scenes.marshal_scene_list_confirmation f)
marshal_payload (Message.scene_list_notification f) = Scenes.marshal_scene_list_notification f
marshal_payload (Message.activate_scene_request f) = ok (Scenes.marshal_activate_scene_request f)
marshal_payload (Message.activate_scene_confirmation f) =
    ok (Scenes.marshal_activate_scene_confirmation f)
marshal_payload Message.activation_log_updated = ok []
marshal_payload (Message.set_utc_request f) = ok (Auth.marshal_set_utc_request f)
marshal_payload Message.set_utc_confirmation = ok []
marshal_payload Message.get_local_time_request = ok []
marshal_payload (Message.password_enter_request f) = Auth.marshal_password_enter_request f
marshal_payload (Message.password_enter_confirmation f) =
    ok (Auth.marshal_password_enter_confirmation f)
marshal_payload (Message.password_change_request f) = Auth.marshal_password_change_request f
marshal_payload (Message.password_change_confirmation f) =
    ok (Auth.marshal_password_change_confirmation f)
marshal_payload (Message.password_change_notification f) =
    Auth.marshal_password_change_notification f

-- A method that fails returns its error, one that succeeds leaves the frame filled in.
abbrev pub filled {ℓ} : {A : Type ℓ} → (A → Frame) → Result Error A → Result Error Frame
filled make (ok a) = ok (make a)
filled make (err e) = err e

abbrev nothing_to_read : Frame → List ℕ → Result Error Frame
unfolding unmarshal_empty
nothing_to_read f p = filled (λ _. f) (unmarshal_empty p)

-- `UnmarshalPayload` of each type.
unfoldable pub unmarshal_payload : Frame → List ℕ → Result Error Frame
unfolding unmarshal_empty
unmarshal_payload (Message.get_state_confirmation f) p =
    filled Message.get_state_confirmation (Simple.unmarshal_get_state_confirmation f p)
unmarshal_payload (Message.node_information_request f) p =
    filled Message.node_information_request (Simple.unmarshal_node_information_request f p)
unmarshal_payload (Message.node_information_confirmation f) p =
    filled Message.node_information_confirmation
      (Simple.unmarshal_node_information_confirmation f p)
unmarshal_payload (Message.all_nodes_confirmation f) p =
    filled Message.all_nodes_confirmation (Nodes.unmarshal_all_nodes_confirmation f p)
unmarshal_payload (Message.all_nodes_notification f) p =
    filled Message.all_nodes_notification (Nodes.unmarshal_node_info p)
unmarshal_payload (Message.node_information_notification f) p =
    filled Message.node_information_notification (Nodes.unmarshal_node_info p)
unmarshal_payload (Message.position_changed f) p =
    filled Message.position_changed (Commands.unmarshal_position_changed f p)
unmarshal_payload (Message.command_send_request f) p =
    filled Message.command_send_request (Commands.unmarshal_command_send_request f p)
unmarshal_payload (Message.command_send_confirmation f) p =
    filled Message.command_send_confirmation (Commands.unmarshal_command_send_confirmation f p)
unmarshal_payload (Message.command_run_status f) p =
    filled Message.command_run_status (Commands.unmarshal_command_run_status f p)
unmarshal_payload (Message.command_remaining_time f) p =
    filled Message.command_remaining_time (Commands.unmarshal_command_remaining_time f p)
unmarshal_payload (Message.session_finished f) p =
    filled Message.session_finished (Commands.unmarshal_session_finished f p)
unmarshal_payload (Message.status_request_request f) p =
    filled Message.status_request_request (Status.unmarshal_status_request_request f p)
unmarshal_payload (Message.status_request_confirmation f) p =
    filled Message.status_request_confirmation (Status.unmarshal_status_request_confirmation f p)
unmarshal_payload (Message.status_request_notification f) p =
    filled Message.status_request_notification (Status.unmarshal_status_request_notification f p)
unmarshal_payload (Message.set_limitation_request f) p =
    filled Message.set_limitation_request (Limitation.unmarshal_set_limitation_request f p)
unmarshal_payload (Message.set_limitation_confirmation f) p =
    filled Message.set_limitation_confirmation
      (Limitation.unmarshal_set_limitation_confirmation f p)
unmarshal_payload (Message.get_limitation_request f) p =
    filled Message.get_limitation_request (Limitation.unmarshal_get_limitation_request f p)
unmarshal_payload (Message.get_limitation_confirmation f) p =
    filled Message.get_limitation_confirmation
      (Limitation.unmarshal_get_limitation_confirmation f p)
unmarshal_payload (Message.limitation_status f) p =
    filled Message.limitation_status (Limitation.unmarshal_limitation_status f p)
unmarshal_payload (Message.error_notification f) p =
    filled Message.error_notification (Network.unmarshal_error_notification f p)
unmarshal_payload (Message.get_version_confirmation f) p =
    filled Message.get_version_confirmation (Auth.unmarshal_get_version_confirmation f p)
unmarshal_payload (Message.get_protocol_version_confirmation f) p =
    filled Message.get_protocol_version_confirmation
      (Auth.unmarshal_get_protocol_version_confirmation f p)
unmarshal_payload (Message.leave_learn_state_confirmation f) p =
    filled Message.leave_learn_state_confirmation
      (Auth.unmarshal_leave_learn_state_confirmation f p)
unmarshal_payload (Message.network_setup_confirmation f) p =
    filled Message.network_setup_confirmation (Network.unmarshal_network_setup_confirmation f p)
unmarshal_payload (Message.discover_nodes_request f) p =
    filled Message.discover_nodes_request (Naming.unmarshal_discover_nodes_request f p)
unmarshal_payload (Message.discover_nodes_notification f) p =
    filled Message.discover_nodes_notification (Naming.unmarshal_discover_nodes_notification f p)
unmarshal_payload (Message.set_node_name_request f) p =
    filled Message.set_node_name_request (Naming.unmarshal_set_node_name_request f p)
unmarshal_payload (Message.set_node_name_confirmation f) p =
    filled Message.set_node_name_confirmation (Naming.unmarshal_set_node_name_confirmation f p)
unmarshal_payload (Message.node_information_changed f) p =
    filled Message.node_information_changed (Naming.unmarshal_node_information_changed f p)
unmarshal_payload (Message.wink_send_request f) p =
    filled Message.wink_send_request (Scenes.unmarshal_wink_send_request f p)
unmarshal_payload (Message.wink_send_confirmation f) p =
    filled Message.wink_send_confirmation (Scenes.unmarshal_wink_send_confirmation f p)
unmarshal_payload (Message.wink_send_notification f) p =
    filled Message.wink_send_notification (Scenes.unmarshal_wink_send_notification f p)
unmarshal_payload (Message.scene_list_confirmation f) p =
    filled Message.scene_list_confirmation (Scenes.unmarshal_scene_list_confirmation f p)
unmarshal_payload (Message.scene_list_notification f) p =
    filled Message.scene_list_notification (Scenes.unmarshal_scene_list_notification f p)
unmarshal_payload (Message.activate_scene_request f) p =
    filled Message.activate_scene_request (Scenes.unmarshal_activate_scene_request f p)
unmarshal_payload (Message.activate_scene_confirmation f) p =
    filled Message.activate_scene_confirmation (Scenes.unmarshal_activate_scene_confirmation f p)
unmarshal_payload (Message.set_utc_request f) p =
    filled Message.set_utc_request (Auth.unmarshal_set_utc_request f p)
unmarshal_payload (Message.password_enter_request f) p =
    filled Message.password_enter_request (Auth.unmarshal_password_enter_request f p)
unmarshal_payload (Message.password_enter_confirmation f) p =
    filled Message.password_enter_confirmation (Auth.unmarshal_password_enter_confirmation f p)
unmarshal_payload (Message.password_change_request f) p =
    filled Message.password_change_request (Auth.unmarshal_password_change_request f p)
unmarshal_payload (Message.password_change_confirmation f) p =
    filled Message.password_change_confirmation (Auth.unmarshal_password_change_confirmation f p)
unmarshal_payload (Message.password_change_notification f) p =
    filled Message.password_change_notification (Auth.unmarshal_password_change_notification f p)
unmarshal_payload f p = nothing_to_read f p

unfoldable pub marshal_frame : Frame → Result Error (List ℕ)
unfolding marshal_payload command
marshal_frame f = do payload ← marshal_payload f; ok (build_frame (command f) payload)
