-- ===== src/Protocol/Constructors.antt =====
-- The `init` functions of the frame_*.go files: the frame that each registered constructor makes.
use velux_to_mqtt_gw.Prelude.{List, [], ◌∷◌, replicate}
use velux_to_mqtt_gw.Protocol.Frames.Commands.{zero_parameter}
use velux_to_mqtt_gw.Protocol.Frames.Status.{status_type_request_current_position}
use velux_to_mqtt_gw.Protocol.Frames.Nodes.{NodeInfo}
use velux_to_mqtt_gw.Protocol.Message
use velux_to_mqtt_gw.Protocol.Message.{Frame}

-- A frame as its constructor makes it: zero values, but for the fields that the source sets.
empty_node_info : NodeInfo
empty_node_info = record {
  node_id = 0;
  order = 0;
  placement = 0;
  name = [];
  velocity = 0;
  node_type = 0;
  product_group = 0;
  product_type = 0;
  node_variation = 0;
  power_mode = 0;
  build_number = 0;
  serial_number = 0 ∷ 0 ∷ 0 ∷ 0 ∷ 0 ∷ 0 ∷ 0 ∷ 0 ∷ [];
  state = 0;
  current_position = zero_parameter;
  target = zero_parameter;
  current_position_fp1 = zero_parameter;
  current_position_fp2 = zero_parameter;
  current_position_fp3 = zero_parameter;
  current_position_fp4 = zero_parameter;
  remaining_time = 0;
  timestamp = 0;
  alias_array = [];
}

-- The constructors of the `init` functions.
unfoldable pub constructors : List Frame
unfolding empty_node_info
constructors =
    Message.reboot_request
    ∷ Message.reboot_confirmation
    ∷ Message.get_state_request
    ∷ Message.get_state_confirmation (record { gateway_state = 0; gateway_sub_state = 0 })
    ∷ Message.node_information_request (record { node_id = 0 })
    ∷ Message.node_information_confirmation (record { status = 0; node_id = 0 })
    ∷ Message.all_nodes_request
    ∷ Message.all_nodes_confirmation (record { status = 0; number_of_nodes = 0 })
    ∷ Message.all_nodes_notification empty_node_info
    ∷ Message.all_nodes_finished
    ∷ Message.node_information_notification empty_node_info
    ∷ Message.position_changed (record {
      node_id = 0;
      state = 0;
      current_position = zero_parameter;
      target = zero_parameter;
      current_position_fp1 = zero_parameter;
      current_position_fp2 = zero_parameter;
      current_position_fp3 = zero_parameter;
      current_position_fp4 = zero_parameter;
      remaining_time = 0;
      timestamp = 0;
    })
    ∷ Message.monitor_enable_request
    ∷ Message.monitor_enable_confirmation
    ∷ Message.monitor_disable_request
    ∷ Message.monitor_disable_confirmation
    ∷ Message.command_send_request (record {
      session_id = 0;
      originator = 0;
      priority = 0;
      active_parameter = 0;
      fpi1 = 0;
      fpi2 = 0;
      parameter = zero_parameter;
      functional_parameter = replicate 16 zero_parameter;
      node_ids = [];
    })
    ∷ Message.command_send_confirmation (record { session_id = 0; status = 0 })
    ∷ Message.command_run_status (record {
      session_id = 0;
      status_id = 0;
      index_id = 0;
      node_parameter = 0;
      parameter_value = 0;
    })
    ∷ Message.command_remaining_time
        (record { session_id = 0; index_id = 0; node_parameter = 0; seconds = 0 })
    ∷ Message.session_finished (record { session_id = 0 })
    ∷ Message.status_request_request (record {
      session_id = 0;
      node_ids = [];
      status_type = status_type_request_current_position;
      fpi1 = 254;
      fpi2 = 0;
    })
    ∷ Message.status_request_confirmation (record { session_id = 0; status = 0 })
    ∷ Message.status_request_notification (record {
      session_id = 0;
      status_id = 0;
      node_id = 0;
      run_status = 0;
      status_reply = 0;
      status_type = 0;
      target_position = zero_parameter;
      current_position = zero_parameter;
      remaining_time = 0;
      last_master_execution_address = 0;
      last_command_originator = 0;
      status_count = 0;
      parameter_data = [];
    })
    ∷ Message.set_limitation_request (record {
      session_id = 0;
      originator = 0;
      priority = 0;
      node_ids = [];
      parameter_id = 0;
      limitation_value_min = zero_parameter;
      limitation_value_max = zero_parameter;
      limitation_time = 0;
    })
    ∷ Message.set_limitation_confirmation (record { session_id = 0; status = 0 })
    ∷ Message.get_limitation_request
        (record { session_id = 0; node_ids = []; parameter_id = 0; limitations_type = 0 })
    ∷ Message.get_limitation_confirmation (record { session_id = 0; status = 0 })
    ∷ Message.limitation_status (record {
      session_id = 0;
      node_id = 0;
      parameter_id = 0;
      min_value = 0;
      max_value = 0;
      limit_originator = 0;
      limit_time = 0;
    })
    ∷ Message.error_notification (record { error_type = 0 })
    ∷ Message.factory_default_request
    ∷ Message.factory_default_confirmation
    ∷ Message.get_version_request
    ∷ Message.get_version_confirmation (record {
      software_version = replicate 6 0;
      hardware_version = 0;
      product_group = 0;
      product_type = 0;
    })
    ∷ Message.get_protocol_version_request
    ∷ Message.get_protocol_version_confirmation (record { major_version = 0; minor_version = 0 })
    ∷ Message.leave_learn_state_request
    ∷ Message.leave_learn_state_confirmation (record { status = 0 })
    ∷ Message.network_setup_request
    ∷ Message.network_setup_confirmation (record {
      ip_address = replicate 4 0;
      netmask = replicate 4 0;
      gateway = replicate 4 0;
      dhcp = 0;
    })
    ∷ Message.discover_nodes_request (record { node_type = 0 })
    ∷ Message.discover_nodes_confirmation
    ∷ Message.discover_nodes_notification (record { payload = replicate 131 0 })
    ∷ Message.set_node_name_request (record { node_id = 0; name = [] })
    ∷ Message.set_node_name_confirmation (record { status = 0; node_id = 0 })
    ∷ Message.node_information_changed
        (record { node_id = 0; name = []; order = 0; placement = 0; node_variation = 0 })
    ∷ Message.wink_send_request (record {
      session_id = 0;
      originator = 1;
      priority = 3;
      node_ids = [];
      wink_state = 0;
      wink_time = 0;
    })
    ∷ Message.wink_send_confirmation (record { session_id = 0; status = 0 })
    ∷ Message.wink_send_notification (record { session_id = 0 })
    ∷ Message.scene_list_request
    ∷ Message.scene_list_confirmation (record { count_scenes = 0 })
    ∷ Message.scene_list_notification (record { scenes = []; remaining_scenes = 0 })
    ∷ Message.activate_scene_request
        (record { scene_id = 0; session_id = 0; originator = 1; priority = 3; velocity = 0 })
    ∷ Message.activate_scene_confirmation (record { session_id = 0; status = 0 })
    ∷ Message.activation_log_updated
    ∷ Message.set_utc_request (record { timestamp = 0 })
    ∷ Message.set_utc_confirmation
    ∷ Message.get_local_time_request
    ∷ Message.password_enter_request (record { password = [] })
    ∷ Message.password_enter_confirmation (record { status = 0 })
    ∷ Message.password_change_request (record { current_password = []; new_password = [] })
    ∷ Message.password_change_confirmation (record { status = 0 })
    ∷ Message.password_change_notification (record { new_password = [] })
    ∷ []
