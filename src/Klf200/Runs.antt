-- ===== src/Klf200/Runs.antt =====
-- Runs of app/klf200, on a window and a blind.
use velux_to_mqtt_gw.Prelude.{
  ℕ, length, replicate, List, [], ◌∷◌, true, false, ◌≡◌, arith, none, some, err, ok, if◌then◌else◌,
}
use velux_to_mqtt_gw.Protocol.Parameter.{raw_of}
use velux_to_mqtt_gw.Protocol.Frames.Commands.{CommandSendRequest, zero_parameter}
use velux_to_mqtt_gw.Protocol.Frames.Nodes.{NodeInfo}
use velux_to_mqtt_gw.Protocol.Message
use velux_to_mqtt_gw.Protocol.Message.{Frame}
use velux_to_mqtt_gw.Klf200.Node.{Node, node_from_info}
use velux_to_mqtt_gw.Klf200.Nodes.{by_id, load_nodes}
use velux_to_mqtt_gw.Klf200.Nodes.Laws.{HasUniqueIds, last_info, load_nodes-lookup}
use velux_to_mqtt_gw.Klf200.Updater.{process_frame}
use velux_to_mqtt_gw.Klf200.Updater.Laws.{AreRefined, process_frame-refined}
use velux_to_mqtt_gw.Klf200.Command.{no_answer, command_send, load_all_nodes, concluded}
use velux_to_mqtt_gw.Klf200.Command.Outcomes.{
  first_verdict, listed, command_send-outcome, load_all_nodes-outcome,
}
use velux_to_mqtt_gw.Protocol.Wire.{empty_password, string_too_long}
use velux_to_mqtt_gw.Klf200.Command.{unable, not_sent}
use velux_to_mqtt_gw.Klf200.Command.Answers.{judged}
use velux_to_mqtt_gw.Klf200.System.{password_enter, set_node_name}
use velux_to_mqtt_gw.Klf200.System.Outcomes.{unsendable}
use velux_to_mqtt_gw.Klf200.Queries.{status_request, get_limitation, load_node}
use velux_to_mqtt_gw.Klf200.Queries.Outcomes.{
  status_in, limitation_in, information_of, status_read, limitation_read, IsLoaded,
  node_queries-outcome,
}
use velux_to_mqtt_gw.Protocol.Frames.Status.{StatusRequestNotification}
use velux_to_mqtt_gw.Klf200.Scenes.{Scene, load_scenes}
use velux_to_mqtt_gw.Klf200.Scenes.Outcomes.{transmitted, AreLoaded, load_scenes-outcome}
use velux_to_mqtt_gw.Klf200.Heartbeat.{
  Arrivals, pulse, Heartbeat, Event, start, stop, pulsed, beats,
}
use velux_to_mqtt_gw.Klf200.Heartbeat.Laws.{
  blinds, call_id, has_state, refreshes, pulse-outcome, first_failure, failure_ch-first,
}
use velux_to_mqtt_gw.Klf200.Device.{
  open_device, close_device, stop_device, open_orientation, close_orientation, stop_orientation,
}
use velux_to_mqtt_gw.Klf200.Device.Requests.{Reads, LeavesPosition, device-Reads}

abbrev window_info : NodeInfo
window_info = record {
  node_id = 3;
  order = 0;
  placement = 0;
  name = 87 ∷ [];
  velocity = 0;
  node_type = 0x0101;
  product_group = 0;
  product_type = 0;
  node_variation = 0;
  power_mode = 0;
  build_number = 0;
  serial_number = 1 ∷ 2 ∷ 3 ∷ 4 ∷ 5 ∷ 6 ∷ 7 ∷ 8 ∷ [];
  state = 5;
  current_position = raw_of 0;
  target = raw_of 0;
  current_position_fp1 = raw_of 0;
  current_position_fp2 = raw_of 0;
  current_position_fp3 = raw_of 0;
  current_position_fp4 = raw_of 0;
  remaining_time = 0;
  timestamp = 0;
  alias_array = [];
}

abbrev blind_info : NodeInfo
blind_info = record window_info { node_id = 4; node_type = 0x0440 }

abbrev house : List Node
house = node_from_info window_info ∷ node_from_info blind_info ∷ []

abbrev moving : Frame
moving = Message.position_changed (record {
  node_id = 4;
  state = 4;
  current_position = raw_of 0x6400;
  target = raw_of 0xC800;
  current_position_fp1 = raw_of 0xF7FF;
  current_position_fp2 = raw_of 0xF7FF;
  current_position_fp3 = raw_of 0xF7FF;
  current_position_fp4 = raw_of 0xF7FF;
  remaining_time = 20;
  timestamp = 0;
})

process_frame-refined_example : AreRefined house (process_frame moving house)
process_frame-refined_example = process_frame-refined moving house

load_nodes-lookup_example :
    HasUniqueIds (load_nodes (window_info ∷ blind_info ∷ window_info ∷ []))
    × (by_id 3 (load_nodes (window_info ∷ blind_info ∷ window_info ∷ []))
        ≡ last_info 3 (window_info ∷ blind_info ∷ window_info ∷ []) none)
load_nodes-lookup_example = load_nodes-lookup (window_info ∷ blind_info ∷ window_info ∷ []) 3

-- The confirmation of another session, then that of this one.
abbrev answers : List Frame
answers =
    Message.command_send_confirmation (record { session_id = 8; status = 0 })
    ∷ Message.command_send_confirmation (record { session_id = 9; status = 1 })
    ∷ []

command_send-outcome_example : command_send 9 false answers ≡ concluded (first_verdict 9 answers)
command_send-outcome_example = command_send-outcome 9 answers

abbrev listing : List Frame
listing =
    Message.all_nodes_confirmation (record { status = 0; number_of_nodes = 1 })
    ∷ Message.all_nodes_notification window_info
    ∷ Message.all_nodes_finished
    ∷ []

load_all_nodes-outcome_example :
    load_all_nodes listing ≡ elim (listed listing) [ none ↦ err no_answer | some infos ↦ ok infos ]
load_all_nodes-outcome_example = load_all_nodes-outcome listing

abbrev empty_request : CommandSendRequest
empty_request = record {
  session_id = 0;
  originator = 0;
  priority = 0;
  active_parameter = 0;
  fpi1 = 0;
  fpi2 = 0;
  parameter = zero_parameter;
  functional_parameter = [];
  node_ids = [];
}

abbrev blind_node : Node
blind_node = record (node_from_info blind_info) { node_id = 4 }

device-Reads_example :
    Reads 9 4 (raw_of 0x0000) empty_request (open_device 9 true blind_node).0
    × Reads 9 4 (raw_of 0xC800) empty_request (close_device 9 true blind_node).0
    × Reads 9 4 (raw_of 0xD200) empty_request (stop_device 9 true blind_node).0
    × LeavesPosition 9 empty_request blind_node (open_orientation 9 true blind_node)
    × LeavesPosition 9 empty_request blind_node (close_orientation 9 true blind_node)
    × LeavesPosition 9 empty_request blind_node (stop_orientation 9 true blind_node)
device-Reads_example = device-Reads empty_request 9 true blind_node (omega arith) (omega arith)

-- The confirmation of another call, a refusal, and an acceptance that comes too late.
abbrev replies : List Frame
replies =
    Message.reboot_confirmation
    ∷ Message.password_enter_confirmation (record { status = 1 })
    ∷ Message.password_enter_confirmation (record { status = 0 })
    ∷ Message.leave_learn_state_confirmation (record { status = 1 })
    ∷ []

abbrev velux : List ℕ
velux = 118 ∷ 101 ∷ 108 ∷ 117 ∷ 120 ∷ []

abbrev long : List ℕ
long = replicate 65 97

unsendable_example :
    (password_enter [] replies ≡ err (not_sent empty_password))
    × (password_enter long replies ≡ err (not_sent (string_too_long (length long) 32)))
    × (set_node_name 4 long replies ≡ err (not_sent (string_too_long (length long) 64)))
unsendable_example = unsendable long long 4 replies (omega arith) (omega arith)

-- The status of another session, that of this one, and the node's information.
abbrev main_info : StatusRequestNotification
main_info = record {
  session_id = 8;
  status_id = 1;
  node_id = 4;
  run_status = 0;
  status_reply = 1;
  status_type = 3;
  target_position = raw_of 0xC800;
  current_position = raw_of 0x6400;
  remaining_time = 20;
  last_master_execution_address = 0;
  last_command_originator = 1;
  status_count = 0;
  parameter_data = [];
}

abbrev notifications : List Frame
notifications =
    Message.status_request_notification main_info
    ∷ Message.status_request_notification (record main_info { session_id = 9 })
    ∷ Message.node_information_notification window_info
    ∷ Message.node_information_notification blind_info
    ∷ []

node_queries-outcome_example :
    (status_request 9 4 notifications ≡ judged (status_read (status_in 9 notifications)) ok)
    × (get_limitation 9 4 1 notifications
        ≡ judged (limitation_read (limitation_in 9 notifications)) ok)
    × IsLoaded house (information_of 4 notifications) (load_node 4 house notifications)
node_queries-outcome_example = node_queries-outcome 9 4 1 house notifications

-- The gateway reports its state, and nothing else arrives.
abbrev quiet : Arrivals
quiet Message.get_state_request =
    Message.get_state_confirmation (record { gateway_state = 1; gateway_sub_state = 0 }) ∷ []
quiet f = []

pulse-outcome_example : pulse quiet 7 house ≡ (
    if has_state (quiet Message.get_state_request)
    then record {
      outcome = ok tt;
      last_session = call_id 7 (length (blinds house));
      refreshed = refreshes quiet 7 0 (blinds house);
    }
    else record { outcome = err no_answer; last_session = 7; refreshed = [] })
pulse-outcome_example = pulse-outcome quiet 7 house (omega arith)

abbrev happenings : List Event
happenings =
    start ∷ pulsed (ok tt) ∷ pulsed (err no_answer) ∷ stop ∷ start ∷ pulsed (err unable) ∷ []

abbrev resting : Heartbeat
resting = record { running = false; failure_ch = none }

failure_ch-first_example :
    (beats resting happenings).failure_ch
    ≡ elim resting.failure_ch [ none ↦ first_failure resting.running happenings | some e ↦ some e ]
failure_ch-first_example =
    failure_ch-first resting happenings (tt, (tt, (tt, (tt, (tt, (tt, tt))))))

-- Two scenes in two notifications, the second in the place of an older one.
abbrev scene_frames : List Frame
scene_frames =
    Message.scene_list_confirmation (record { count_scenes = 2 })
    ∷ Message.scene_list_notification
        (record { scenes = (record { number = 1; name = 65 ∷ [] }) ∷ []; remaining_scenes = 1 })
    ∷ Message.scene_list_notification
        (record { scenes = (record { number = 0; name = 66 ∷ [] }) ∷ []; remaining_scenes = 0 })
    ∷ []

abbrev old_scenes : List Scene
old_scenes = (record { scene_id = 0; name = 67 ∷ [] }) ∷ []

load_scenes-outcome_example :
    AreLoaded old_scenes (transmitted none scene_frames) (load_scenes old_scenes scene_frames)
load_scenes-outcome_example = load_scenes-outcome old_scenes scene_frames
