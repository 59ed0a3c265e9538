-- ===== src/Protocol/ReadBack/Statuses.antt =====
-- The three frame types of frame_commands.go whose `UnmarshalPayload` does not read all that is written.
use velux_to_mqtt_gw.Prelude.{ℕ, List, [], ◌∷◌, ◌≡◌, refl, ap, arith, ok, ◌>>=◌, replicate}
use velux_to_mqtt_gw.Protocol.Frames.Bytes.{padded}
use velux_to_mqtt_gw.Protocol.Frames.Commands.{
  CommandSendRequest, marshal_command_send_request, unmarshal_command_send_request, node_run,
  zero_parameter,
}
use velux_to_mqtt_gw.Protocol.Frames.Status.{
  StatusRequestRequest, StatusRequestNotification, marshal_status_request_request,
  unmarshal_status_request_request, marshal_status_request_notification,
  unmarshal_status_request_notification,
}
use velux_to_mqtt_gw.Protocol.Message
use velux_to_mqtt_gw.Protocol.Message.{Frame, command}
use velux_to_mqtt_gw.Protocol.Payload.{marshal_payload, unmarshal_payload, filled}
use velux_to_mqtt_gw.Protocol.Creation.{create_frame, frame_registry, register_all, register_frame}
use velux_to_mqtt_gw.Protocol.Constructors.{constructors}
use velux_to_mqtt_gw.Protocol.Message.RoundTrip.Small.{new_parameter-settled}
use velux_to_mqtt_gw.Protocol.Frames.Bytes.{u16_bytes, u32_bytes}
use velux_to_mqtt_gw.Protocol.Frames.Commands.{parameter_bytes}
use velux_to_mqtt_gw.Protocol.ReadBack.{IsReadBack, readable, readable_at, length_required}
use velux_to_mqtt_gw.Protocol.Fits.{Fits, CommandFits, MainInfoFits}

-- The frames as their constructors make them.
abbrev fresh_status_request : StatusRequestRequest
fresh_status_request = record {
  session_id = 0;
  node_ids = [];
  status_type = 1;
  fpi1 = 254;
  fpi2 = 0;
}

abbrev fresh_command : CommandSendRequest
fresh_command = record {
  session_id = 0;
  originator = 0;
  priority = 0;
  active_parameter = 0;
  fpi1 = 0;
  fpi2 = 0;
  parameter = zero_parameter;
  functional_parameter = replicate 16 zero_parameter;
  node_ids = [];
}

status_request_request-round_trip :
    (e f : StatusRequestRequest)
    → Fits (Message.status_request_request f)
    → (marshal_status_request_request f >>= unmarshal_status_request_request e) ≡ ok f
unfolding marshal_status_request_request unmarshal_status_request_request padded node_run
status_request_request-round_trip e f h = ground (arith, h.1)

pub status_request_request-IsReadBack :
    (f : StatusRequestRequest)
    → Fits (Message.status_request_request f)
    → IsReadBack (Message.status_request_request f)
unfolding marshal_payload unmarshal_payload command create_frame frame_registry register_all
    register_frame constructors unmarshal_status_request_request
status_request_request-IsReadBack f h =
    readable_at 26 (λ g. Message.status_request_request g) marshal_status_request_request
      unmarshal_status_request_request (omega arith) (λ p a. length_required 26 p _ _ a) refl refl
      (λ p. refl) (status_request_request-round_trip fresh_status_request f h)

command_send_request-round_trip :
    (e f : CommandSendRequest)
    → CommandFits f
    → e.active_parameter ≡ 0
    → e.fpi1 ≡ 0
    → e.fpi2 ≡ 0
    → e.functional_parameter ≡ replicate 16 zero_parameter
    → (marshal_command_send_request f >>= unmarshal_command_send_request e) ≡ ok f
unfolding marshal_command_send_request unmarshal_command_send_request padded node_run
command_send_request-round_trip e f h ha h1 h2 hf =
    ground (arith, h.one_node, new_parameter-settled f.parameter h.parameter)

pub command_send_request-IsReadBack :
    (f : CommandSendRequest) → CommandFits f → IsReadBack (Message.command_send_request f)
unfolding marshal_payload unmarshal_payload command create_frame frame_registry register_all
    register_frame constructors unmarshal_command_send_request
command_send_request-IsReadBack f h =
    readable_at 66 (λ g. Message.command_send_request g) marshal_command_send_request
      unmarshal_command_send_request (omega arith) (λ p a. length_required 66 p _ _ a) refl refl
      (λ p. refl) (command_send_request-round_trip fresh_command f h refl refl refl refl)

-- The payload of the main information.
abbrev main_info : StatusRequestNotification → List ℕ
main_info f = u16_bytes f.session_id (
    f.status_id
    ∷ f.node_id
    ∷ f.run_status
    ∷ f.status_reply
    ∷ 3
    ∷ parameter_bytes f.target_position (
        parameter_bytes f.current_position (
          u16_bytes f.remaining_time
            (u32_bytes f.last_master_execution_address (f.last_command_originator ∷ [])))))

main_info-written :
    (f : StatusRequestNotification)
    → MainInfoFits f
    → marshal_status_request_notification f ≡ ok (main_info f)
unfolding marshal_status_request_notification
main_info-written f h = ground (arith, h.status_type)

main_info-read :
    (e f : StatusRequestNotification)
    → MainInfoFits f
    → e.status_count ≡ 0
    → unmarshal_status_request_notification e (main_info f) ≡ ok f
unfolding unmarshal_status_request_notification
main_info-read e f h he = ground (
  arith,
  h.status_type,
  new_parameter-settled f.target_position h.target_position,
  new_parameter-settled f.current_position h.current_position,
)

pub status_request_notification-IsReadBack :
    (f : StatusRequestNotification)
    → MainInfoFits f
    → IsReadBack (Message.status_request_notification f)
unfolding marshal_payload unmarshal_payload command create_frame frame_registry register_all
    register_frame constructors
status_request_notification-IsReadBack f h =
    readable {p = main_info f} (main_info-written f h) (omega arith) refl
      (ap (filled Message.status_request_notification) (main_info-read _ f h refl))
