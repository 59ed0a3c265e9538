-- ===== src/Protocol/Message/RoundTrip/Small.antt =====
-- The round trips of the frames of a fixed size.
use velux_to_mqtt_gw.Prelude.{◌≡◌, arith, IsU16, ok, some}
use velux_to_mqtt_gw.Protocol.Parameter.{Parameter, new_parameter}
use velux_to_mqtt_gw.Protocol.Parameter.Normal.{parameter_from_raw_valid}
use velux_to_mqtt_gw.Protocol.Frames.Commands.{
  CommandSendConfirmation, CommandRunStatus, PositionChanged, marshal_command_send_confirmation,
  unmarshal_command_send_confirmation, marshal_command_run_status, unmarshal_command_run_status,
  marshal_position_changed, unmarshal_position_changed,
}
use velux_to_mqtt_gw.Protocol.Message.Wellformed.{PositionChangedFits, IsSettled}

pub command_send_confirmation-round_trip :
    (e f : CommandSendConfirmation)
    → IsU16 f.session_id
    → unmarshal_command_send_confirmation e (marshal_command_send_confirmation f) ≡ ok f
unfolding unmarshal_command_send_confirmation marshal_command_send_confirmation
command_send_confirmation-round_trip e f h = ground arith

pub command_run_status-round_trip :
    (e f : CommandRunStatus)
    → IsU16 f.session_id
    → IsU16 f.parameter_value
    → unmarshal_command_run_status e (marshal_command_run_status f) ≡ ok f
unfolding unmarshal_command_run_status marshal_command_run_status
command_run_status-round_trip e f h k = ground arith

pub new_parameter-settled : (p : Parameter) → IsSettled p → new_parameter (some p) ≡ p
unfolding new_parameter
new_parameter-settled p h = parameter_from_raw_valid p h.raw h.valid

pub position_changed-round_trip :
    (e f : PositionChanged)
    → PositionChangedFits f
    → unmarshal_position_changed e (marshal_position_changed f) ≡ ok f
unfolding unmarshal_position_changed marshal_position_changed
position_changed-round_trip e f h = ground (
  arith,
  new_parameter-settled f.current_position h.current_position,
  new_parameter-settled f.target h.target,
  new_parameter-settled f.current_position_fp1 h.fp1,
  new_parameter-settled f.current_position_fp2 h.fp2,
  new_parameter-settled f.current_position_fp3 h.fp3,
  new_parameter-settled f.current_position_fp4 h.fp4,
)
