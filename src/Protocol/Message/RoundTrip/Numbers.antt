-- ===== src/Protocol/Message/RoundTrip/Numbers.antt =====
-- The round trips of the frames whose fields are numbers.
use velux_to_mqtt_gw.Prelude.{◌≡◌, arith, IsU16, ok}
use velux_to_mqtt_gw.Protocol.Message.Wellformed.{IsU32}
use velux_to_mqtt_gw.Protocol.Frames.Commands.{
  CommandRemainingTime, marshal_command_remaining_time, unmarshal_command_remaining_time,
  SessionFinished, marshal_session_finished, unmarshal_session_finished,
}
use velux_to_mqtt_gw.Protocol.Frames.Status.{
  StatusRequestConfirmation, marshal_status_request_confirmation,
  unmarshal_status_request_confirmation,
}
use velux_to_mqtt_gw.Protocol.Frames.Limitation.{
  GetLimitationConfirmation, marshal_get_limitation_confirmation,
  unmarshal_get_limitation_confirmation, LimitationStatus, marshal_limitation_status,
  unmarshal_limitation_status, SetLimitationConfirmation, marshal_set_limitation_confirmation,
  unmarshal_set_limitation_confirmation,
}
use velux_to_mqtt_gw.Protocol.Frames.Auth.{
  GetProtocolVersionConfirmation, marshal_get_protocol_version_confirmation,
  unmarshal_get_protocol_version_confirmation, SetUtcRequest, marshal_set_utc_request,
  unmarshal_set_utc_request,
}
use velux_to_mqtt_gw.Protocol.Frames.Scenes.{
  ActivateSceneRequest, marshal_activate_scene_request, unmarshal_activate_scene_request,
  ActivateSceneConfirmation, marshal_activate_scene_confirmation,
  unmarshal_activate_scene_confirmation, WinkSendConfirmation, marshal_wink_send_confirmation,
  unmarshal_wink_send_confirmation, WinkSendNotification, marshal_wink_send_notification,
  unmarshal_wink_send_notification,
}

pub command_remaining_time-round_trip :
    (e f : CommandRemainingTime)
    → IsU16 f.session_id
    → IsU16 f.seconds
    → unmarshal_command_remaining_time e (marshal_command_remaining_time f) ≡ ok f
unfolding unmarshal_command_remaining_time marshal_command_remaining_time
command_remaining_time-round_trip e f h k = ground arith

pub session_finished-round_trip :
    (e f : SessionFinished)
    → IsU16 f.session_id
    → unmarshal_session_finished e (marshal_session_finished f) ≡ ok f
unfolding unmarshal_session_finished marshal_session_finished
session_finished-round_trip e f h = ground arith

pub status_request_confirmation-round_trip :
    (e f : StatusRequestConfirmation)
    → IsU16 f.session_id
    → unmarshal_status_request_confirmation e (marshal_status_request_confirmation f) ≡ ok f
unfolding unmarshal_status_request_confirmation marshal_status_request_confirmation
status_request_confirmation-round_trip e f h = ground arith

pub get_limitation_confirmation-round_trip :
    (e f : GetLimitationConfirmation)
    → IsU16 f.session_id
    → unmarshal_get_limitation_confirmation e (marshal_get_limitation_confirmation f) ≡ ok f
unfolding unmarshal_get_limitation_confirmation marshal_get_limitation_confirmation
get_limitation_confirmation-round_trip e f h = ground arith

pub limitation_status-round_trip :
    (e f : LimitationStatus)
    → IsU16 f.session_id
    → IsU16 f.min_value
    → IsU16 f.max_value
    → unmarshal_limitation_status e (marshal_limitation_status f) ≡ ok f
unfolding unmarshal_limitation_status marshal_limitation_status
limitation_status-round_trip e f h k l = ground arith

pub set_limitation_confirmation-round_trip :
    (e f : SetLimitationConfirmation)
    → IsU16 f.session_id
    → unmarshal_set_limitation_confirmation e (marshal_set_limitation_confirmation f) ≡ ok f
unfolding unmarshal_set_limitation_confirmation marshal_set_limitation_confirmation
set_limitation_confirmation-round_trip e f h = ground arith

pub get_protocol_version_confirmation-round_trip :
    (e f : GetProtocolVersionConfirmation)
    → IsU16 f.major_version
    → IsU16 f.minor_version
    → unmarshal_get_protocol_version_confirmation e (marshal_get_protocol_version_confirmation f)
      ≡ ok f
unfolding unmarshal_get_protocol_version_confirmation marshal_get_protocol_version_confirmation
get_protocol_version_confirmation-round_trip e f h k = ground arith

pub set_utc_request-round_trip :
    (e f : SetUtcRequest)
    → IsU32 f.timestamp
    → unmarshal_set_utc_request e (marshal_set_utc_request f) ≡ ok f
unfolding unmarshal_set_utc_request marshal_set_utc_request
set_utc_request-round_trip e f h = ground arith

pub activate_scene_request-round_trip :
    (e f : ActivateSceneRequest)
    → IsU16 f.session_id
    → unmarshal_activate_scene_request e (marshal_activate_scene_request f) ≡ ok f
unfolding unmarshal_activate_scene_request marshal_activate_scene_request
activate_scene_request-round_trip e f h = ground arith

pub activate_scene_confirmation-round_trip :
    (e f : ActivateSceneConfirmation)
    → IsU16 f.session_id
    → unmarshal_activate_scene_confirmation e (marshal_activate_scene_confirmation f) ≡ ok f
unfolding unmarshal_activate_scene_confirmation marshal_activate_scene_confirmation
activate_scene_confirmation-round_trip e f h = ground arith

pub wink_send_confirmation-round_trip :
    (e f : WinkSendConfirmation)
    → IsU16 f.session_id
    → unmarshal_wink_send_confirmation e (marshal_wink_send_confirmation f) ≡ ok f
unfolding unmarshal_wink_send_confirmation marshal_wink_send_confirmation
wink_send_confirmation-round_trip e f h = ground arith

pub wink_send_notification-round_trip :
    (e f : WinkSendNotification)
    → IsU16 f.session_id
    → unmarshal_wink_send_notification e (marshal_wink_send_notification f) ≡ ok f
unfolding unmarshal_wink_send_notification marshal_wink_send_notification
wink_send_notification-round_trip e f h = ground arith
