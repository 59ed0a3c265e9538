-- ===== src/Klf200/System/Outcomes.antt =====
-- What the calls of auth_system.go and house_monitor.go return, as a property of the frames that arrive.
use velux_to_mqtt_gw.Prelude.{
  ℕ, ◌%◌, ◌^◌, ◌<◌, List, [], Option, Result, ok, err, ◌≡◌, refl, require, ◌==◌, length, arith,
}
use velux_to_mqtt_gw.Protocol.Wire.{empty_password, string_too_long}
use velux_to_mqtt_gw.Protocol.Frames.Auth.{marshal_password_enter_request}
use velux_to_mqtt_gw.Protocol.Frames.Naming.{marshal_set_node_name_request}
use velux_to_mqtt_gw.Protocol.Frames.Bytes.{string_to_bytes}
use velux_to_mqtt_gw.Protocol.Message
use velux_to_mqtt_gw.Protocol.Message.{Frame, command}
use velux_to_mqtt_gw.Protocol.Payload.{marshal_payload, marshal_frame}
use velux_to_mqtt_gw.Klf200.Command.{CallError, rejected, not_sent, api_call}
use velux_to_mqtt_gw.Klf200.Command.Answers.{first_answer, judged, answered_with, answered}
use velux_to_mqtt_gw.Klf200.System.{
  password_enter, set_node_name, get_version, get_protocol_version, get_network_setup, get_state,
  set_utc, reboot, factory_default, house_status_monitor_enable, house_status_monitor_disable,
  version_answer, protocol_answer, network_answer, state_answer, utc_answer, reboot_answer,
  factory_answer, enable_answer, disable_answer, seconds_of,
}

-- A confirmation with the status that stands for success is one, any other is an error with the status.
abbrev pub accepted : ℕ → ℕ → Result CallError (Unit {0})
accepted good status = require (status == good) (rejected status)

-- Reading the versions, the network's setup and the gateway's state return the fields of the first
-- confirmation of their type, and fail as the exchange does just if there is none.
pub queries-outcome :
    (frames : List Frame)
    → (get_version frames
        ≡ judged (first_answer version_answer frames) (λ f. ok (record {
          software_version = f.software_version;
          hardware_version = f.hardware_version;
          product_group = f.product_group;
          product_type = f.product_type;
        })))
      × (get_protocol_version frames
          ≡ judged (first_answer protocol_answer frames) (λ f.
            ok (record { major_version = f.major_version; minor_version = f.minor_version })))
      × (get_network_setup frames
          ≡ judged (first_answer network_answer frames) (λ f. ok (record {
            ip_address = f.ip_address;
            netmask = f.netmask;
            gateway = f.gateway;
            dhcp = f.dhcp;
          })))
      × (get_state frames
          ≡ judged
              (first_answer state_answer frames)
              (λ f. ok (record { state = f.gateway_state; sub_state = f.gateway_sub_state })))
unfolding get_version get_protocol_version get_network_setup get_state marshal_frame marshal_payload
queries-outcome frames = (
  answered_with Message.get_version_request version_answer frames _ (_, refl),
  answered_with Message.get_protocol_version_request protocol_answer frames _ (_, refl),
  answered_with Message.network_setup_request network_answer frames _ (_, refl),
  answered_with Message.get_state_request state_answer frames _ (_, refl),
)

-- The five calls whose confirmation carries nothing succeed just if one arrives: setting the clock,
-- rebooting, the factory defaults, and the two of the house status monitor.
pub acknowledged_calls-outcome :
    (now : ℕ) (t : Option ℕ) (frames : List Frame)
    → (set_utc now t frames ≡ judged (first_answer utc_answer frames) (λ u. ok tt))
      × (reboot frames ≡ judged (first_answer reboot_answer frames) (λ u. ok tt))
      × (factory_default frames ≡ judged (first_answer factory_answer frames) (λ u. ok tt))
      × (house_status_monitor_enable frames
          ≡ judged (first_answer enable_answer frames) (λ u. ok tt))
      × (house_status_monitor_disable frames
          ≡ judged (first_answer disable_answer frames) (λ u. ok tt))
unfolding set_utc reboot factory_default house_status_monitor_enable house_status_monitor_disable
    marshal_frame marshal_payload
acknowledged_calls-outcome now t frames = (
  answered (Message.set_utc_request (record { timestamp = seconds_of now t % 2 ^ 32 })) utc_answer
      frames (λ u. ok tt) (_, refl),
  answered Message.reboot_request reboot_answer frames (λ u. ok tt) (_, refl),
  answered Message.factory_default_request factory_answer frames (λ u. ok tt) (_, refl),
  answered Message.monitor_enable_request enable_answer frames (λ u. ok tt) (_, refl),
  answered Message.monitor_disable_request disable_answer frames (λ u. ok tt) (_, refl),
)

-- An empty password, one of more than 32 bytes and a name of more than 64 are not sent: the call fails
-- with the error of the frame's own check, whatever would arrive.
pub unsendable :
    (password name : List ℕ) (node_id : ℕ) (frames : List Frame)
    → 32 < length password
    → 64 < length name
    → (password_enter [] frames ≡ err (not_sent empty_password))
      × (password_enter password frames ≡ err (not_sent (string_too_long (length password) 32)))
      × (set_node_name node_id name frames ≡ err (not_sent (string_too_long (length name) 64)))
unfolding password_enter set_node_name marshal_frame marshal_payload marshal_password_enter_request
    marshal_set_node_name_request string_to_bytes api_call
unsendable password name node_id frames h1 h2 = (refl, ground arith, ground arith)
