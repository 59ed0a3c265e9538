-- ===== src/Klf200/System.antt =====
-- The calls of app/klf200/auth_system.go and house_monitor.go.
pub mod Outcomes
use velux_to_mqtt_gw.Prelude.{
  ℕ, ◌%◌, ◌^◌, List, Option, none, some, Result, ok, ◌>>=◌, require, ◌==◌,
}
use velux_to_mqtt_gw.Protocol.Frames.Simple.{GetStateConfirmation}
use velux_to_mqtt_gw.Protocol.Frames.Auth.{
  PasswordEnterConfirmation, LeaveLearnStateConfirmation, GetVersionConfirmation,
  GetProtocolVersionConfirmation,
}
use velux_to_mqtt_gw.Protocol.Frames.Network.{NetworkSetupConfirmation}
use velux_to_mqtt_gw.Protocol.Frames.Naming.{SetNodeNameConfirmation}
use velux_to_mqtt_gw.Protocol.Message
use velux_to_mqtt_gw.Protocol.Message.{Frame}
use velux_to_mqtt_gw.Klf200.Command.{CallError, rejected, api_call, captures, dereferenced}

-- The type assertions of the handlers.
abbrev pub password_answer : Frame → Option PasswordEnterConfirmation
password_answer (Message.password_enter_confirmation f) = some f
password_answer f = none

abbrev pub version_answer : Frame → Option GetVersionConfirmation
version_answer (Message.get_version_confirmation f) = some f
version_answer f = none

abbrev pub protocol_answer : Frame → Option GetProtocolVersionConfirmation
protocol_answer (Message.get_protocol_version_confirmation f) = some f
protocol_answer f = none

abbrev pub network_answer : Frame → Option NetworkSetupConfirmation
network_answer (Message.network_setup_confirmation f) = some f
network_answer f = none

abbrev pub state_answer : Frame → Option GetStateConfirmation
state_answer (Message.get_state_confirmation f) = some f
state_answer f = none

abbrev pub learn_answer : Frame → Option LeaveLearnStateConfirmation
learn_answer (Message.leave_learn_state_confirmation f) = some f
learn_answer f = none

abbrev pub name_answer : Frame → Option SetNodeNameConfirmation
name_answer (Message.set_node_name_confirmation f) = some f
name_answer f = none

abbrev pub utc_answer : Frame → Option (Unit {0})
utc_answer Message.set_utc_confirmation = some tt
utc_answer f = none

abbrev pub reboot_answer : Frame → Option (Unit {0})
reboot_answer Message.reboot_confirmation = some tt
reboot_answer f = none

abbrev pub factory_answer : Frame → Option (Unit {0})
factory_answer Message.factory_default_confirmation = some tt
factory_answer f = none

abbrev pub enable_answer : Frame → Option (Unit {0})
enable_answer Message.monitor_enable_confirmation = some tt
enable_answer f = none

abbrev pub disable_answer : Frame → Option (Unit {0})
disable_answer Message.monitor_disable_confirmation = some tt
disable_answer f = none

unfoldable pub password_enter : List ℕ → List Frame → Result CallError (Unit {0})
unfolding api_call captures
password_enter password frames = do
  cfm ←
      api_call (Message.password_enter_request (record { password = password }))
        (captures password_answer) none frames
  f ← dereferenced cfm
  require (f.status == 0) (rejected f.status)

pub record GatewayVersion : Type 0 where
  pub software_version : List ℕ  -- 6 bytes
  pub hardware_version : ℕ
  pub product_group : ℕ
  pub product_type : ℕ

unfoldable pub get_version : List Frame → Result CallError GatewayVersion
unfolding api_call captures
get_version frames = do
  cfm ← api_call Message.get_version_request (captures version_answer) none frames
  f ← dereferenced cfm
  ok (record {
    software_version = f.software_version;
    hardware_version = f.hardware_version;
    product_group = f.product_group;
    product_type = f.product_type;
  })

pub record ProtocolVersion : Type 0 where
  pub major_version : ℕ  -- uint16
  pub minor_version : ℕ  -- uint16

unfoldable pub get_protocol_version : List Frame → Result CallError ProtocolVersion
unfolding api_call captures
get_protocol_version frames = do
  cfm ← api_call Message.get_protocol_version_request (captures protocol_answer) none frames
  f ← dereferenced cfm
  ok (record { major_version = f.major_version; minor_version = f.minor_version })

pub record NetworkSetup : Type 0 where
  pub ip_address : List ℕ
  pub netmask : List ℕ
  pub gateway : List ℕ
  pub dhcp : ℕ

unfoldable pub get_network_setup : List Frame → Result CallError NetworkSetup
unfolding api_call captures
get_network_setup frames = do
  cfm ← api_call Message.network_setup_request (captures network_answer) none frames
  f ← dereferenced cfm
  ok (record { ip_address = f.ip_address; netmask = f.netmask; gateway = f.gateway; dhcp = f.dhcp })

-- The time in seconds since 1970, or none for the zero value, which stands for the clock's.
abbrev pub seconds_of : ℕ → Option ℕ → ℕ
seconds_of now none = now
seconds_of now (some t) = t

unfoldable pub set_utc : ℕ → Option ℕ → List Frame → Result CallError (Unit {0})
unfolding api_call captures
set_utc now t frames = do
  cfm ←
      api_call (Message.set_utc_request (record { timestamp = seconds_of now t % 2 ^ 32 }))
        (captures utc_answer) none frames
  ok tt

pub record GatewayState : Type 0 where
  pub state : ℕ
  pub sub_state : ℕ

unfoldable pub get_state : List Frame → Result CallError GatewayState
unfolding api_call captures
get_state frames = do
  cfm ← api_call Message.get_state_request (captures state_answer) none frames
  f ← dereferenced cfm
  ok (record { state = f.gateway_state; sub_state = f.gateway_sub_state })

-- `LeaveLearnStateConfirmationStatusSuccessful` is 1.
unfoldable pub leave_learn_state : List Frame → Result CallError (Unit {0})
unfolding api_call captures
leave_learn_state frames = do
  cfm ← api_call Message.leave_learn_state_request (captures learn_answer) none frames
  f ← dereferenced cfm
  require (f.status == 1) (rejected f.status)

unfoldable pub reboot : List Frame → Result CallError (Unit {0})
unfolding api_call captures
reboot frames = do cfm ← api_call Message.reboot_request (captures reboot_answer) none frames; ok tt

unfoldable pub factory_default : List Frame → Result CallError (Unit {0})
unfolding api_call captures
factory_default frames = do
  cfm ← api_call Message.factory_default_request (captures factory_answer) none frames
  ok tt

-- `SetNodeNameConfirmationStatusOK` is 0.
unfoldable pub set_node_name : ℕ → List ℕ → List Frame → Result CallError (Unit {0})
unfolding api_call captures
set_node_name node_id name frames = do
  cfm ←
      api_call (Message.set_node_name_request (record { node_id = node_id; name = name }))
        (captures name_answer) none frames
  f ← dereferenced cfm
  require (f.status == 0) (rejected f.status)

-- house_monitor.go
unfoldable pub house_status_monitor_enable : List Frame → Result CallError (Unit {0})
unfolding api_call captures
house_status_monitor_enable frames = do
  cfm ← api_call Message.monitor_enable_request (captures enable_answer) none frames
  ok tt

unfoldable pub house_status_monitor_disable : List Frame → Result CallError (Unit {0})
unfolding api_call captures
house_status_monitor_disable frames = do
  cfm ← api_call Message.monitor_disable_request (captures disable_answer) none frames
  ok tt
