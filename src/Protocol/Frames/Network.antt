-- ===== src/Protocol/Frames/Network.antt =====
-- app/klf200/protocol/frame_state_network.go: the network setup and the error notification. An address
-- is the list of its four bytes.
use velux_to_mqtt_gw.Prelude.{
  ℕ, List, [], ◌∷◌, ◌++◌, length, get_or, take, drop, ◌==◌, Result, ok, ◌>>◌, require,
}
use velux_to_mqtt_gw.Protocol.Wire.{Error, payload_len}
use velux_to_mqtt_gw.Protocol.Frames.Bytes.{padded}

-- GW_GET_NETWORK_SETUP_CFM
pub record NetworkSetupConfirmation : Type 0 where
  pub ip_address : List ℕ
  pub netmask : List ℕ
  pub gateway : List ℕ
  pub dhcp : ℕ

unfoldable pub marshal_network_setup_confirmation : NetworkSetupConfirmation → List ℕ
marshal_network_setup_confirmation f =
    padded 4 f.ip_address ++ (padded 4 f.netmask ++ (padded 4 f.gateway ++ f.dhcp ∷ []))

unfoldable pub unmarshal_network_setup_confirmation :
    NetworkSetupConfirmation → List ℕ → Result Error NetworkSetupConfirmation
unmarshal_network_setup_confirmation f p = do
  require (length p == 13) (payload_len (length p) 13)
  ok (record f {
    ip_address = take 4 p;
    netmask = take 4 (drop 4 p);
    gateway = take 4 (drop 8 p);
    dhcp = get_or p 12 0;
  })

-- GW_ERROR_NTF
pub record ErrorNotification : Type 0 where
  pub error_type : ℕ

unfoldable pub marshal_error_notification : ErrorNotification → List ℕ
marshal_error_notification f = f.error_type ∷ []

unfoldable pub unmarshal_error_notification :
    ErrorNotification → List ℕ → Result Error ErrorNotification
unmarshal_error_notification f p = do
  require (length p == 1) (payload_len (length p) 1)
  ok (record f { error_type = get_or p 0 0 })
