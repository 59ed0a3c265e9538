-- ===== src/Protocol/Frames/Auth.antt =====
-- app/klf200/protocol/frame_auth_system.go: the frames of the password, the versions and the clock. A
-- string is the list of its bytes.
use velux_to_mqtt_gw.Prelude.{
  ℕ, List, [], ◌∷◌, ◌++◌, length, get_or, take, drop, ◌==◌, not, Result, ok, ◌>>=◌, ◌>>◌, require,
}
use velux_to_mqtt_gw.Protocol.Wire.{Error, payload_len, empty_password}
use velux_to_mqtt_gw.Protocol.Frames.Bytes.{
  u16_at, u16_bytes, u32_at, u32_bytes, padded, string_to_bytes, bytes_to_string,
}

-- GW_PASSWORD_ENTER_REQ
pub record PasswordEnterRequest : Type 0 where
  pub password : List ℕ

unfoldable pub marshal_password_enter_request : PasswordEnterRequest → Result Error (List ℕ)
marshal_password_enter_request f = do
  require (not (length f.password == 0)) empty_password
  string_to_bytes f.password 32

unfoldable pub unmarshal_password_enter_request :
    PasswordEnterRequest → List ℕ → Result Error PasswordEnterRequest
unmarshal_password_enter_request f p = do
  require (length p == 32) (payload_len (length p) 32)
  ok (record f { password = bytes_to_string p })

-- GW_PASSWORD_ENTER_CFM: 0 is success.
pub record PasswordEnterConfirmation : Type 0 where
  pub status : ℕ

unfoldable pub marshal_password_enter_confirmation : PasswordEnterConfirmation → List ℕ
marshal_password_enter_confirmation f = f.status ∷ []

unfoldable pub unmarshal_password_enter_confirmation :
    PasswordEnterConfirmation → List ℕ → Result Error PasswordEnterConfirmation
unmarshal_password_enter_confirmation f p = do
  require (length p == 1) (payload_len (length p) 1)
  ok (record f { status = get_or p 0 0 })

-- GW_PASSWORD_CHANGE_REQ
pub record PasswordChangeRequest : Type 0 where
  pub current_password : List ℕ
  pub new_password : List ℕ

unfoldable pub marshal_password_change_request : PasswordChangeRequest → Result Error (List ℕ)
marshal_password_change_request f = do
  require (not (length f.current_password == 0)) empty_password
  require (not (length f.new_password == 0)) empty_password
  cur ← string_to_bytes f.current_password 32
  nw ← string_to_bytes f.new_password 32
  ok (cur ++ nw)

unfoldable pub unmarshal_password_change_request :
    PasswordChangeRequest → List ℕ → Result Error PasswordChangeRequest
unmarshal_password_change_request f p = do
  require (length p == 64) (payload_len (length p) 64)
  ok (record f {
    current_password = bytes_to_string (take 32 p);
    new_password = bytes_to_string (drop 32 p);
  })

-- GW_PASSWORD_CHANGE_CFM
pub record PasswordChangeConfirmation : Type 0 where
  pub status : ℕ

unfoldable pub marshal_password_change_confirmation : PasswordChangeConfirmation → List ℕ
marshal_password_change_confirmation f = f.status ∷ []

unfoldable pub unmarshal_password_change_confirmation :
    PasswordChangeConfirmation → List ℕ → Result Error PasswordChangeConfirmation
unmarshal_password_change_confirmation f p = do
  require (length p == 1) (payload_len (length p) 1)
  ok (record f { status = get_or p 0 0 })

-- GW_PASSWORD_CHANGE_NTF
pub record PasswordChangeNotification : Type 0 where
  pub new_password : List ℕ

unfoldable pub marshal_password_change_notification :
    PasswordChangeNotification → Result Error (List ℕ)
marshal_password_change_notification f = do
  require (not (length f.new_password == 0)) empty_password
  string_to_bytes f.new_password 32

unfoldable pub unmarshal_password_change_notification :
    PasswordChangeNotification → List ℕ → Result Error PasswordChangeNotification
unmarshal_password_change_notification f p = do
  require (length p == 32) (payload_len (length p) 32)
  ok (record f { new_password = bytes_to_string p })

-- GW_LEAVE_LEARN_STATE_CFM
pub record LeaveLearnStateConfirmation : Type 0 where
  pub status : ℕ

unfoldable pub marshal_leave_learn_state_confirmation : LeaveLearnStateConfirmation → List ℕ
marshal_leave_learn_state_confirmation f = f.status ∷ []

unfoldable pub unmarshal_leave_learn_state_confirmation :
    LeaveLearnStateConfirmation → List ℕ → Result Error LeaveLearnStateConfirmation
unmarshal_leave_learn_state_confirmation f p = do
  require (length p == 1) (payload_len (length p) 1)
  ok (record f { status = get_or p 0 0 })

-- GW_GET_VERSION_CFM
pub record GetVersionConfirmation : Type 0 where
  pub software_version : List ℕ  -- 6 bytes
  pub hardware_version : ℕ
  pub product_group : ℕ
  pub product_type : ℕ

unfoldable pub marshal_get_version_confirmation : GetVersionConfirmation → List ℕ
marshal_get_version_confirmation f =
    padded 6 f.software_version ++ f.hardware_version ∷ f.product_group ∷ f.product_type ∷ []

unfoldable pub unmarshal_get_version_confirmation :
    GetVersionConfirmation → List ℕ → Result Error GetVersionConfirmation
unmarshal_get_version_confirmation f p = do
  require (length p == 9) (payload_len (length p) 9)
  ok (record f {
    software_version = take 6 p;
    hardware_version = get_or p 6 0;
    product_group = get_or p 7 0;
    product_type = get_or p 8 0;
  })

-- GW_GET_PROTOCOL_VERSION_CFM
pub record GetProtocolVersionConfirmation : Type 0 where
  pub major_version : ℕ  -- uint16
  pub minor_version : ℕ  -- uint16

unfoldable pub marshal_get_protocol_version_confirmation : GetProtocolVersionConfirmation → List ℕ
marshal_get_protocol_version_confirmation f =
    u16_bytes f.major_version (u16_bytes f.minor_version [])

unfoldable pub unmarshal_get_protocol_version_confirmation :
    GetProtocolVersionConfirmation → List ℕ → Result Error GetProtocolVersionConfirmation
unmarshal_get_protocol_version_confirmation f p = do
  require (length p == 4) (payload_len (length p) 4)
  ok (record f { major_version = u16_at p 0; minor_version = u16_at p 2 })

-- GW_SET_UTC_REQ
pub record SetUtcRequest : Type 0 where
  pub timestamp : ℕ  -- uint32

unfoldable pub marshal_set_utc_request : SetUtcRequest → List ℕ
marshal_set_utc_request f = u32_bytes f.timestamp []

unfoldable pub unmarshal_set_utc_request : SetUtcRequest → List ℕ → Result Error SetUtcRequest
unmarshal_set_utc_request f p = do
  require (length p == 4) (payload_len (length p) 4)
  ok (record f { timestamp = u32_at p 0 })
