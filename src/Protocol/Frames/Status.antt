-- ===== src/Protocol/Frames/Status.antt =====
-- app/klf200/protocol/frame_commands.go: the status request and its answers. Go's map of parameters
-- is an association list in the order of one of its iterations, with no key twice.
use velux_to_mqtt_gw.Prelude.{
  ℕ, zero, suc, ◌+◌, ◌-◌, ◌*◌, List, [], ◌∷◌, ◌++◌, length, get_or, replicate, ltb, leb, ◌==◌, not,
  byte, Result, ok, ◌>>◌, require, some, if◌then◌else◌, drop, Option, none,
}
use velux_to_mqtt_gw.Protocol.Wire.{
  Error, payload_len, payload_too_short, too_many_nodes, wrong_node_length, negative_length,
}
use velux_to_mqtt_gw.Protocol.Parameter.{Parameter}
use velux_to_mqtt_gw.Protocol.Frames.Bytes.{u16_at, u16_bytes, u32_at, u32_bytes, padded}
use velux_to_mqtt_gw.Protocol.Frames.Commands.{parameter_at, parameter_bytes, node_run}

-- StatusRequestStatus, StatusType of const.go
abbrev pub status_type_request_current_position : ℕ
status_type_request_current_position = 1

abbrev pub status_type_request_main_info : ℕ
status_type_request_main_info = 3

pub record StatusRequestRequest : Type 0 where
  pub session_id : ℕ
  pub node_ids : List ℕ
  pub status_type : ℕ
  pub fpi1 : ℕ
  pub fpi2 : ℕ

unfoldable pub marshal_status_request_request : StatusRequestRequest → Result Error (List ℕ)
marshal_status_request_request f = do
  require (not (ltb 20 (length f.node_ids))) (too_many_nodes (length f.node_ids))
  ok (
      u16_bytes f.session_id
        (byte (length f.node_ids) ∷ (padded 20 f.node_ids ++ f.status_type ∷ f.fpi1 ∷ f.fpi2 ∷ [])))

unfoldable pub unmarshal_status_request_request :
    StatusRequestRequest → List ℕ → Result Error StatusRequestRequest
unmarshal_status_request_request f p = do
  require (length p == 26) (payload_len (length p) 26)
  require (not (ltb 20 (get_or p 2 0))) (wrong_node_length (get_or p 2 0))
  ok (record f {
    session_id = u16_at p 0;
    node_ids = node_run (get_or p 2 0) (get_or p 3 0);
    status_type = get_or p 23 0;
    fpi1 = get_or p 24 0;
    fpi2 = get_or p 25 0;
  })

pub record StatusRequestConfirmation : Type 0 where
  pub session_id : ℕ
  pub status : ℕ

unfoldable pub marshal_status_request_confirmation : StatusRequestConfirmation → List ℕ
marshal_status_request_confirmation f = u16_bytes f.session_id (f.status ∷ [])

unfoldable pub unmarshal_status_request_confirmation :
    StatusRequestConfirmation → List ℕ → Result Error StatusRequestConfirmation
unmarshal_status_request_confirmation f p = do
  require (length p == 3) (payload_len (length p) 3)
  ok (record f { session_id = u16_at p 0; status = get_or p 2 0 })

pub record StatusRequestNotification : Type 0 where
  pub session_id : ℕ
  pub status_id : ℕ
  pub node_id : ℕ
  pub run_status : ℕ
  pub status_reply : ℕ
  pub status_type : ℕ
  pub target_position : Parameter
  pub current_position : Parameter
  pub remaining_time : ℕ  -- uint16
  pub last_master_execution_address : ℕ  -- uint32
  pub last_command_originator : ℕ
  pub status_count : ℕ
  pub parameter_data : List (ℕ × Parameter)

-- A read of the map, and a write.
unfoldable pub lookup : ℕ → List (ℕ × Parameter) → Option Parameter
lookup k [] = none
lookup k ((j, v) ∷ m) = if j == k then some v else lookup k m

unfoldable pub insert : ℕ → Parameter → List (ℕ × Parameter) → List (ℕ × Parameter)
insert k v [] = (k, v) ∷ []
insert k v ((j, w) ∷ m) = if j == k then (k, v) ∷ m else (j, w) ∷ insert k v m

-- The loop over the map, which stops when `count` entries are written.
unfoldable pub entry_bytes : ℕ → List (ℕ × Parameter) → List ℕ
entry_bytes zero m = []
entry_bytes (suc count) [] = []
entry_bytes (suc count) ((k, v) ∷ m) = k ∷ parameter_bytes v (entry_bytes count m)

-- `remaining := 51 - 3*len(f.ParameterData)` counts every entry of the map, not those written, and
-- `make` panics where it is negative.
unfoldable pub marshal_status_request_notification :
    StatusRequestNotification → Result Error (List ℕ)
unfolding entry_bytes
marshal_status_request_notification f =
    let head = λ (rest : List ℕ).
      u16_bytes f.session_id
        (f.status_id ∷ f.node_id ∷ f.run_status ∷ f.status_reply ∷ f.status_type ∷ rest) in
    if f.status_type == status_type_request_main_info
    then ok (
        head (
          parameter_bytes f.target_position (
            parameter_bytes f.current_position (
              u16_bytes f.remaining_time
                (u32_bytes f.last_master_execution_address (f.last_command_originator ∷ []))))))
    else do
      require (leb (3 * length f.parameter_data) 51) negative_length
      ok (
          head (
            f.status_count
            ∷ (entry_bytes f.status_count f.parameter_data
                ++ replicate (51 - 3 * length f.parameter_data) 0)))

-- The loop over the entries from `payload[8]` on; a later entry for a key replaces an earlier one.
unfoldable pub read_entries : ℕ → List ℕ → List (ℕ × Parameter) → List (ℕ × Parameter)
unfolding insert
read_entries zero p m = m
read_entries (suc count) p m =
    read_entries count (drop 3 p) (insert (get_or p 0 0) (parameter_at p 1) m)

-- The branch of `StatusTypeRequestMainInfo`, and that of every other type.
read_main_info : StatusRequestNotification → List ℕ → Result Error StatusRequestNotification
read_main_info g p = do
  require (leb 18 (length p)) (payload_too_short (length p))
  ok (record g {
    target_position = parameter_at p 7;
    current_position = parameter_at p 9;
    remaining_time = u16_at p 11;
    last_master_execution_address = u32_at p 13;
    last_command_originator = get_or p 17 0;
  })

read_parameter_data : StatusRequestNotification → List ℕ → Result Error StatusRequestNotification
unfolding read_entries
read_parameter_data g p = do
  require (leb 8 (length p)) (payload_too_short (length p))
  require (leb (8 + get_or p 7 0 * 3) (length p)) (payload_too_short (length p))
  ok (record g {
    status_count = get_or p 7 0;
    parameter_data = read_entries (get_or p 7 0) (drop 8 p) [];
  })

read_head : StatusRequestNotification → List ℕ → StatusRequestNotification
read_head f p = record f {
  session_id = u16_at p 0;
  status_id = get_or p 2 0;
  node_id = get_or p 3 0;
  run_status = get_or p 4 0;
  status_reply = get_or p 5 0;
  status_type = get_or p 6 0;
  parameter_data = [];
}

unfoldable pub unmarshal_status_request_notification :
    StatusRequestNotification → List ℕ → Result Error StatusRequestNotification
unfolding read_main_info read_parameter_data read_head
unmarshal_status_request_notification f p = do
  require (leb 7 (length p)) (payload_too_short (length p))
  let g = read_head f p
  if◌then◌else◌ (get_or p 6 0 == status_type_request_main_info) (read_main_info g p)
      (read_parameter_data g p)
