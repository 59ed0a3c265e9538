-- ===== src/Protocol/Frames/Commands.antt =====
-- app/klf200/protocol/frame_commands.go: sending commands, and their progress.
use velux_to_mqtt_gw.Prelude.{
  ℕ, zero, suc, ◌+◌, List, [], ◌∷◌, ◌++◌, length, get_or, replicate, ltb, ◌==◌, not, byte, Result,
  ok, ◌>>◌, require, some,
}
use velux_to_mqtt_gw.Protocol.Wire.{Error, payload_len, too_many_nodes, wrong_node_length}
use velux_to_mqtt_gw.Protocol.Parameter.{Parameter, new_parameter}
use velux_to_mqtt_gw.Protocol.Frames.Bytes.{u16_at, u16_bytes, u32_at, u32_bytes, padded}

-- The zero value of Go's `Parameter` and `[2]byte`.
abbrev pub zero_parameter : Parameter
zero_parameter = record { hi = 0; lo = 0 }

-- `NewParameter(&[2]byte{payload[i], payload[i+1]})`.
abbrev pub parameter_at : List ℕ → ℕ → Parameter
parameter_at p i = new_parameter (some (record { hi = get_or p i 0; lo = get_or p (i + 1) 0 }))

abbrev pub parameter_bytes : Parameter → List ℕ → List ℕ
parameter_bytes p rest = p.hi ∷ p.lo ∷ rest

-- Sessions are uint16; all other plain numbers of the records are uint8 unless marked.
pub record CommandSendRequest : Type 0 where
  pub session_id : ℕ
  pub originator : ℕ
  pub priority : ℕ
  pub active_parameter : ℕ
  pub fpi1 : ℕ
  pub fpi2 : ℕ
  pub parameter : Parameter
  pub functional_parameter : List Parameter  -- fp1 to fp16
  pub node_ids : List ℕ

unfoldable pub marshal_command_send_request : CommandSendRequest → Result Error (List ℕ)
marshal_command_send_request f = do
  require (not (ltb 20 (length f.node_ids))) (too_many_nodes (length f.node_ids))
  let fp = λ (i : ℕ). get_or f.functional_parameter i zero_parameter
  ok (
      u16_bytes f.session_id (
        f.originator
        ∷ f.priority
        ∷ f.active_parameter
        ∷ f.fpi1
        ∷ f.fpi2
        ∷ parameter_bytes f.parameter (
            parameter_bytes (fp 0) (
              parameter_bytes (fp 1) (
                parameter_bytes (fp 2) (
                  replicate 26 0
                  ++ byte (length f.node_ids) ∷ (padded 20 f.node_ids ++ 0 ∷ 0 ∷ 0 ∷ 0 ∷ [])))))))

-- `f.NodeIDs[i] = payload[42] + uint8(i)` for `i` from 0 on.
unfoldable pub node_run : ℕ → ℕ → List ℕ
node_run zero first = []
node_run (suc n) first = first ∷ node_run n (byte (first + 1))

unfoldable pub unmarshal_command_send_request :
    CommandSendRequest → List ℕ → Result Error CommandSendRequest
unmarshal_command_send_request f p = do
  require (length p == 66) (payload_len (length p) 66)
  require (not (ltb 20 (get_or p 41 0))) (wrong_node_length (get_or p 41 0))
  ok (record f {
    session_id = u16_at p 0;
    originator = get_or p 2 0;
    priority = get_or p 3 0;
    node_ids = node_run (get_or p 41 0) (get_or p 42 0);
    parameter = parameter_at p 7;
  })

pub record CommandSendConfirmation : Type 0 where
  pub session_id : ℕ
  pub status : ℕ

abbrev pub command_send_rejected : ℕ
command_send_rejected = 0

abbrev pub command_send_accepted : ℕ
command_send_accepted = 1

unfoldable pub marshal_command_send_confirmation : CommandSendConfirmation → List ℕ
marshal_command_send_confirmation f = u16_bytes f.session_id (f.status ∷ [])

unfoldable pub unmarshal_command_send_confirmation :
    CommandSendConfirmation → List ℕ → Result Error CommandSendConfirmation
unmarshal_command_send_confirmation f p = do
  require (length p == 3) (payload_len (length p) 3)
  ok (record f { session_id = u16_at p 0; status = get_or p 2 0 })

pub record CommandRunStatus : Type 0 where
  pub session_id : ℕ
  pub status_id : ℕ
  pub index_id : ℕ
  pub node_parameter : ℕ
  pub parameter_value : ℕ  -- uint16

unfoldable pub marshal_command_run_status : CommandRunStatus → List ℕ
marshal_command_run_status f =
    u16_bytes f.session_id
      (f.status_id ∷ f.index_id ∷ f.node_parameter ∷ u16_bytes f.parameter_value (replicate 6 0))

unfoldable pub unmarshal_command_run_status :
    CommandRunStatus → List ℕ → Result Error CommandRunStatus
unmarshal_command_run_status f p = do
  require (length p == 13) (payload_len (length p) 13)
  ok (record f {
    session_id = u16_at p 0;
    status_id = get_or p 2 0;
    index_id = get_or p 3 0;
    node_parameter = get_or p 4 0;
    parameter_value = u16_at p 5;
  })

pub record CommandRemainingTime : Type 0 where
  pub session_id : ℕ
  pub index_id : ℕ
  pub node_parameter : ℕ
  pub seconds : ℕ  -- uint16

unfoldable pub marshal_command_remaining_time : CommandRemainingTime → List ℕ
marshal_command_remaining_time f =
    u16_bytes f.session_id (f.index_id ∷ f.node_parameter ∷ u16_bytes f.seconds [])

unfoldable pub unmarshal_command_remaining_time :
    CommandRemainingTime → List ℕ → Result Error CommandRemainingTime
unmarshal_command_remaining_time f p = do
  require (length p == 6) (payload_len (length p) 6)
  ok (record f {
    session_id = u16_at p 0;
    index_id = get_or p 2 0;
    node_parameter = get_or p 3 0;
    seconds = u16_at p 4;
  })

pub record SessionFinished : Type 0 where
  pub session_id : ℕ

unfoldable pub marshal_session_finished : SessionFinished → List ℕ
marshal_session_finished f = u16_bytes f.session_id []

unfoldable pub unmarshal_session_finished : SessionFinished → List ℕ → Result Error SessionFinished
unmarshal_session_finished f p = do
  require (length p == 2) (payload_len (length p) 2)
  ok (record f { session_id = u16_at p 0 })

pub record PositionChanged : Type 0 where
  pub node_id : ℕ
  pub state : ℕ
  pub current_position : Parameter
  pub target : Parameter
  pub current_position_fp1 : Parameter
  pub current_position_fp2 : Parameter
  pub current_position_fp3 : Parameter
  pub current_position_fp4 : Parameter
  pub remaining_time : ℕ  -- uint16
  pub timestamp : ℕ  -- uint32

-- FrameNodeStatePositionChangedNotification
unfoldable pub marshal_position_changed : PositionChanged → List ℕ
marshal_position_changed f =
    f.node_id
    ∷ f.state
    ∷ parameter_bytes f.current_position (
        parameter_bytes f.target (
          parameter_bytes f.current_position_fp1 (
            parameter_bytes f.current_position_fp2 (
              parameter_bytes f.current_position_fp3 (
                parameter_bytes f.current_position_fp4
                  (u16_bytes f.remaining_time (u32_bytes f.timestamp [])))))))

unfoldable pub unmarshal_position_changed : PositionChanged → List ℕ → Result Error PositionChanged
unmarshal_position_changed f p = do
  require (length p == 20) (payload_len (length p) 20)
  ok (record f {
    node_id = get_or p 0 0;
    state = get_or p 1 0;
    current_position = parameter_at p 2;
    target = parameter_at p 4;
    current_position_fp1 = parameter_at p 6;
    current_position_fp2 = parameter_at p 8;
    current_position_fp3 = parameter_at p 10;
    current_position_fp4 = parameter_at p 12;
    remaining_time = u16_at p 14;
    timestamp = u32_at p 16;
  })
