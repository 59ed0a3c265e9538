-- ===== src/Protocol/Frames/Limitation.antt =====
-- app/klf200/protocol/frame_limitation_hsm.go: reading and setting position limitations.
use velux_to_mqtt_gw.Prelude.{
  ℕ, ◌+◌, List, [], ◌∷◌, ◌++◌, length, get_or, take, drop, ltb, ◌==◌, not, byte, Result, ok, ◌>>◌,
  require,
}
use velux_to_mqtt_gw.Protocol.Wire.{Error, payload_len, too_many_nodes, wrong_node_length}
use velux_to_mqtt_gw.Protocol.Parameter.{Parameter}
use velux_to_mqtt_gw.Protocol.Frames.Bytes.{u16_at, u16_bytes, padded}
use velux_to_mqtt_gw.Protocol.Frames.Commands.{parameter_bytes}

abbrev pub set_limitation_rejected : ℕ
set_limitation_rejected = 0

abbrev pub set_limitation_accepted : ℕ
set_limitation_accepted = 1

-- `copy(f.NodeIDs, payload[from : from+nodeCount])` into a slice of that size.
abbrev pub nodes_at : List ℕ → ℕ → ℕ → List ℕ
nodes_at p from count = take count (drop from p)

-- `copy(raw[:], payload[i : i+2])`, with no normalisation.
abbrev pub raw_at : List ℕ → ℕ → Parameter
raw_at p i = record { hi = get_or p i 0; lo = get_or p (i + 1) 0 }

pub record GetLimitationRequest : Type 0 where
  pub session_id : ℕ
  pub node_ids : List ℕ
  pub parameter_id : ℕ
  pub limitations_type : ℕ

unfoldable pub marshal_get_limitation_request : GetLimitationRequest → Result Error (List ℕ)
marshal_get_limitation_request f = do
  require (not (ltb 20 (length f.node_ids))) (too_many_nodes (length f.node_ids))
  ok (
      u16_bytes f.session_id (
        byte (length f.node_ids)
        ∷ (padded 20 f.node_ids ++ f.parameter_id ∷ f.limitations_type ∷ [])))

unfoldable pub unmarshal_get_limitation_request :
    GetLimitationRequest → List ℕ → Result Error GetLimitationRequest
unmarshal_get_limitation_request f p = do
  require (length p == 25) (payload_len (length p) 25)
  require (not (ltb 20 (get_or p 2 0))) (wrong_node_length (get_or p 2 0))
  ok (record f {
    session_id = u16_at p 0;
    node_ids = nodes_at p 3 (get_or p 2 0);
    parameter_id = get_or p 23 0;
    limitations_type = get_or p 24 0;
  })

pub record GetLimitationConfirmation : Type 0 where
  pub session_id : ℕ
  pub status : ℕ  -- Data

unfoldable pub marshal_get_limitation_confirmation : GetLimitationConfirmation → List ℕ
marshal_get_limitation_confirmation f = u16_bytes f.session_id (f.status ∷ [])

unfoldable pub unmarshal_get_limitation_confirmation :
    GetLimitationConfirmation → List ℕ → Result Error GetLimitationConfirmation
unmarshal_get_limitation_confirmation f p = do
  require (length p == 3) (payload_len (length p) 3)
  ok (record f { session_id = u16_at p 0; status = get_or p 2 0 })

pub record LimitationStatus : Type 0 where
  pub session_id : ℕ
  pub node_id : ℕ
  pub parameter_id : ℕ
  pub min_value : ℕ  -- uint16
  pub max_value : ℕ  -- uint16
  pub limit_originator : ℕ
  pub limit_time : ℕ

unfoldable pub marshal_limitation_status : LimitationStatus → List ℕ
marshal_limitation_status f = u16_bytes f.session_id (
    f.node_id
    ∷ f.parameter_id
    ∷ u16_bytes f.min_value (u16_bytes f.max_value (f.limit_originator ∷ f.limit_time ∷ [])))

unfoldable pub unmarshal_limitation_status :
    LimitationStatus → List ℕ → Result Error LimitationStatus
unmarshal_limitation_status f p = do
  require (length p == 10) (payload_len (length p) 10)
  ok (record f {
    session_id = u16_at p 0;
    node_id = get_or p 2 0;
    parameter_id = get_or p 3 0;
    min_value = u16_at p 4;
    max_value = u16_at p 6;
    limit_originator = get_or p 8 0;
    limit_time = get_or p 9 0;
  })

pub record SetLimitationRequest : Type 0 where
  pub session_id : ℕ
  pub originator : ℕ
  pub priority : ℕ
  pub node_ids : List ℕ
  pub parameter_id : ℕ
  pub limitation_value_min : Parameter
  pub limitation_value_max : Parameter
  pub limitation_time : ℕ

unfoldable pub marshal_set_limitation_request : SetLimitationRequest → Result Error (List ℕ)
marshal_set_limitation_request f = do
  require (not (ltb 20 (length f.node_ids))) (too_many_nodes (length f.node_ids))
  ok (
      u16_bytes f.session_id (
        f.originator
        ∷ f.priority
        ∷ byte (length f.node_ids)
        ∷ (padded 20 f.node_ids
            ++ f.parameter_id
              ∷ parameter_bytes f.limitation_value_min
                  (parameter_bytes f.limitation_value_max (f.limitation_time ∷ [])))))

unfoldable pub unmarshal_set_limitation_request :
    SetLimitationRequest → List ℕ → Result Error SetLimitationRequest
unmarshal_set_limitation_request f p = do
  require (length p == 31) (payload_len (length p) 31)
  require (not (ltb 20 (get_or p 4 0))) (wrong_node_length (get_or p 4 0))
  ok (record f {
    session_id = u16_at p 0;
    originator = get_or p 2 0;
    priority = get_or p 3 0;
    node_ids = nodes_at p 5 (get_or p 4 0);
    parameter_id = get_or p 25 0;
    limitation_value_min = raw_at p 26;
    limitation_value_max = raw_at p 28;
    limitation_time = get_or p 30 0;
  })

pub record SetLimitationConfirmation : Type 0 where
  pub session_id : ℕ
  pub status : ℕ

unfoldable pub marshal_set_limitation_confirmation : SetLimitationConfirmation → List ℕ
marshal_set_limitation_confirmation f = u16_bytes f.session_id (f.status ∷ [])

unfoldable pub unmarshal_set_limitation_confirmation :
    SetLimitationConfirmation → List ℕ → Result Error SetLimitationConfirmation
unmarshal_set_limitation_confirmation f p = do
  require (length p == 3) (payload_len (length p) 3)
  ok (record f { session_id = u16_at p 0; status = get_or p 2 0 })
