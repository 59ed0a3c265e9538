-- ===== src/Klf200/Queries.antt =====
-- The calls that read from a node: `StatusRequest` of app/klf200/command.go, `GetLimitation` of
-- limitation.go and `LoadNode` of node_loading.go.
pub mod Outcomes
use velux_to_mqtt_gw.Prelude.{
  ℕ, ◌+◌, ◌/◌, List, [], ◌∷◌, Option, none, some, Result, ok, err, ◌>>=◌, ◌==◌, if◌then◌else◌,
  hi_byte,
}
use velux_to_mqtt_gw.Protocol.Parameter.{Parameter}
use velux_to_mqtt_gw.Protocol.Frames.Status.{
  StatusRequestRequest, StatusRequestNotification, status_type_request_current_position,
}
use velux_to_mqtt_gw.Protocol.Frames.Limitation.{GetLimitationRequest}
use velux_to_mqtt_gw.Protocol.Frames.Nodes.{NodeInfo}
use velux_to_mqtt_gw.Protocol.Message
use velux_to_mqtt_gw.Protocol.Message.{Frame}
use velux_to_mqtt_gw.Klf200.Command.{CallError, unable, api_call, captures}
use velux_to_mqtt_gw.Klf200.Node.{Node, node_from_info}
use velux_to_mqtt_gw.Klf200.Nodes.{add}

-- A nil result is an error of its own here.
abbrev pub obtained : {A : Type 0} → Option A → Result CallError A
obtained none = err unable
obtained (some a) = ok a

pub record StatusResult : Type 0 where
  pub node_id : ℕ
  pub target_position : Parameter
  pub current_position : Parameter
  pub notification : StatusRequestNotification

-- `StatusRequest`: the functional parameters 1 to 7 are asked for.
unfoldable pub status_request_of : ℕ → ℕ → StatusRequestRequest
status_request_of sid node_id = record {
  session_id = sid;
  node_ids = node_id ∷ [];
  status_type = status_type_request_current_position;
  fpi1 = 254;
  fpi2 = 0;
}

unfoldable pub status_answer : ℕ → Frame → Option StatusResult
status_answer sid (Message.status_request_notification f) =
    if f.session_id == sid
    then some (record {
      node_id = f.node_id;
      target_position = f.target_position;
      current_position = f.current_position;
      notification = f;
    })
    else none
status_answer sid f = none

unfoldable pub status_request : ℕ → ℕ → List Frame → Result CallError StatusResult
unfolding api_call captures status_request_of status_answer
status_request sid node_id frames = do
  result ←
      api_call (Message.status_request_request (status_request_of sid node_id))
        (captures (status_answer sid)) none frames
  obtained result

pub record LimitationResult : Type 0 where
  pub min_value_raw : ℕ  -- uint16
  pub max_value_raw : ℕ  -- uint16
  pub originator : ℕ
  pub limit_time : ℕ

-- `int(float64(high)/2 + 0.5)`, which is exact on a byte.
unfoldable pub raw_to_percent : ℕ → ℕ
raw_to_percent raw = (hi_byte raw + 1) / 2

unfoldable pub get_limitation_of : ℕ → ℕ → ℕ → GetLimitationRequest
get_limitation_of sid node_id limitation_type = record {
  session_id = sid;
  node_ids = node_id ∷ [];
  parameter_id = 0;
  limitations_type = limitation_type;
}

unfoldable pub limitation_answer : ℕ → Frame → Option LimitationResult
limitation_answer sid (Message.limitation_status f) =
    if f.session_id == sid
    then some (record {
      min_value_raw = f.min_value;
      max_value_raw = f.max_value;
      originator = f.limit_originator;
      limit_time = f.limit_time;
    })
    else none
limitation_answer sid f = none

unfoldable pub get_limitation : ℕ → ℕ → ℕ → List Frame → Result CallError LimitationResult
unfolding api_call captures get_limitation_of limitation_answer
get_limitation sid node_id limitation_type frames = do
  result ←
      api_call (Message.get_limitation_request (get_limitation_of sid node_id limitation_type))
        (captures (limitation_answer sid)) none frames
  obtained result

unfoldable pub node_answer : ℕ → Frame → Option NodeInfo
node_answer node_id (Message.node_information_notification f) =
    if f.node_id == node_id then some f else none
node_answer node_id f = none

-- What the node collection is behind the call.
unfoldable pub load_node : ℕ → List Node → List Frame → Result CallError (List Node)
unfolding api_call captures node_answer add node_from_info
load_node node_id nodes frames = do
  ntf ←
      api_call (Message.node_information_request (record { node_id = node_id }))
        (captures (node_answer node_id)) none frames
  info ← obtained ntf
  ok (add (node_from_info info) nodes)
