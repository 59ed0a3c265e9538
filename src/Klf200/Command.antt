-- ===== src/Klf200/Command.antt =====
-- The exchanges of app/klf200: `DoAPICall` of event.go over the frames that arrive while it waits, and
-- the handlers of command.go, limitation.go and node_loading.go.
pub mod Answers
pub mod Outcomes
use velux_to_mqtt_gw.Prelude.{
  ℕ, ◌+◌, List, [], ◌∷◌, ◌++◌, Bool, true, false, not, ◌&&◌, ◌||◌, Option, none, some, ◌==◌,
  if◌then◌else◌, Result, ok, err, map,
}
use velux_to_mqtt_gw.Protocol.Wire.{Error}
use velux_to_mqtt_gw.Protocol.Parameter.{Parameter}
use velux_to_mqtt_gw.Protocol.Frames.Commands.{
  CommandSendRequest, command_send_accepted, zero_parameter,
}
use velux_to_mqtt_gw.Protocol.Frames.Status.{lookup}
use velux_to_mqtt_gw.Protocol.Frames.Limitation.{
  SetLimitationRequest, LimitationStatus, set_limitation_rejected,
}
use velux_to_mqtt_gw.Protocol.Frames.Nodes.{NodeInfo}
use velux_to_mqtt_gw.Protocol.Message
use velux_to_mqtt_gw.Protocol.Message.{Frame}
use velux_to_mqtt_gw.Protocol.Payload.{marshal_frame}
use velux_to_mqtt_gw.Klf200.Node.{originator_user}

-- A handler changes what its closure captures, and says whether it is done.
abbrev pub Handler : Type 0 → Type 0
Handler S = S → Frame → S × Bool

-- What is captured when the handler is done; `none` where it never is, and the call times out or loses
-- the connection.
unfoldable pub exchange : {S : Type 0} → Handler S → S → List Frame → Option S
exchange handle s [] = none
exchange handle s (f ∷ frames) =
    let (t, finished) = handle s f in
    let rest = exchange handle t frames in if finished then some t else rest

-- How a call fails: the exchange did, the gateway refused, with or without a status, or the request was
-- not sent. `wrong_count` is what a list of scenes is reported with that has not the promised length.
-- `nil_pointer` stands for the panic where the code reads a confirmation that it has not got.
pub data CallError : Type 0 where
  no_answer : CallError
  unable : CallError
  rejected : ℕ → CallError
  not_sent : Error → CallError
  wrong_count : ℕ → ℕ → CallError
  nil_pointer : CallError

-- `APICall`: the request is written first, and nothing is awaited if that fails.
unfoldable pub api_call : {S : Type 0} → Frame → Handler S → S → List Frame → Result CallError S
unfolding exchange marshal_frame
api_call request handle s frames = elim (marshal_frame request) [
  | err e ↦ err (not_sent e)
  | ok raw ↦ elim (exchange handle s frames) [ none ↦ err no_answer | some t ↦ ok t ]
]

-- The handler that keeps the first frame of a type it asks for, in a pointer that is nil before.
unfoldable pub captures : {A : Type 0} → (Frame → Option A) → Handler (Option A)
captures pick kept f = elim (pick f) [ none ↦ (kept, false) | some a ↦ (some a, true) ]

-- A field of the frame behind the pointer.
abbrev pub dereferenced : {A : Type 0} → Option A → Result CallError A
dereferenced none = err nil_pointer
dereferenced (some a) = ok a

abbrev present : List (ℕ × Parameter) → ℕ → ℕ → ℕ
present fps i bit = elim (lookup i fps) [ none ↦ 0 | some p ↦ bit ]

abbrev slot : List (ℕ × Parameter) → ℕ → Parameter
slot fps i = elim (lookup i fps) [ none ↦ zero_parameter | some p ↦ p ]

abbrev slots : List ℕ
slots = 1 ∷ 2 ∷ 3 ∷ 4 ∷ 5 ∷ 6 ∷ 7 ∷ 8 ∷ 9 ∷ 10 ∷ 11 ∷ 12 ∷ 13 ∷ 14 ∷ 15 ∷ 16 ∷ []

-- `PriorityUserLevel2`
abbrev pub priority_user_level2 : ℕ
priority_user_level2 = 3

-- The request of `CommandSend`: the map of functional parameters has keys from 1 to 16.
unfoldable pub command_request : ℕ → ℕ → Parameter → List (ℕ × Parameter) → CommandSendRequest
command_request sid node_id parameter fps = record {
  session_id = sid;
  originator = originator_user;
  priority = priority_user_level2;
  active_parameter = 0;
  fpi1 =
      present fps 1 128
      + present fps 2 64
      + present fps 3 32
      + present fps 4 16
      + present fps 5 8
      + present fps 6 4
      + present fps 7 2
      + present fps 8 1;
  fpi2 =
      present fps 9 128
      + present fps 10 64
      + present fps 11 32
      + present fps 12 16
      + present fps 13 8
      + present fps 14 4
      + present fps 15 2
      + present fps 16 1;
  parameter = parameter;
  functional_parameter = map (slot fps) slots;
  node_ids = node_id ∷ [];
}

-- The handler of `CommandSend`; what it captures is `success`.
unfoldable pub command_handler : ℕ → Bool → Handler Bool
command_handler sid wait success (Message.command_send_confirmation f) =
    if not (f.session_id == sid)
    then (success, false)
    else (success || (f.status == command_send_accepted), not wait)
command_handler sid wait success (Message.session_finished f) = (success, f.session_id == sid)
command_handler sid wait success f = (success, false)

abbrev pub concluded : Option Bool → Result CallError (Unit {0})
concluded none = err no_answer
concluded (some false) = err unable
concluded (some true) = ok tt

unfoldable pub command_send : ℕ → Bool → List Frame → Result CallError (Unit {0})
unfolding exchange
command_send sid wait frames = concluded (exchange (command_handler sid wait) false frames)

-- The request and the handler of `SetLimitation`. The handler takes the first confirmation, of whatever
-- session.
unfoldable pub limitation_request : ℕ → ℕ → Parameter → Parameter → ℕ → SetLimitationRequest
limitation_request sid node_id min max time = record {
  session_id = sid;
  originator = originator_user;
  priority = priority_user_level2;
  node_ids = node_id ∷ [];
  parameter_id = 0;
  limitation_value_min = min;
  limitation_value_max = max;
  limitation_time = time;
}

unfoldable pub limitation_handler : Handler Bool
limitation_handler success (Message.set_limitation_confirmation f) =
    (not (f.status == set_limitation_rejected), true)
limitation_handler success f = (success, false)

unfoldable pub set_limitation : List Frame → Result CallError (Unit {0})
unfolding exchange
set_limitation frames = concluded (exchange limitation_handler false frames)

-- The handler of `LoadAllNodes` collects the notifications. The promised count is only logged.
unfoldable pub load_handler : Handler (List NodeInfo)
load_handler collected (Message.all_nodes_notification f) = (collected ++ f ∷ [], false)
load_handler collected Message.all_nodes_finished = (collected, true)
load_handler collected f = (collected, false)

unfoldable pub load_all_nodes : List Frame → Result CallError (List NodeInfo)
unfolding exchange
load_all_nodes frames = elim (exchange load_handler [] frames) [
  | none ↦ err no_answer
  | some collected ↦ ok collected
]
