-- ===== src/Klf200/Heartbeat.antt =====
-- app/klf200/heartbeat.go: the pulse, and the life of the goroutine that sends it. What arrives while an
-- exchange waits is a function of its request.
pub mod Laws
use velux_to_mqtt_gw.Prelude.{
  ℕ, List, [], ◌∷◌, Bool, true, false, Option, none, some, Result, ok, err, ◌>>=◌, ◌==◌,
  if◌then◌else◌, byte,
}
use velux_to_mqtt_gw.Protocol.Frames.Status.{
  StatusRequestRequest, status_type_request_current_position,
}
use velux_to_mqtt_gw.Protocol.Message
use velux_to_mqtt_gw.Protocol.Message.{Frame}
use velux_to_mqtt_gw.Klf200.Command.{CallError, Handler, api_call}
use velux_to_mqtt_gw.Klf200.Node.{Node, is_blind}
use velux_to_mqtt_gw.Klf200.Session.{new_session_id}
use velux_to_mqtt_gw.Klf200.System.{get_state}

abbrev pub Arrivals : Type 0
Arrivals = Frame → List Frame

-- `statusRequest`: the request, the handler, and the call.
unfoldable pub refresh_request : ℕ → ℕ → StatusRequestRequest
refresh_request sid node_id = record {
  session_id = sid;
  node_ids = byte node_id ∷ [];
  status_type = status_type_request_current_position;
  fpi1 = 0xFE;
  fpi2 = 0x00;
}

unfoldable pub refresh_handler : ℕ → Handler (Unit {0})
refresh_handler sid s (Message.status_request_notification f) =
    if f.session_id == sid then (s, true) else (s, false)
refresh_handler sid s f = (s, false)

unfoldable pub refresh : Arrivals → ℕ → ℕ → Result CallError (Unit {0})
unfolding api_call refresh_request refresh_handler
refresh arrivals sid node_id = do
  let request = Message.status_request_request (refresh_request sid node_id)
  s ← api_call request (refresh_handler sid) tt (arrivals request)
  ok tt

-- What a pulse did: its result, the last session id, and the calls of `statusRequest` with theirs.
pub record Pulse : Type 0 where
  pub outcome : Result CallError (Unit {0})
  pub last_session : ℕ
  pub refreshed : List (StatusRequestRequest × Result CallError (Unit {0}))

-- The loop over the nodes, which goes on whatever a call returns.
unfoldable pub refresh_blinds : Arrivals → ℕ → List Node → Pulse
unfolding refresh refresh_request is_blind new_session_id
refresh_blinds arrivals last [] = record { outcome = ok tt; last_session = last; refreshed = [] }
refresh_blinds arrivals last (node ∷ nodes) =
    let sid = new_session_id last in
    let later = refresh_blinds arrivals sid nodes in
    let skipped = refresh_blinds arrivals last nodes in
    if is_blind node.kind
    then record later {
      refreshed =
          (refresh_request sid node.node_id, refresh arrivals sid node.node_id) ∷ later.refreshed;
    }
    else skipped

unfoldable pub pulse : Arrivals → ℕ → List Node → Pulse
unfolding get_state refresh_blinds
pulse arrivals last nodes = elim (get_state (arrivals Message.get_state_request)) [
  | err e ↦ record { outcome = err e; last_session = last; refreshed = [] }
  | ok s ↦ refresh_blinds arrivals last nodes
]

-- The goroutine runs or not, and the channel of failures holds one or none.
pub record Heartbeat : Type 0 where
  pub running : Bool
  pub failure_ch : Option CallError

-- What can happen: `Start` and `Stop` are called, the timer fires and the pulse ends with a result, the
-- owner reads the channel.
pub data Event : Type 0 where
  start stop read : Event
  pulsed : Result CallError (Unit {0}) → Event

-- `Stop` returns when the goroutine has ended. A failure that finds the channel full is dropped.
unfoldable pub beat : Heartbeat → Event → Heartbeat
beat h start = if h.running then h else record h { running = true }
beat h stop = if h.running then record h { running = false } else h
beat h read = record h { failure_ch = none }
beat h (pulsed (ok u)) = h
beat h (pulsed (err e)) =
    if h.running
    then elim h.failure_ch [ none ↦ record h { failure_ch = some e } | some f ↦ h ]
    else h

unfoldable pub beats : Heartbeat → List Event → Heartbeat
unfolding beat
beats h [] = h
beats h (e ∷ events) = beats (beat h e) events
