-- ===== src/Klf200/Queries/Outcomes.antt =====
-- What the calls that read from a node return, as a property of the frames that arrive.
use velux_to_mqtt_gw.Prelude.{
  ℕ, List, [], ◌∷◌, Option, none, some, Result, ok, err, ◌>>=◌, ◌≡◌, refl, ◌∙◌, ap, arith, ◌==◌,
  if◌then◌else◌,
}
use velux_to_mqtt_gw.Protocol.Message
use velux_to_mqtt_gw.Protocol.Message.{Frame}
use velux_to_mqtt_gw.Protocol.Payload.{marshal_payload, marshal_frame}
use velux_to_mqtt_gw.Protocol.Frames.Bytes.{padded}
use velux_to_mqtt_gw.Protocol.Frames.Nodes.{NodeInfo}
use velux_to_mqtt_gw.Protocol.Frames.Status.{
  StatusRequestNotification, marshal_status_request_request,
}
use velux_to_mqtt_gw.Protocol.Frames.Limitation.{LimitationStatus, marshal_get_limitation_request}
use velux_to_mqtt_gw.Klf200.Command.{CallError, no_answer}
use velux_to_mqtt_gw.Klf200.Command.Answers.{first_answer, judged, answered}
use velux_to_mqtt_gw.Klf200.Node.{Node, node_from_info, node_from_info-fields}
use velux_to_mqtt_gw.Klf200.Nodes.{add, by_id}
use velux_to_mqtt_gw.Klf200.Nodes.Laws.{by_id-add}
use velux_to_mqtt_gw.Klf200.Queries.{
  StatusResult, LimitationResult, obtained, status_request, status_request_of, status_answer,
  get_limitation, get_limitation_of, limitation_answer, load_node, node_answer,
}

-- The first notification of a status, and of a limitation, in a session, and of the information of a node.
abbrev pub status_in : ℕ → List Frame → Option StatusRequestNotification
status_in sid [] = none
status_in sid (Message.status_request_notification f ∷ frames) =
    let later = status_in sid frames in if f.session_id == sid then some f else later
status_in sid (f ∷ frames) = status_in sid frames

abbrev pub limitation_in : ℕ → List Frame → Option LimitationStatus
limitation_in sid [] = none
limitation_in sid (Message.limitation_status f ∷ frames) =
    let later = limitation_in sid frames in if f.session_id == sid then some f else later
limitation_in sid (f ∷ frames) = limitation_in sid frames

abbrev pub information_of : ℕ → List Frame → Option NodeInfo
information_of node_id [] = none
information_of node_id (Message.node_information_notification f ∷ frames) =
    let later = information_of node_id frames in if f.node_id == node_id then some f else later
information_of node_id (f ∷ frames) = information_of node_id frames

-- What is read from it.
abbrev pub status_read : Option StatusRequestNotification → Option StatusResult
status_read none = none
status_read (some f) = some (record {
  node_id = f.node_id;
  target_position = f.target_position;
  current_position = f.current_position;
  notification = f;
})

abbrev pub limitation_read : Option LimitationStatus → Option LimitationResult
limitation_read none = none
limitation_read (some f) = some (record {
  min_value_raw = f.min_value;
  max_value_raw = f.max_value;
  originator = f.limit_originator;
  limit_time = f.limit_time;
})

abbrev same : Option NodeInfo → Option NodeInfo
same o = o

-- The collection behind a load finds the new node under its id, and every other id as before.
abbrev pub IsLoaded : List Node → Option NodeInfo → Result CallError (List Node) → Type 0
IsLoaded nodes none r = r ≡ err no_answer
IsLoaded nodes (some info) r =
    (after : List Node) × (r ≡ ok after)
    × ((id : ℕ)
        → by_id id after
          ≡ (if info.node_id == id then some (node_from_info info) else by_id id nodes))

first-status_answer :
    (sid : ℕ) (frames : List Frame)
    → first_answer (status_answer sid) frames ≡ status_read (status_in sid frames)
unfolding status_answer
first-status_answer sid [] = refl
first-status_answer sid (Message.status_request_notification f ∷ frames) =
    ground (arith, first-status_answer sid frames)
first-status_answer sid (f ∷ frames) = first-status_answer sid frames

first-limitation_answer :
    (sid : ℕ) (frames : List Frame)
    → first_answer (limitation_answer sid) frames ≡ limitation_read (limitation_in sid frames)
unfolding limitation_answer
first-limitation_answer sid [] = refl
first-limitation_answer sid (Message.limitation_status f ∷ frames) =
    ground (arith, first-limitation_answer sid frames)
first-limitation_answer sid (f ∷ frames) = first-limitation_answer sid frames

first-node_answer :
    (node_id : ℕ) (frames : List Frame)
    → first_answer (node_answer node_id) frames ≡ same (information_of node_id frames)
unfolding node_answer
first-node_answer node_id [] = refl
first-node_answer node_id (Message.node_information_notification f ∷ frames) =
    ground (arith, first-node_answer node_id frames)
first-node_answer node_id (f ∷ frames) = first-node_answer node_id frames

judged-IsLoaded :
    (nodes : List Node) (o : Option NodeInfo)
    → IsLoaded nodes o (judged o (λ info. ok (add (node_from_info info) nodes)))
judged-IsLoaded nodes none = refl
judged-IsLoaded nodes (some info) = (
  add (node_from_info info) nodes,
  refl,
  λ id. by_id-add (node_from_info info) nodes id ∙ rw ((node_from_info-fields info).0),
)

-- The status and the limitation of a node are read from the first notification of their type that carries
-- the call's session id. Its information comes from the first that is about the node: the collection finds
-- the node made of it under the id, and every other id as before. Confirmations, and notifications for
-- others, make no difference, and without one that counts the call fails as its exchange does.
pub node_queries-outcome :
    (sid node_id type : ℕ) (nodes : List Node) (frames : List Frame)
    → (status_request sid node_id frames ≡ judged (status_read (status_in sid frames)) ok)
      × (get_limitation sid node_id type frames
          ≡ judged (limitation_read (limitation_in sid frames)) ok)
      × IsLoaded nodes (information_of node_id frames) (load_node node_id nodes frames)
unfolding status_request get_limitation load_node marshal_frame marshal_payload padded
    marshal_status_request_request marshal_get_limitation_request status_request_of
    get_limitation_of
node_queries-outcome sid node_id type nodes frames = (
  answered (Message.status_request_request (status_request_of sid node_id)) (status_answer sid)
        frames obtained (_, refl)
      ∙ ap (λ o. judged o ok) (first-status_answer sid frames),
  answered (Message.get_limitation_request (get_limitation_of sid node_id type))
        (limitation_answer sid) frames obtained (_, refl)
      ∙ ap (λ o. judged o ok) (first-limitation_answer sid frames),
  rw loaded (judged-IsLoaded nodes (information_of node_id frames)),
)
  where
    loaded :
        load_node node_id nodes frames
        ≡ judged (information_of node_id frames) (λ info. ok (add (node_from_info info) nodes))
    loaded =
        answered (Message.node_information_request (record { node_id = node_id }))
          (node_answer node_id) frames
          (λ ntf. obtained ntf >>= λ info. ok (add (node_from_info info) nodes)) (_, refl)
        ∙ ap (λ o. judged o (λ info. ok (add (node_from_info info) nodes)))
            (first-node_answer node_id frames)
