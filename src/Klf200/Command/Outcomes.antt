-- ===== src/Klf200/Command/Outcomes.antt =====
-- What the calls of command.go and node_loading.go return, as a property of the frames that arrive.
use velux_to_mqtt_gw.Prelude.{
  ℕ, List, [], ◌∷◌, ◌++◌, Bool, true, false, Option, none, some, ◌==◌, if◌then◌else◌, ok, err, ◌≡◌,
  refl, arith, ◌∙◌, ap, sym, Option-cases, inl, inr,
}
use velux_to_mqtt_gw.Protocol.Frames.Commands.{command_send_accepted}
use velux_to_mqtt_gw.Protocol.Frames.Nodes.{NodeInfo}
use velux_to_mqtt_gw.Protocol.Message
use velux_to_mqtt_gw.Protocol.Message.{Frame}
use velux_to_mqtt_gw.Klf200.Command.{
  no_answer, exchange, command_handler, command_send, concluded, load_handler, load_all_nodes,
}

-- The frames that matter to a command: what ends it, and with which success.
abbrev pub verdict : ℕ → Frame → Option Bool
verdict sid (Message.command_send_confirmation f) =
    if f.session_id == sid then some (f.status == command_send_accepted) else none
verdict sid (Message.session_finished f) = if f.session_id == sid then some false else none
verdict sid f = none

-- The first of them.
abbrev pub first_verdict : ℕ → List Frame → Option Bool
first_verdict sid [] = none
first_verdict sid (f ∷ frames) = elim (verdict sid f) [
  | none ↦ first_verdict sid frames
  | some b ↦ some b
]

command_handler-verdict :
    (sid : ℕ) (f : Frame)
    → command_handler sid false false f
      ≡ elim (verdict sid f) [ none ↦ (false, false) | some b ↦ (b, true) ]
unfolding command_handler
command_handler-verdict sid (Message.command_send_confirmation f) = ground arith
command_handler-verdict sid (Message.session_finished f) = ground arith
command_handler-verdict sid f = refl

command_exchange :
    (sid : ℕ) (frames : List Frame)
    → exchange (command_handler sid false) false frames ≡ first_verdict sid frames
unfolding exchange
command_exchange sid [] = refl
command_exchange sid (f ∷ frames) = elim (Option-cases (verdict sid f)) [
  | inl e ↦
      rw (exchange, first_verdict, command_handler-verdict sid f, e) (command_exchange sid frames)
  | inr (b, e) ↦ rw (exchange, first_verdict, command_handler-verdict sid f, e)
]

-- A command that does not wait for its completion returns with the first frame that answers its session:
-- successfully if that is a confirmation that accepts it, with an error if it is any other confirmation
-- or the end of the session; and if none arrives, with the error of the exchange. Frames of other
-- sessions and other commands make no difference, in whatever order they arrive.
pub command_send-outcome :
    (sid : ℕ) (frames : List Frame)
    → command_send sid false frames ≡ concluded (first_verdict sid frames)
unfolding command_send
command_send-outcome sid frames = ap concluded (command_exchange sid frames)

-- The nodes that were notified before the end, if it came.
abbrev pub listed : List Frame → Option (List NodeInfo)
listed [] = none
listed (Message.all_nodes_finished ∷ frames) = some []
listed (Message.all_nodes_notification f ∷ frames) = elim (listed frames) [
  | none ↦ none
  | some infos ↦ some (f ∷ infos)
]
listed (f ∷ frames) = listed frames

abbrev prepended : List NodeInfo → Option (List NodeInfo) → Option (List NodeInfo)
prepended collected none = none
prepended collected (some infos) = some (collected ++ infos)

append-assoc_one :
    (xs : List NodeInfo) (x : NodeInfo) (ys : List NodeInfo) → (xs ++ x ∷ []) ++ ys ≡ xs ++ x ∷ ys
append-assoc_one [] x ys = refl
append-assoc_one (z ∷ xs) x ys = ap (λ l. z ∷ l) (append-assoc_one xs x ys)

append_nil : (xs : List NodeInfo) → xs ++ [] ≡ xs
append_nil [] = refl
append_nil (x ∷ xs) = ap (λ l. x ∷ l) (append_nil xs)

prepended-cons :
    (collected : List NodeInfo) (f : NodeInfo) (o : Option (List NodeInfo))
    → prepended (collected ++ f ∷ []) o
      ≡ prepended collected (elim o [ none ↦ none | some infos ↦ some (f ∷ infos) ])
prepended-cons collected f none = refl
prepended-cons collected f (some infos) = ap some (append-assoc_one collected f infos)

load_exchange :
    (collected : List NodeInfo) (frames : List Frame)
    → exchange load_handler collected frames ≡ prepended collected (listed frames)
unfolding exchange load_handler
load_exchange collected [] = refl
load_exchange collected (Message.all_nodes_finished ∷ frames) = ap some (sym (append_nil collected))
load_exchange collected (Message.all_nodes_notification f ∷ frames) =
    load_exchange (collected ++ f ∷ []) frames ∙ prepended-cons collected f (listed frames)
load_exchange collected (f ∷ frames) = load_exchange collected frames

-- Loading returns exactly the notified nodes, in their order, when the gateway says that it has finished,
-- and the error of the exchange where it never does; other frames make no difference.
pub load_all_nodes-outcome :
    (frames : List Frame)
    → load_all_nodes frames ≡ elim (listed frames) [ none ↦ err no_answer | some infos ↦ ok infos ]
unfolding load_all_nodes
load_all_nodes-outcome frames =
    rw (load_all_nodes, load_exchange [] frames) (returned (listed frames))
  where
    returned :
        (o : Option (List NodeInfo))
        → elim (prepended [] o) [ none ↦ err no_answer | some infos ↦ ok infos ]
          ≡ elim o [ none ↦ err no_answer | some infos ↦ ok infos ]
    returned none = refl
    returned (some infos) = refl
