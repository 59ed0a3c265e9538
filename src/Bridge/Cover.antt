-- ===== src/Bridge/Cover.antt =====
-- app/bridge/cover.go: what a cover publishes, and what it makes of a command. A topic is named by the
-- field of `Topics` that holds it.
use velux_to_mqtt_gw.Prelude.{
  ℕ, zero, suc, ◌+◌, ◌-◌, ◌*◌, List, [], ◌∷◌, ◌++◌, Bool, true, false, ◌&&◌, ◌||◌, Option, none,
  some, leb, ltb, ◌==◌, if◌then◌else◌, ok, err,
}
use velux_to_mqtt_gw.Prelude.Int.{ℤ, pos, negsuc}
use velux_to_mqtt_gw.Protocol.Parameter.{
  Parameter, known, position_to_percent, new_position, percent,
}
use velux_to_mqtt_gw.Klf200.Node.{Node}
use velux_to_mqtt_gw.Klf200.Nodes.{same_bytes}
use velux_to_mqtt_gw.Klf200.Device.{
  open_device, close_device, stop_device, set_position, set_position_limitations,
  clear_position_limitations,
}
use velux_to_mqtt_gw.Bridge.State.{CoverState, cover_state}

pub data Topic : Type 0 where
  state position available keep_open_state keep_open_available : Topic

-- The payloads: "open" and its like, `strconv.Itoa`, "on", "off", "online" and "offline".
pub data Payload : Type 0 where
  cover : CoverState → Payload
  number : ℕ → Payload
  keep_open : Bool → Payload
  online offline : Payload

-- All of these are published with the configured retain flag.
abbrev pub Message : Type 0
Message = Topic × Payload

pub record Cover : Type 0 where
  pub node : Node
  pub inverted : Bool
  pub last_state : Option CoverState

-- `updateCover`: the messages, and the state that it remembers.
unfoldable pub update_cover : Cover → List Message × Cover
update_cover c =
    let (percentage, derived) =
      cover_state (pos (position_to_percent c.node.position))
        (pos (position_to_percent c.node.target_position)) c.inverted in
    (
      (position, number percentage) ∷ (state, cover derived) ∷ [],
      record c { last_state = some derived },
    )

unfoldable pub update_limit_switch : Cover → List Message
update_limit_switch c =
    let max = c.node.limitation_max in
    (keep_open_state, keep_open (known max && ltb (position_to_percent max) 100)) ∷ []

abbrev pub availability : Bool → Payload
availability true = online
availability false = offline

unfoldable pub publish_availability : Bool → List Message
publish_availability up = (available, availability up) ∷ (keep_open_available, availability up) ∷ []

unfoldable pub update_node : Cover → List Message × Cover
unfolding update_cover update_limit_switch publish_availability
update_node c =
    let (messages, d) = update_cover c in
    (messages ++ (update_limit_switch d ++ publish_availability true), d)

-- `strings.TrimSpace`, for the ASCII spaces.
abbrev is_space : ℕ → Bool
is_space b = (leb 9 b && leb b 13) || (b == 32)

unfoldable pub trim_left : List ℕ → List ℕ
trim_left [] = []
trim_left (b ∷ s) = let rest = trim_left s in if is_space b then rest else b ∷ s

unfoldable pub all_spaces : List ℕ → Bool
all_spaces [] = true
all_spaces (b ∷ s) = is_space b && all_spaces s

unfoldable pub trim_right : List ℕ → List ℕ
unfolding all_spaces
trim_right [] = []
trim_right (b ∷ s) = let rest = trim_right s in if all_spaces (b ∷ s) then [] else b ∷ rest

-- The digits of `strconv.Atoi`, none of which may be missing. An int has no bound here; where Go's
-- overflows, `Atoi` fails and the command is ignored, as it is here, where the value is out of range.
unfoldable pub parse_digits : ℕ → List ℕ → Option ℕ
parse_digits value [] = some value
parse_digits value (b ∷ s) =
    let rest = parse_digits (value * 10 + (b - 48)) s in if leb 48 b && leb b 57 then rest else none

abbrev parse_ℕ : List ℕ → Option ℕ
parse_ℕ [] = none
parse_ℕ (b ∷ s) = parse_digits 0 (b ∷ s)

abbrev negated : ℕ → ℤ
negated zero = pos 0
negated (suc n) = negsuc n

abbrev signed : Bool → Option ℕ → Option ℤ
signed negative none = none
signed true (some n) = some (negated n)
signed false (some n) = some (pos n)

unfoldable pub atoi : List ℕ → Option ℤ
unfolding parse_digits
atoi [] = none
atoi (b ∷ s) =
    if b == 45
    then signed true (parse_ℕ s)
    else if b == 43
    then signed false (parse_ℕ s)
    else signed false (parse_ℕ (b ∷ s))

-- "OPEN", "CLOSE", "STOP", "ON", "OFF"
abbrev pub open_word : List ℕ
open_word = 79 ∷ 80 ∷ 69 ∷ 78 ∷ []

abbrev pub close_word : List ℕ
close_word = 67 ∷ 76 ∷ 79 ∷ 83 ∷ 69 ∷ []

abbrev pub stop_word : List ℕ
stop_word = 83 ∷ 84 ∷ 79 ∷ 80 ∷ []

abbrev pub on_word : List ℕ
on_word = 79 ∷ 78 ∷ []

abbrev pub off_word : List ℕ
off_word = 79 ∷ 70 ∷ 70 ∷ []

-- The method of the node that a command calls; `nothing` where the payload is logged and ignored.
pub data Operation : Type 0 where
  nothing open_it close_it stop_it : Operation
  move_to : Parameter → Operation
  limit_to : Parameter → Parameter → Operation
  clear_limits : Operation

unfoldable pub percent_operation : Option ℤ → Operation
percent_operation none = nothing
percent_operation (some (negsuc n)) = nothing
percent_operation (some (pos p)) =
    if ltb 100 p
    then nothing
    else elim (new_position (percent (pos p))) [ ok target ↦ move_to target | err e ↦ nothing ]

-- `handleCoverCommand`; only OPEN and CLOSE change places where the cover is inverted.
unfoldable pub cover_operation : Bool → List ℕ → Operation
unfolding trim_left trim_right same_bytes atoi percent_operation
cover_operation inverted payload =
    let cmd = trim_right (trim_left payload) in
    if same_bytes cmd open_word
    then (if inverted then close_it else open_it)
    else if same_bytes cmd close_word
    then (if inverted then open_it else close_it)
    else if same_bytes cmd stop_word
    then stop_it
    else percent_operation (atoi cmd)

-- `handleKeepOpenCommand`
unfoldable pub keep_open_operation : List ℕ → Operation
unfolding trim_left trim_right same_bytes
keep_open_operation payload =
    let cmd = trim_right (trim_left payload) in
    if same_bytes cmd on_word
    then elim (new_position (percent (pos 0))) [
      | ok zero_position ↦ limit_to zero_position zero_position
      | err e ↦ nothing
    ]
    else if same_bytes cmd off_word
    then clear_limits
    else nothing

-- What the operation leaves of the node, given the session id and whether the gateway accepts it.
unfoldable pub perform : ℕ → Bool → Operation → Node → Node
unfolding open_device close_device stop_device set_position set_position_limitations
    clear_position_limitations
perform sid accepted nothing n = n
perform sid accepted open_it n = (open_device sid accepted n).1
perform sid accepted close_it n = (close_device sid accepted n).1
perform sid accepted stop_it n = (stop_device sid accepted n).1
perform sid accepted (move_to p) n = (set_position sid accepted p n).1
perform sid accepted (limit_to min max) n = (set_position_limitations sid accepted min max n).1
perform sid accepted clear_limits n = (clear_position_limitations sid accepted n).1
