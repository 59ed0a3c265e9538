-- ===== src/Protocol/Creation.antt =====
-- app/klf200/protocol/creation.go: the frame registry, over the frame types of `Message`.
mod Registry
mod Runs
use velux_to_mqtt_gw.Prelude.{
  ℕ, List, [], ◌∷◌, Option, none, some, ◌==◌, if◌then◌else◌, Result, ok, err, ◌>>=◌, replicate,
}
use velux_to_mqtt_gw.Protocol.Wire.{Error, extract_from_frame}
use velux_to_mqtt_gw.Protocol.Constructors.{constructors}
use velux_to_mqtt_gw.Protocol.Message
use velux_to_mqtt_gw.Protocol.Message.{Frame, command}
use velux_to_mqtt_gw.Protocol.Payload.{unmarshal_payload}

abbrev pub Registry : Type 0
Registry = List (ℕ × Frame)

unfoldable pub create_frame : Registry → ℕ → Option Frame
create_frame [] cmd = none
create_frame ((c, f) ∷ registry) cmd = if c == cmd then some f else create_frame registry cmd

-- `RegisterFrame`; `none` is the panic on a code that is taken.
unfoldable pub register_frame : Registry → Frame → Option Registry
unfolding create_frame command
register_frame registry f = elim (create_frame registry (command f)) [
  | some taken ↦ none
  | none ↦ some ((command f, f) ∷ registry)
]

unfoldable pub register_all : Registry → List Frame → Option Registry
unfolding register_frame
register_all registry [] = some registry
register_all registry (f ∷ fs) = elim (register_frame registry f) [
  | none ↦ none
  | some more ↦ register_all more fs
]

abbrev registered : Option Registry → Registry
registered none = []
registered (some registry) = registry

-- The table that stands when the `init` functions have run.
unfoldable pub frame_registry : Registry
unfolding register_all constructors
frame_registry = registered (register_all [] constructors)

abbrev pub found : Result Error Frame → Result Error (Option Frame)
found (ok f) = ok (some f)
found (err e) = err e

-- An unknown command is no error, and no frame: `ok none`.
abbrev pub decode_as : Option Frame → List ℕ → Result Error (Option Frame)
decode_as none payload = ok none
decode_as (some f) payload = found (unmarshal_payload f payload)

unfoldable pub frame_from_raw : List ℕ → Result Error (Option Frame)
frame_from_raw raw = do
  (cmd, payload) ← extract_from_frame raw
  decode_as (create_frame frame_registry cmd) payload
