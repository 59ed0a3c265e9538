-- ===== src/Klf200/Connection.antt =====
-- `readLoop` of app/klf200/connection.go, over the chunks that the connection's reads return until one
-- fails. What `dispatch` is called with is returned, in order; its callbacks are left out.
pub mod Chunks
pub mod Ends
pub mod Life
pub mod Callbacks
pub mod Handles
mod Runs
use velux_to_mqtt_gw.Prelude.{
  ℕ, zero, suc, List, [], ◌∷◌, ◌++◌, not, Option, none, some, Result, ok, err, if◌then◌else◌,
  length,
}
use velux_to_mqtt_gw.Protocol.Slip.{is_slip, get_next_slip}
use velux_to_mqtt_gw.Protocol.Wire.{Error}
use velux_to_mqtt_gw.Protocol.Message.{Frame}
use velux_to_mqtt_gw.Protocol.Creation.{frame_from_raw}

-- A malformed packet and one of an unknown command are passed over.
abbrev pub dispatched : Result Error (Option Frame) → List Frame → List Frame
dispatched (err e) later = later
dispatched (ok none) later = later
dispatched (ok (some f)) later = f ∷ later

-- The loop over the complete packets of the stream, on fuel that its length gives. A packet that comes
-- back as nil ends it, behind that packet.
unfoldable pub drain : ℕ → List ℕ → List Frame × List ℕ
drain zero stream = ([], stream)
drain (suc fuel) stream =
    let (packet, rest) = get_next_slip stream in
    let later = drain fuel rest in
    if not (is_slip stream) then ([], stream) else elim packet [
      | none ↦ ([], rest)
      | some raw ↦ (dispatched (frame_from_raw raw) later.0, later.1)
    ]

-- One read: `n > 0`, or nothing.
unfoldable pub read_chunk : List ℕ → List ℕ → List Frame × List ℕ
read_chunk stream [] = ([], stream)
read_chunk stream (b ∷ chunk) = drain (length (stream ++ b ∷ chunk)) (stream ++ b ∷ chunk)

unfoldable pub read_loop : List ℕ → List (List ℕ) → List Frame × List ℕ
unfolding read_chunk
read_loop stream [] = ([], stream)
read_loop stream (chunk ∷ chunks) =
    let (frames, left) = read_chunk stream chunk in
    let (later, end) = read_loop left chunks in (frames ++ later, end)
