-- ===== src/Protocol/Delivery.antt =====
-- The whole way of a frame through app/klf200/protocol: marshalled, framed, SLIP-packed, found in the
-- stream, and decoded by the frame type that its command code names.
use velux_to_mqtt_gw.Prelude.{
  ℕ, ◌≤◌, List, ◌++◌, ◌≡◌, arith, some, ok, ◌>>=◌, length, IsU16, ◌∙◌, ap,
}
use velux_to_mqtt_gw.Protocol.Slip.{slip_pack, get_next_slip}
use velux_to_mqtt_gw.Protocol.Slip.Stream.{get_next_slip-slip_pack}
use velux_to_mqtt_gw.Protocol.Wire.{build_frame, extract_from_frame}
use velux_to_mqtt_gw.Protocol.Wire.RoundTrip.{extract-build, max_payload}
use velux_to_mqtt_gw.Protocol.Fits.{Fits}
use velux_to_mqtt_gw.Protocol.ReadBack.All.{read_back}
use velux_to_mqtt_gw.Protocol.Message.{Frame, command}
use velux_to_mqtt_gw.Protocol.Payload.{marshal_payload, unmarshal_payload, marshal_frame}
use velux_to_mqtt_gw.Protocol.Creation.{
  create_frame, frame_registry, frame_from_raw, decode_as, found,
}

-- What the reader at the other end of the stream gets, with `rest` behind it.
abbrev pub IsDelivered : Frame → List ℕ → Type 0
IsDelivered f rest =
    (raw : List ℕ) × (marshal_frame f ≡ ok raw)
    × (get_next_slip (slip_pack raw ++ rest) ≡ (some raw, rest))
    × (frame_from_raw raw ≡ ok (some f))

frame_from_raw-known :
    (raw : List ℕ) (code : ℕ) (payload : List ℕ) (e f : Frame)
    → extract_from_frame raw ≡ ok (code, payload)
    → create_frame frame_registry code ≡ some e
    → unmarshal_payload e payload ≡ ok f
    → frame_from_raw raw ≡ ok (some f)
unfolding frame_from_raw
frame_from_raw-known raw code payload e f h1 h2 h3 =
    ap (λ r. r >>= λ x. decode_as (create_frame frame_registry x.0) x.1) h1
    ∙ ap (λ o. decode_as o payload) h2
    ∙ ap found h3

command-IsU16 : (f : Frame) → IsU16 (command f)
unfolding command
command-IsU16 f = ground arith

delivered :
    (f e : Frame) (payload rest : List ℕ)
    → marshal_payload f ≡ ok payload
    → IsU16 (command f)
    → length payload ≤ max_payload
    → create_frame frame_registry (command f) ≡ some e
    → unmarshal_payload e payload ≡ ok f
    → IsDelivered f rest
unfolding marshal_frame build_frame
delivered f e payload rest hm hc hp hr hu = (
  build_frame (command f) payload,
  rw (marshal_frame, hm),
  get_next_slip-slip_pack (build_frame (command f) payload) rest,
  frame_from_raw-known (build_frame (command f) payload) (command f) payload e f
      (extract-build (command f) payload hc hp) hr hu,
)

-- A frame whose fields fit comes back from the stream as it was sent, whatever is buffered behind it, and
-- what is behind it is left. Besides the widths, `Fits` asks that a status request and a command are for
-- one node, that a command has no functional parameters, and that a status is the main information.
pub frame-IsDelivered : (f : Frame) (rest : List ℕ) → Fits f → IsDelivered f rest
frame-IsDelivered f rest h =
    let b = read_back f h in
    delivered f b.empty b.payload rest b.written (command-IsU16 f) b.size b.created b.read
