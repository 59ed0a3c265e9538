-- ===== src/Protocol/Message/RoundTrip/NodeLists.antt =====
-- The round trips of the frames that hold node ids, up to twenty of them in twenty bytes.
use velux_to_mqtt_gw.Prelude.{
  ℕ, zero, suc, ◌≤◌, List, [], ◌∷◌, ◌++◌, ◌≡◌, refl, ap, arith, length, take, replicate,
  length-append, IsU16, ok, ◌>>=◌,
}
use velux_to_mqtt_gw.Protocol.Frames.Bytes.{padded, length-padded}
use velux_to_mqtt_gw.Protocol.Frames.Limitation.{
  GetLimitationRequest, marshal_get_limitation_request, unmarshal_get_limitation_request,
  SetLimitationRequest, marshal_set_limitation_request, unmarshal_set_limitation_request,
}
use velux_to_mqtt_gw.Protocol.Frames.Scenes.{
  WinkSendRequest, marshal_wink_send_request, unmarshal_wink_send_request,
}
use velux_to_mqtt_gw.Protocol.Message.RoundTrip.Text.{get_or-prefix}
use mathlib.Core.List.{append-nil}

-- The ids are found in front of their padding, whatever stands behind it.
take-padded :
    (n k : ℕ) (ids rest : List ℕ)
    → length ids ≤ n
    → n ≤ k
    → take (length ids) (take n (ids ++ replicate k 0) ++ rest) ≡ ids
take-padded n k [] rest h l = refl
take-padded zero k (x ∷ ids) rest h l = absurd (omega arith)
take-padded (suc n) zero (x ∷ ids) rest h l = absurd (omega arith)
take-padded (suc n) (suc k) (x ∷ ids) rest h l =
    ap (λ s. x ∷ s) (take-padded n (suc k) ids rest (omega arith) (omega arith))

pub take-padded_ids :
    (n : ℕ) (ids rest : List ℕ) → length ids ≤ n → take (length ids) (padded n ids ++ rest) ≡ ids
unfolding padded
take-padded_ids n ids rest h = take-padded n n ids rest h (omega arith)

pub get_limitation_request-round_trip :
    (e f : GetLimitationRequest)
    → IsU16 f.session_id
    → length f.node_ids ≤ 20
    → (marshal_get_limitation_request f >>= unmarshal_get_limitation_request e) ≡ ok f
unfolding marshal_get_limitation_request unmarshal_get_limitation_request
get_limitation_request-round_trip e f h l =
    let ids = padded 20 f.node_ids in
    let rest = f.parameter_id ∷ f.limitations_type ∷ [] in
    ground (
      arith,
      length-append ids rest,
      length-padded 20 f.node_ids,
      take-padded_ids 20 f.node_ids rest l,
      get_or-prefix 20 0 ids rest (length-padded 20 f.node_ids),
      get_or-prefix 20 1 ids rest (length-padded 20 f.node_ids),
    )

pub set_limitation_request-round_trip :
    (e f : SetLimitationRequest)
    → IsU16 f.session_id
    → length f.node_ids ≤ 20
    → (marshal_set_limitation_request f >>= unmarshal_set_limitation_request e) ≡ ok f
unfolding marshal_set_limitation_request unmarshal_set_limitation_request
set_limitation_request-round_trip e f h l =
    let ids = padded 20 f.node_ids in
    let low = f.limitation_value_min in
    let high = f.limitation_value_max in
    let rest = f.parameter_id ∷ low.hi ∷ low.lo ∷ high.hi ∷ high.lo ∷ f.limitation_time ∷ [] in
    let size = length-padded 20 f.node_ids in
    ground (
      arith,
      length-append ids rest,
      size,
      take-padded_ids 20 f.node_ids rest l,
      get_or-prefix 20 0 ids rest size,
      get_or-prefix 20 1 ids rest size,
      get_or-prefix 20 2 ids rest size,
      get_or-prefix 20 3 ids rest size,
      get_or-prefix 20 4 ids rest size,
      get_or-prefix 20 5 ids rest size,
    )

pub wink_send_request-round_trip :
    (e f : WinkSendRequest)
    → IsU16 f.session_id
    → length f.node_ids ≤ 20
    → (marshal_wink_send_request f >>= unmarshal_wink_send_request e) ≡ ok f
unfolding marshal_wink_send_request unmarshal_wink_send_request
wink_send_request-round_trip e f h l = ground (
  arith,
  length-padded 20 f.node_ids,
  append-nil (padded 20 f.node_ids),
  take-padded_ids 20 f.node_ids [] l,
)
