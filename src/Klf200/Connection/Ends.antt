-- ===== src/Klf200/Connection/Ends.antt =====
-- The loop over the packets of one read ends by itself, before the fuel does.
use velux_to_mqtt_gw.Prelude.{
  ℕ, zero, suc, ◌≤◌, List, [], ◌∷◌, ◌++◌, true, false, none, some, ◌≡◌, ◌≢◌, refl, ap, arith,
  length, Bool-cases, Option-cases, inl, inr,
}
use velux_to_mqtt_gw.Protocol.Slip.{is_slip, get_next_slip}
use velux_to_mqtt_gw.Protocol.Slip.Stream.{length-get_next_slip}
use velux_to_mqtt_gw.Protocol.Message.{Frame}
use velux_to_mqtt_gw.Protocol.Creation.{frame_from_raw}
use velux_to_mqtt_gw.Klf200.Connection.{drain, dispatched, read_chunk}

-- The runs of the loop that end: on what the stream holds, with the frames that it dispatches and what
-- it leaves.
pub data Drains : List ℕ → List Frame → List ℕ → Type 0 where
  incomplete : {s : List ℕ} → is_slip s ≡ false → Drains s [] s
  nil_packet :
      {s rest : List ℕ} → is_slip s ≡ true → get_next_slip s ≡ (none, rest) → Drains s [] rest
  packet :
      {s rest left : List ℕ} {fs : List Frame} (raw : List ℕ)
      → is_slip s ≡ true
      → get_next_slip s ≡ (some raw, rest)
      → Drains rest fs left
      → Drains s (dispatched (frame_from_raw raw) fs) left

drain-Drains : (n : ℕ) (s : List ℕ) → length s ≤ n → Drains s (drain n s).0 (drain n s).1
unfolding drain is_slip
drain-Drains zero [] h = incomplete refl
drain-Drains zero (b ∷ s) h = absurd (omega arith)
drain-Drains (suc n) s h = elim (Bool-cases (is_slip s)) [
  | inr e ↦ rw (drain, e) (incomplete e)
  | inl e ↦ elim (Option-cases (get_next_slip s).0) [
    | inl p ↦ rw (drain, e, p) (nil_packet e (ap (λ o. (o, (get_next_slip s).1)) p))
    | inr (raw, p) ↦
        rw (drain, e, p)
          (packet raw e (ap (λ o. (o, (get_next_slip s).1)) p)
            (drain-Drains n (get_next_slip s).1 (omega (arith, length-get_next_slip s e))))
  ]
]

-- The loop over the packets that a read completes ends by itself: without a complete packet in front, or
-- behind an empty one. The fuel that the model gives it never runs out.
pub read_chunk-Drains :
    (stream chunk : List ℕ)
    → chunk ≢ []
    → Drains (stream ++ chunk) (read_chunk stream chunk).0 (read_chunk stream chunk).1
unfolding read_chunk
read_chunk-Drains stream [] h = absurd (h refl)
read_chunk-Drains stream (b ∷ chunk) h =
    drain-Drains (length (stream ++ b ∷ chunk)) (stream ++ b ∷ chunk) (omega arith)
