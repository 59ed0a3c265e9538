-- ===== src/Klf200/Connection/Chunks.antt =====
-- `readLoop` of connection.go does not depend on how the connection cuts the stream.
use velux_to_mqtt_gw.Prelude.{
  ℕ, zero, suc, ◌≤◌, List, [], ◌∷◌, ◌++◌, true, false, ◌≡◌, ◌≢◌, refl, sym, ap, ◌∙◌, arith, All,
  Option, none, some, Result, ok, err, length, inl, inr, Bool-cases,
}
use velux_to_mqtt_gw.Protocol.Slip.{slip_end, is_slip, get_next_slip, slip_pack, nil_if_empty}
use velux_to_mqtt_gw.Protocol.Slip.Stream.{
  is_slip-slip_pack, get_next_slip-slip_pack, get_next_slip-append, length-get_next_slip,
}
use velux_to_mqtt_gw.Protocol.Wire.{Error}
use velux_to_mqtt_gw.Protocol.Message.{Frame}
use velux_to_mqtt_gw.Protocol.Creation.{frame_from_raw}
use velux_to_mqtt_gw.Klf200.Connection.{dispatched, drain, read_chunk, read_loop}
use mathlib.Core.List.{append_assoc, append-nil}

-- What the gateway sends: messages, none of them empty, one packet each.
unfoldable pub packs : List (List ℕ) → List ℕ
packs [] = []
packs (m ∷ ms) = slip_pack m ++ packs ms

-- The frames that the messages stand for, without the ones that no frame type reads.
unfoldable pub frames_of : List (List ℕ) → List Frame
frames_of [] = []
frames_of (m ∷ ms) = dispatched (frame_from_raw m) (frames_of ms)

unfoldable pub joined : List (List ℕ) → List ℕ
joined [] = []
joined (chunk ∷ chunks) = chunk ++ joined chunks

abbrev pub AreSent : List (List ℕ) → Type 0
AreSent = All (λ m. m ≢ [])

-- Where the loop over the packets stops: `left` is what `t` will complete.
record IsDrained (ms : List (List ℕ)) (t : List ℕ) (out : List Frame × List ℕ) : Type 0 where
  left : List (List ℕ)
  sent : AreSent left
  frames : frames_of ms ≡ out.0 ++ frames_of left
  stream : out.1 ++ t ≡ packs left
  waits : is_slip out.1 ≡ false

dispatched-append :
    (r : Result Error (Option Frame)) (xs ys : List Frame)
    → dispatched r (xs ++ ys) ≡ dispatched r xs ++ ys
dispatched-append (err e) xs ys = refl
dispatched-append (ok none) xs ys = refl
dispatched-append (ok (some f)) xs ys = refl

nil_if_empty-sent : (m : List ℕ) → m ≢ [] → nil_if_empty m ≡ some m
nil_if_empty-sent [] h = absurd (h refl)
nil_if_empty-sent (x ∷ m) h = refl

-- A complete packet in front of a stream of packets is the first of them.
packs-head :
    (s t : List ℕ) (m : List ℕ) (ms : List (List ℕ))
    → m ≢ []
    → is_slip s ≡ true
    → s ++ t ≡ slip_pack m ++ packs ms
    → ((get_next_slip s).0 ≡ some m) × ((get_next_slip s).1 ++ t ≡ packs ms)
packs-head s t m ms hm hs e =
    let taken = (get_next_slip-append s t hs).1 in
    let sent = get_next_slip-slip_pack m (packs ms) in
    let same = ap get_next_slip e in
    (cc (taken, sent, same, nil_if_empty-sent m hm), cc (taken, sent, same))

drain_partial : (n : ℕ) (s : List ℕ) → is_slip s ≡ false → drain (suc n) s ≡ ([], s)
unfolding drain
drain_partial n s h = rw h

drain_whole :
    (n : ℕ) (s m : List ℕ)
    → is_slip s ≡ true
    → (get_next_slip s).0 ≡ some m
    → drain (suc n) s ≡ (
      dispatched (frame_from_raw m) (drain n (get_next_slip s).1).0,
      (drain n (get_next_slip s).1).1,
    )
unfolding drain
drain_whole n s m h e = rw (h, e)

-- The fuel that is left is enough for what is behind the packet.
whole-IsDrained :
    (n : ℕ) (s t : List ℕ) (ms : List (List ℕ))
    → ((rest : List ℕ) (later : List (List ℕ))
        → length rest ≤ n
        → AreSent later
        → rest ++ t ≡ packs later
        → IsDrained later t (drain n rest))
    → length s ≤ suc n
    → AreSent ms
    → s ++ t ≡ packs ms
    → is_slip s ≡ true
    → IsDrained ms t (drain (suc n) s)
unfolding packs frames_of is_slip
whole-IsDrained n s t [] drains hn hs e whole = cc ((get_next_slip-append s t whole).0, e)
whole-IsDrained n s t (m ∷ ms) drains hn hs e whole =
    let (found, behind) = packs-head s t m ms hs.0 whole e in
    let d =
      drains (get_next_slip s).1 ms (omega (arith, length-get_next_slip s whole)) hs.1 behind in
    rw (drain_whole n s m whole found) (record {
      left = d.left;
      sent = d.sent;
      frames =
          ap (dispatched (frame_from_raw m)) d.frames
          ∙ dispatched-append (frame_from_raw m) (drain n (get_next_slip s).1).0 (frames_of d.left);
      stream = d.stream;
      waits = d.waits;
    })

-- With fuel for its length, the loop over the packets takes all the complete ones.
drain-IsDrained :
    (n : ℕ) (s t : List ℕ) (ms : List (List ℕ))
    → length s ≤ n
    → AreSent ms
    → s ++ t ≡ packs ms
    → IsDrained ms t (drain n s)
unfolding drain is_slip
drain-IsDrained zero [] t ms hn hs e = record {
  left = ms;
  sent = hs;
  frames = refl;
  stream = e;
  waits = refl;
}
drain-IsDrained zero (x ∷ s) t ms hn hs e = absurd (omega arith)
drain-IsDrained (suc n) s t ms hn hs e = elim (Bool-cases (is_slip s)) [
  | inl whole ↦
      whole-IsDrained n s t ms (λ rest later. drain-IsDrained n rest t later) hn hs e whole
  | inr partial ↦
      rw (drain_partial n s partial)
        (record { left = ms; sent = hs; frames = refl; stream = e; waits = partial })
]

read_chunk-IsDrained :
    (stream chunk t : List ℕ) (ms : List (List ℕ))
    → AreSent ms
    → is_slip stream ≡ false
    → stream ++ (chunk ++ t) ≡ packs ms
    → IsDrained ms t (read_chunk stream chunk)
unfolding read_chunk
read_chunk-IsDrained stream [] t ms hs hw e = record {
  left = ms;
  sent = hs;
  frames = refl;
  stream = e;
  waits = hw;
}
read_chunk-IsDrained stream (b ∷ chunk) t ms hs hw e =
    drain-IsDrained (length (stream ++ b ∷ chunk)) (stream ++ b ∷ chunk) t ms (omega arith) hs
      (append_assoc stream (b ∷ chunk) t ∙ e)

-- A stream in which no packet is left to begin holds no message.
packs-none : (s : List ℕ) (ms : List (List ℕ)) → s ≡ packs ms → is_slip s ≡ false → ms ≡ []
unfolding packs
packs-none s [] e h = refl
packs-none s (m ∷ ms) e h = cc (is_slip-slip_pack m (packs ms), e, h)

read_loop-from :
    (stream : List ℕ) (chunks ms : List (List ℕ))
    → AreSent ms
    → is_slip stream ≡ false
    → stream ++ joined chunks ≡ packs ms
    → read_loop stream chunks ≡ (frames_of ms, [])
unfolding read_loop joined frames_of packs
read_loop-from stream [] ms hs hw e =
    let none_left = packs-none stream ms (sym (append-nil stream) ∙ e) hw in
    cc (none_left, append-nil stream, e)
read_loop-from stream (chunk ∷ chunks) ms hs hw e =
    let d = read_chunk-IsDrained stream chunk (joined chunks) ms hs hw e in
    let later = read_loop-from (read_chunk stream chunk).1 chunks d.left d.sent d.waits d.stream in
    rw (later, d.frames) refl

-- However the connection cuts a stream of packed messages, none of them empty, into chunks, the read loop
-- dispatches exactly the frames of these messages, in their order, and leaves nothing in its buffer; the
-- messages that no frame type reads are passed over.
pub read_loop-chunks :
    (chunks messages : List (List ℕ))
    → AreSent messages
    → joined chunks ≡ packs messages
    → read_loop [] chunks ≡ (frames_of messages, [])
unfolding is_slip
read_loop-chunks chunks messages hs e = read_loop-from [] chunks messages hs refl e

is_slip-stray : (b : ℕ) (s : List ℕ) → b ≢ slip_end → is_slip (b ∷ s) ≡ false
unfolding is_slip
is_slip-stray b [] h = refl
is_slip-stray b (x ∷ s) h = ground arith

read_chunk_stalls :
    (b : ℕ) (stream chunk : List ℕ)
    → b ≢ slip_end
    → read_chunk (b ∷ stream) chunk ≡ ([], b ∷ (stream ++ chunk))
unfolding read_chunk
read_chunk_stalls b stream [] h = rw (append-nil stream) refl
read_chunk_stalls b stream (x ∷ chunk) h =
    drain_partial (length (stream ++ x ∷ chunk)) (b ∷ (stream ++ x ∷ chunk))
      (is_slip-stray b (stream ++ x ∷ chunk) h)

-- A stray byte in front of the first packet is never passed over: whatever arrives behind it, the loop
-- dispatches nothing more on this connection.
pub read_loop_stalls :
    (b : ℕ) (stream : List ℕ) (chunks : List (List ℕ))
    → b ≢ slip_end
    → (read_loop (b ∷ stream) chunks).0 ≡ []
unfolding read_loop
read_loop_stalls b stream [] h = refl
read_loop_stalls b stream (chunk ∷ chunks) h =
    rw (read_chunk_stalls b stream chunk h) (read_loop_stalls b (stream ++ chunk) chunks h)
