-- ===== src/Protocol/Slip/Stream.antt =====
-- `GetNextSlip` and `SlipPack` of slip.go on a byte stream.
use velux_to_mqtt_gw.Prelude.{
  ℕ, ◌+◌, ◌≤◌, List, [], ◌∷◌, ◌++◌, ◌≡◌, ◌≢◌, refl, ap, arith, none, some, true, false, All, length,
  drop, length-append, take-append, ◌==◌, Option-cases, inl, inr, Bool-cases,
}
use velux_to_mqtt_gw.Protocol.Slip.{
  slip_end, index_byte, is_slip, slip_decode, slip_encode, get_next_slip, slip_pack, nil_if_empty,
}
use velux_to_mqtt_gw.Protocol.Slip.Escape.{slip_encode-free, slip_decode-slip_encode}
use mathlib.Core.List.{append_assoc}
use native.Mathlib.Nat.{suc-add}

abbrev pub IsFree : List ℕ → Type 0
IsFree = All (λ b. b ≢ slip_end)

-- A packet as it stands in a stream: END, a body, END and what follows.
abbrev pub packet : List ℕ → List ℕ → List ℕ
packet body rest = slip_end ∷ (body ++ slip_end ∷ rest)

index_byte-free :
    (xs rest : List ℕ) → IsFree xs → index_byte (xs ++ slip_end ∷ rest) slip_end ≡ some (length xs)
unfolding index_byte
index_byte-free [] rest h = ground arith
index_byte-free (x ∷ xs) rest h = ground (arith, index_byte-free xs rest h.1)

index_byte-split :
    (s : List ℕ) {i : ℕ}
    → index_byte s slip_end ≡ some i
    → (body : List ℕ) × (rest : List ℕ) × (s ≡ body ++ slip_end ∷ rest) × IsFree body
unfolding index_byte
index_byte-split [] h = cc
index_byte-split (x ∷ s) h = elim (Bool-cases (x == slip_end)) [
  | inl here ↦ ([], s, ground arith, tt)
  | inr later ↦ elim (Option-cases (index_byte s slip_end)) [
    | inl missing ↦ ground arith
    | inr (i, found) ↦
        let (body, rest, e, free) = index_byte-split s found in
        (x ∷ body, rest, ap (λ l. x ∷ l) e, (ground arith, free))
  ]
]

pub is_slip-packet : (body rest : List ℕ) → IsFree body → is_slip (packet body rest) ≡ true
unfolding is_slip
is_slip-packet [] rest h = ground arith
is_slip-packet (x ∷ body) rest h = ground (arith, index_byte-free (x ∷ body) rest h)

pub is_slip-shape :
    (s : List ℕ)
    → is_slip s ≡ true
    → (body : List ℕ) × (rest : List ℕ) × (s ≡ packet body rest) × IsFree body
unfolding is_slip
is_slip-shape [] h = cc
is_slip-shape (x ∷ []) h = cc
is_slip-shape (x ∷ y ∷ s) h = elim (Option-cases (index_byte (y ∷ s) slip_end)) [
  | inl missing ↦ ground arith
  | inr (i, found) ↦
      let (body, rest, e, free) = index_byte-split (y ∷ s) found in
      (body, rest, cc (e, first), free)
]
  where
    first : x ≡ slip_end
    first = ground arith

drop-packet :
    (x : ℕ) (body rest : List ℕ) → drop (length body + 2) (x ∷ body ++ slip_end ∷ rest) ≡ rest
drop-packet x [] rest = refl
drop-packet x (y ∷ body) rest = rw (suc-add, drop-packet y body rest)

pub get_next_slip-packet :
    (body rest : List ℕ)
    → IsFree body
    → get_next_slip (packet body rest) ≡ (nil_if_empty (slip_decode body), rest)
unfolding get_next_slip
get_next_slip-packet body rest h = rw (
  is_slip-packet body rest h,
  index_byte-free body rest h,
  take-append body (slip_end ∷ rest),
  drop-packet slip_end body rest,
)

slip_pack-packet : (m rest : List ℕ) → slip_pack m ++ rest ≡ packet (slip_encode m) rest
unfolding slip_pack
slip_pack-packet m rest = append_assoc (slip_end ∷ slip_encode m) (slip_end ∷ []) rest

-- `SlipPack` starts a packet whatever follows.
pub is_slip-slip_pack : (m rest : List ℕ) → is_slip (slip_pack m ++ rest) ≡ true
is_slip-slip_pack m rest =
    rw (slip_pack-packet m rest) (is_slip-packet (slip_encode m) rest (slip_encode-free m))

-- The packet that `SlipPack` wrote comes back, whatever follows it in the stream, and exactly what
-- follows is left. An empty message comes back as nil.
pub get_next_slip-slip_pack :
    (m rest : List ℕ) → get_next_slip (slip_pack m ++ rest) ≡ (nil_if_empty m, rest)
get_next_slip-slip_pack m rest = rw (
  slip_pack-packet m rest,
  get_next_slip-packet (slip_encode m) rest (slip_encode-free m),
  slip_decode-slip_encode m,
)

-- A complete packet does not depend on what is buffered behind it.
pub get_next_slip-append :
    (s t : List ℕ)
    → is_slip s ≡ true
    → (is_slip (s ++ t) ≡ true)
      × (get_next_slip (s ++ t) ≡ ((get_next_slip s).0, (get_next_slip s).1 ++ t))
get_next_slip-append s t h =
    let (body, rest, e, free) = is_slip-shape s h in
    rw (e, get_next_slip-packet body rest free, append_assoc body (slip_end ∷ rest) t)
      (is_slip-packet body (rest ++ t) free, get_next_slip-packet body (rest ++ t) free)

-- A packet takes at least its two END bytes from the stream.
pub length-get_next_slip :
    (s : List ℕ) → is_slip s ≡ true → length (get_next_slip s).1 + 2 ≤ length s
length-get_next_slip s h =
    let (body, rest, e, free) = is_slip-shape s h in
    rw (e, get_next_slip-packet body rest free)
      (omega (arith, length-append body (slip_end ∷ rest)))

-- Without a complete packet nothing is taken from the stream.
pub get_next_slip_incomplete : (s : List ℕ) → is_slip s ≡ false → get_next_slip s ≡ (none, s)
unfolding get_next_slip
get_next_slip_incomplete s h = rw h
