-- ===== src/Protocol/Slip/Escape.antt =====
-- The escaping of slip.go against byte-wise definitions of RFC 1055.
use velux_to_mqtt_gw.Prelude.{
  ℕ, List, [], ◌∷◌, ◌++◌, ◌≡◌, refl, ◌≢◌, ap, ◌∙◌, arith, ◌==◌, if◌then◌else◌, All, Bool-cases, inl,
  inr, ◌&&◌,
}
use velux_to_mqtt_gw.Protocol.Slip.{
  slip_end, slip_esc, slip_esc_end, slip_esc_esc, replace_from, slip_decode, slip_encode,
}

-- One byte escaped, as RFC 1055 words it.
abbrev pub escape_byte : ℕ → List ℕ
escape_byte b =
    if b == slip_end
    then slip_esc ∷ slip_esc_end ∷ []
    else if b == slip_esc
    then slip_esc ∷ slip_esc_esc ∷ []
    else b ∷ []

unfoldable pub escape : List ℕ → List ℕ
escape [] = []
escape (b ∷ s) = escape_byte b ++ escape s

-- One pass from the left. An escape byte that no code follows stands for itself.
unfoldable pub unescape : List ℕ → List ℕ
unescape [] = []
unescape (x ∷ []) = x ∷ []
unescape (x ∷ y ∷ s) =
    let whole = unescape s in
    let rest = x ∷ unescape (y ∷ s) in
    if (x == slip_esc) && (y == slip_esc_end)
    then slip_end ∷ whole
    else if (x == slip_esc) && (y == slip_esc_esc)
    then slip_esc ∷ whole
    else rest

-- The two replacement passes of the encoder escape each byte on its own.
pub slip_encode-escape : (raw : List ℕ) → slip_encode raw ≡ escape raw
unfolding slip_encode escape
slip_encode-escape [] = refl
slip_encode-escape (b ∷ s) = ground (arith, slip_encode-escape s)

first_pass : List ℕ → List ℕ
unfolding replace_from
first_pass s = replace_from 0 s (slip_esc ∷ slip_esc_end ∷ []) (slip_end ∷ [])

-- The first pass writes no code byte behind an escape byte.
first_pass-head :
    (y : ℕ) (s : List ℕ)
    → y ≢ slip_esc_esc
    → (z : ℕ) × (t : List ℕ) × (first_pass (y ∷ s) ≡ z ∷ t) × (z ≢ slip_esc_esc)
unfolding first_pass
first_pass-head y [] h = (y, [], ground arith, h)
first_pass-head y (z ∷ s) h = elim (Bool-cases ((y == slip_esc) && (z == slip_esc_end))) [
  | inl found ↦ (slip_end, first_pass s, ground arith, omega arith)
  | inr plain ↦ (y, first_pass (z ∷ s), ground arith, h)
]

slip_decode-lone :
    (y : ℕ) (s : List ℕ)
    → y ≢ slip_esc_end
    → y ≢ slip_esc_esc
    → slip_decode (slip_esc ∷ y ∷ s) ≡ slip_esc ∷ slip_decode (y ∷ s)
unfolding slip_decode first_pass
slip_decode-lone y s h k = let (z, t, e, plain) = first_pass-head y s k in ground arith

slip_decode-other :
    (x y : ℕ) (s : List ℕ) → x ≢ slip_esc → slip_decode (x ∷ y ∷ s) ≡ x ∷ slip_decode (y ∷ s)
unfolding slip_decode
slip_decode-other x y s h = ground arith

slip_decode-pair :
    (s : List ℕ)
    → (slip_decode (slip_esc ∷ slip_esc_end ∷ s) ≡ slip_end ∷ slip_decode s)
      × (slip_decode (slip_esc ∷ slip_esc_esc ∷ s) ≡ slip_esc ∷ slip_decode s)
unfolding slip_decode
slip_decode-pair s = (refl, refl)

-- The two replacement passes of the decoder are one pass from the left, on every input.
pub slip_decode-unescape : (raw : List ℕ) → slip_decode raw ≡ unescape raw
unfolding unescape
slip_decode-unescape [] = unfold slip_decode in refl
slip_decode-unescape (x ∷ []) = unfold slip_decode in ground arith
slip_decode-unescape (x ∷ y ∷ s) = ground (
  arith,
  slip_decode-lone y s,
  slip_decode-other x y s,
  slip_decode-pair s,
  slip_decode-unescape s,
  slip_decode-unescape (y ∷ s),
)

pub unescape-other : (x : ℕ) (s : List ℕ) → x ≢ slip_esc → unescape (x ∷ s) ≡ x ∷ unescape s
unfolding unescape
unescape-other x [] h = refl
unescape-other x (y ∷ s) h = ground arith

unescape-pair :
    (s : List ℕ)
    → (unescape (slip_esc ∷ slip_esc_end ∷ s) ≡ slip_end ∷ unescape s)
      × (unescape (slip_esc ∷ slip_esc_esc ∷ s) ≡ slip_esc ∷ unescape s)
unfolding unescape
unescape-pair s = (refl, refl)

unescape-escape : (raw : List ℕ) → unescape (escape raw) ≡ raw
unfolding escape
unescape-escape [] = unfold unescape in refl
unescape-escape (b ∷ s) =
    ground (arith, unescape-escape s, unescape-other b (escape s), unescape-pair (escape s))

-- Decoding takes back what encoding did, for every message.
pub slip_decode-slip_encode : (raw : List ℕ) → slip_decode (slip_encode raw) ≡ raw
slip_decode-slip_encode raw =
    slip_decode-unescape (slip_encode raw)
    ∙ ap unescape (slip_encode-escape raw)
    ∙ unescape-escape raw

escape-free : (raw : List ℕ) → All (λ b. b ≢ slip_end) (escape raw)
unfolding escape
escape-free [] = tt
escape-free (b ∷ s) = ground (arith, escape-free s)

-- An encoded message holds no END byte.
pub slip_encode-free : (raw : List ℕ) → All (λ b. b ≢ slip_end) (slip_encode raw)
slip_encode-free raw = rw (slip_encode-escape raw) (escape-free raw)
