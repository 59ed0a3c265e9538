-- ===== src/Protocol/Wire/RoundTrip.antt =====
-- `BuildFrame` and `ExtractFromFrame` of frame.go as inverses of one another.
use velux_to_mqtt_gw.Prelude.{
  ℕ, suc, ◌+◌, ◌*◌, ◌≤◌, ◌<◌, List, [], ◌∷◌, ◌++◌, ◌≡◌, arith, length, get_or, length-append,
  take-append, IsU16, IsByte, byte, All, ok, err, sym, ap, Result, require, ◌>>◌, ◌==◌, u16, ◌∙◌,
  refl, hi_byte,
}
use velux_to_mqtt_gw.Protocol.Wire.{
  Error, invalid_length, invalid_crc, header, calc_crc, build_frame, extract_from_frame,
}

get_or-append_last : (xs : List ℕ) (v : ℕ) → get_or (xs ++ v ∷ []) (length xs) 0 ≡ v
get_or-append_last [] v = refl
get_or-append_last (x ∷ xs) v = get_or-append_last xs v

-- The tests of `ExtractFromFrame` on a frame cut into its fields.
abbrev checked : ℕ → ℕ → ℕ → ℕ → List ℕ → ℕ → Result Error (ℕ × List ℕ)
checked a b c d payload crc = do
  let n = length payload + 5
  require (n == a * 256 + b + 2) (invalid_length n (a * 256 + b + 2))
  let sum = calc_crc (a ∷ b ∷ c ∷ d ∷ payload)
  require (sum == crc) (invalid_crc crc sum)
  ok (u16 (c * 256 + d), payload)

abbrev fields : ℕ → ℕ → ℕ → ℕ → List ℕ → ℕ → List ℕ
fields a b c d payload crc = (a ∷ b ∷ c ∷ d ∷ payload) ++ crc ∷ []

length-fields :
    (a b c d : ℕ) (payload : List ℕ) (crc : ℕ)
    → length (fields a b c d payload crc) ≡ suc (length (a ∷ b ∷ c ∷ d ∷ payload))
length-fields a b c d payload crc = omega (arith, length-append payload (crc ∷ []))

extract-fields :
    (a b c d : ℕ) (payload : List ℕ) (crc : ℕ)
    → extract_from_frame (fields a b c d payload crc) ≡ checked a b c d payload crc
unfolding extract_from_frame
extract-fields a b c d payload crc = ground (
  arith,
  length-fields a b c d payload crc,
  take-append (a ∷ b ∷ c ∷ d ∷ payload) (crc ∷ []),
  get_or-append_last (a ∷ b ∷ c ∷ d ∷ payload) crc,
)

abbrev pub max_payload : ℕ
max_payload = 252

-- `ExtractFromFrame` gives back the command and the payload that `BuildFrame` was given, as long as
-- the payload has at most 252 bytes.
pub extract-build :
    (command : ℕ) (payload : List ℕ)
    → IsU16 command
    → length payload ≤ max_payload
    → extract_from_frame (build_frame command payload) ≡ ok (command, payload)
unfolding build_frame
extract-build command payload hc hp =
    extract-fields 0 (byte (2 + length payload + 1)) (hi_byte command) (byte command) payload
      (calc_crc (header command payload))
    ∙ ground arith

-- A payload of more than 252 bytes wraps the length byte, and `ExtractFromFrame` refuses the frame
-- that `BuildFrame` makes of it, for its length.
pub extract-build_too_long :
    (command : ℕ) (payload : List ℕ)
    → max_payload < length payload
    → extract_from_frame (build_frame command payload)
      ≡ err (invalid_length (length payload + 5) (byte (length payload + 3) + 2))
unfolding build_frame
extract-build_too_long command payload h =
    extract-fields 0 (byte (2 + length payload + 1)) (hi_byte command) (byte command) payload
      (calc_crc (header command payload))
    ∙ ground arith

split_last : (x : ℕ) (xs : List ℕ) → (init : List ℕ) × (last : ℕ) × (x ∷ xs ≡ init ++ last ∷ [])
split_last x [] = ([], x, refl)
split_last x (y ∷ xs) = let (init, last, e) = split_last y xs in (x ∷ init, last, ap (λ l. x ∷ l) e)

checked-ok :
    (a b c d : ℕ) (payload : List ℕ) (crc : ℕ) {command : ℕ} {p : List ℕ}
    → checked a b c d payload crc ≡ ok (command, p)
    → (payload ≡ p)
      × (u16 (c * 256 + d) ≡ command)
      × (length payload + 5 ≡ a * 256 + b + 2)
      × (calc_crc (a ∷ b ∷ c ∷ d ∷ payload) ≡ crc)
checked-ok a b c d payload crc e = ground arith

build_of_checked :
    (a b c d : ℕ) (payload : List ℕ) (crc : ℕ) {command : ℕ} {p : List ℕ}
    → IsByte a
    → IsByte b
    → IsByte c
    → IsByte d
    → checked a b c d payload crc ≡ ok (command, p)
    → length p ≤ max_payload
    → fields a b c d payload crc ≡ build_frame command p
unfolding build_frame
build_of_checked a b c d payload crc ha hb hc hd e hp =
    let (same, code, size, sum) = checked-ok a b c d payload crc e in ground arith

-- Of the byte strings whose payload has at most 252 bytes, `ExtractFromFrame` accepts exactly those
-- that `BuildFrame` makes: an accepted one is the frame of the command and payload read from it.
pub build-extract :
    (raw : List ℕ) {command : ℕ} {p : List ℕ}
    → All IsByte raw
    → extract_from_frame raw ≡ ok (command, p)
    → length p ≤ max_payload
    → raw ≡ build_frame command p
build-extract [] h e hp = unfold extract_from_frame in ground arith
build-extract (a ∷ []) h e hp = unfold extract_from_frame in ground arith
build-extract (a ∷ b ∷ []) h e hp = unfold extract_from_frame in ground arith
build-extract (a ∷ b ∷ c ∷ []) h e hp = unfold extract_from_frame in ground arith
build-extract (a ∷ b ∷ c ∷ d ∷ []) h e hp = unfold extract_from_frame in ground arith
build-extract (a ∷ b ∷ c ∷ d ∷ x ∷ rest) (ha, (hb, (hc, (hd, _)))) e hp =
    let (payload, crc, cut) = split_last x rest in
    let whole : a ∷ b ∷ c ∷ d ∷ x ∷ rest ≡ fields a b c d payload crc =
      ap (λ l. a ∷ b ∷ c ∷ d ∷ l) cut in
    whole
    ∙ build_of_checked a b c d payload crc ha hb hc hd
        (sym (extract-fields a b c d payload crc) ∙ ap extract_from_frame (sym whole) ∙ e) hp
