-- ===== src/Protocol/Frames/Bytes.antt =====
-- The byte-level helpers that the payloads share.
use velux_to_mqtt_gw.Prelude.{
  ℕ, ◌+◌, ◌*◌, ◌/◌, List, [], ◌∷◌, ◌++◌, ◌≡◌, arith, length, take, get_or, replicate, byte, hi_byte,
  length-append, length-replicate, length-take, ◌==◌, if◌then◌else◌, Result, ok, ltb, ◌>>◌, require,
  not,
}
use velux_to_mqtt_gw.Protocol.Wire.{Error, string_too_long}

-- `uint16(p[i])*256 + uint16(p[i+1])`: the bytes fit, so that nothing wraps.
abbrev pub u16_at : List ℕ → ℕ → ℕ
u16_at p i = get_or p i 0 * 256 + get_or p (i + 1) 0

-- `binary.BigEndian.Uint32(p[i : i+4])`.
abbrev pub u32_at : List ℕ → ℕ → ℕ
u32_at p i =
    ((get_or p i 0 * 256 + get_or p (i + 1) 0) * 256 + get_or p (i + 2) 0) * 256
    + get_or p (i + 3) 0

-- `binary.BigEndian.AppendUint16` and `AppendUint32` before what follows.
abbrev pub u16_bytes : ℕ → List ℕ → List ℕ
u16_bytes n rest = hi_byte n ∷ byte n ∷ rest

abbrev pub u32_bytes : ℕ → List ℕ → List ℕ
u32_bytes n rest = byte (n / 16777216) ∷ byte (n / 65536) ∷ byte (n / 256) ∷ byte n ∷ rest

-- `out := make([]byte, size); copy(out, s)`.
unfoldable pub padded : ℕ → List ℕ → List ℕ
padded size s = take size (s ++ replicate size 0)

pub length-padded : (size : ℕ) (s : List ℕ) → length (padded size s) ≡ size
unfolding padded
length-padded size s = omega (
  arith,
  length-take size (s ++ replicate size 0),
  length-append s (replicate size 0),
  length-replicate {A = ℕ} size 0,
)

-- frame_auth_system.go
unfoldable pub string_to_bytes : List ℕ → ℕ → Result Error (List ℕ)
unfolding padded
string_to_bytes s size = do
  require (not (ltb size (length s))) (string_too_long (length s) size)
  ok (padded size s)

unfoldable pub bytes_to_string : List ℕ → List ℕ
bytes_to_string [] = []
bytes_to_string (b ∷ raw) = if b == 0 then [] else b ∷ bytes_to_string raw
