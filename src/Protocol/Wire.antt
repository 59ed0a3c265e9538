-- ===== src/Protocol/Wire.antt =====
-- app/klf200/protocol/frame.go: the frame layout and its checksum. A byte slice is a list of
-- numbers; the fields of `Error` are the numbers that Go prints in the message.
pub mod Crc
pub mod RoundTrip
mod Runs
use Prim.Native.Nat.{bit_xor}
use velux_to_mqtt_gw.Prelude.{
  ℕ, ◌+◌, ◌-◌, ◌*◌, List, [], ◌∷◌, ◌++◌, leb, ◌==◌, if◌then◌else◌, not, length, take, drop, get_or,
  byte, u16, hi_byte, Result, ok, err, ◌>>=◌, ◌>>◌, require,
}

-- The errors of the package.
pub data Error : Type 0 where
  too_short : ℕ → Error
  invalid_length : ℕ → ℕ → Error
  invalid_crc : ℕ → ℕ → Error
  payload_len : ℕ → ℕ → Error
  payload_too_short : ℕ → Error
  too_many_nodes : ℕ → Error
  wrong_node_length : ℕ → Error
  wrong_scene_length : ℕ → ℕ → Error
  empty_password : Error
  invalid_alias_count : ℕ → Error
  string_too_long : ℕ → ℕ → Error
  value_out_of_range percent_negative percent_out_of_range : Error
  -- `make` with a negative length panics.
  negative_length : Error

crc_from : ℕ → List ℕ → ℕ
crc_from crc [] = crc
crc_from crc (b ∷ raw) = crc_from (bit_xor crc b) raw

unfoldable pub calc_crc : List ℕ → ℕ
unfolding crc_from
calc_crc raw = crc_from 0 raw

-- The frame without its checksum. `byte(packetLength)` wraps.
abbrev header : ℕ → List ℕ → List ℕ
header command payload =
    0 ∷ byte (2 + length payload + 1) ∷ hi_byte command ∷ byte command ∷ payload

unfoldable pub build_frame : ℕ → List ℕ → List ℕ
build_frame command payload = let ret = header command payload in ret ++ calc_crc ret ∷ []

-- Go's `length` is `data[0]*256 + data[1] - 1`, an int that may be -1; the test compares the size
-- with `length + 3`, here with the 1 taken off.
unfoldable pub extract_from_frame : List ℕ → Result Error (ℕ × List ℕ)
extract_from_frame data_bytes = do
  let n = length data_bytes
  require (not (leb n 4)) (too_short n)
  let want = get_or data_bytes 0 0 * 256 + get_or data_bytes 1 0 + 2
  require (n == want) (invalid_length n want)
  let crc = calc_crc (take (n - 1) data_bytes)
  let last = get_or data_bytes (n - 1) 0
  require (crc == last) (invalid_crc last crc)
  let payload = drop 4 (take (n - 1) data_bytes)
  ok (u16 (get_or data_bytes 2 0 * 256 + get_or data_bytes 3 0), payload)
