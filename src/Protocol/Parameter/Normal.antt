-- ===== src/Protocol/Parameter/Normal.antt =====
-- Validity and normal form of the two raw bytes in parameter.go.
use velux_to_mqtt_gw.Prelude.{
  ℕ, ◌<◌, ◌≡◌, arith, refl, Bool-cases, inl, inr, if◌then◌else◌, true, false, ok, err, ◌⊎◌, IsByte,
  some,
}
use velux_to_mqtt_gw.Prelude.Int.{pos}
use velux_to_mqtt_gw.Protocol.Wire.{value_out_of_range}
use velux_to_mqtt_gw.Protocol.Parameter.{
  Parameter, raw_of, parameter_unknown_value, parameter_is_valid_int, parameter_from_int,
  parameter_to_int, parameter_from_raw, new_parameter,
}

pub record IsRaw (p : Parameter) : Type 0 where
  pub hi_byte : IsByte p.hi
  pub lo_byte : IsByte p.lo

abbrev pub IsValid : Parameter → Type 0
unfolding parameter_is_valid_int
IsValid p = parameter_is_valid_int (pos (parameter_to_int p)) ≡ true

-- The big-endian rendering of a 16-bit value is two bytes that stand for the value.
pub parameter_to_int-raw_of : (n : ℕ) → n < 65536 → parameter_to_int (raw_of n) ≡ n
parameter_to_int-raw_of n h = omega arith

-- Two raw values with one number are one value.
pub parameter_to_int-injective :
    (p q : Parameter) → IsRaw p → IsRaw q → parameter_to_int p ≡ parameter_to_int q → p ≡ q
parameter_to_int-injective p q hp hq e = ground arith

-- Normalising keeps a renderable value as it is, and turns any other into the UNKNOWN sentinel.
pub parameter_from_raw_valid : (p : Parameter) → IsRaw p → IsValid p → parameter_from_raw p ≡ p
unfolding parameter_from_raw parameter_is_valid_int
parameter_from_raw_valid p h v = ground arith

pub parameter_from_raw_invalid :
    (p : Parameter)
    → IsRaw p
    → parameter_is_valid_int (pos (parameter_to_int p)) ≡ false
    → parameter_from_raw p ≡ raw_of parameter_unknown_value
unfolding parameter_from_raw parameter_is_valid_int
parameter_from_raw_invalid p h v = ground arith

-- `NewParameter` keeps two raw bytes exactly when `ParameterIsValidInt` accepts their number, and
-- otherwise stores UNKNOWN; what it stores is valid, and normalising it again changes nothing.
pub new_parameter-normal :
    (p : Parameter)
    → IsRaw p
    → (new_parameter (some p) ≡ (
        if parameter_is_valid_int (pos (parameter_to_int p))
        then p
        else raw_of parameter_unknown_value))
      × IsValid (new_parameter (some p))
      × (new_parameter (some (new_parameter (some p))) ≡ new_parameter (some p))
unfolding new_parameter parameter_from_raw parameter_is_valid_int
new_parameter-normal p h = elim (Bool-cases (parameter_is_valid_int (pos (parameter_to_int p)))) [
  | inl v ↦ rw (parameter_from_raw_valid p h v) (rw v refl, v, parameter_from_raw_valid p h v)
  | inr v ↦ rw (parameter_from_raw_invalid p h v) (rw v refl, refl, refl)
]

-- `ParameterFromInt` accepts exactly the ints that `ParameterIsValidInt` names, and renders such an
-- int as two bytes that stand for it.
pub parameter_from_int-to_int :
    (value : ℕ)
    → ((parameter_is_valid_int (pos value) ≡ true)
        × (p : Parameter) × (parameter_from_int (pos value) ≡ ok p)
        × IsRaw p
        × (parameter_to_int p ≡ value))
      ⊎ ((parameter_is_valid_int (pos value) ≡ false)
          × (parameter_from_int (pos value) ≡ err value_out_of_range))
unfolding parameter_from_int
parameter_from_int-to_int value = elim (Bool-cases (parameter_is_valid_int (pos value))) [
  | inl valid ↦ inl (valid, raw_of value, ground arith, omega arith, ground arith)
  | inr invalid ↦ inr (invalid, ground arith)
]
