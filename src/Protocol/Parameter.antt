-- ===== src/Protocol/Parameter.antt =====
-- app/klf200/protocol/parameter.go: parameters, positions, intensities and limitation times. A
-- `Parameter` is its two bytes; `Position`, `Intensity` and `SwitchParameter` embed one and add no
-- field, so that they are the same type. A nil pointer is `none`.
pub mod Percent
pub mod Normal
pub mod Limitation
mod Runs
use velux_to_mqtt_gw.Prelude.{
  ℕ, ◌+◌, ◌-◌, ◌*◌, ◌/◌, ◌%◌, Bool, true, false, ◌&&◌, ◌||◌, not, leb, ltb, ◌==◌, if◌then◌else◌,
  Option, none, some, byte, hi_byte, Result, ok, err,
}
use velux_to_mqtt_gw.Prelude.Int.{ℤ, pos, negsuc}
use velux_to_mqtt_gw.Protocol.Wire.{
  Error, value_out_of_range, percent_negative, percent_out_of_range,
}

pub record Parameter : Type 0 where
  pub hi : ℕ
  pub lo : ℕ

abbrev pub parameter_unknown_value : ℕ
parameter_unknown_value = 0xF7FF

abbrev pub parameter_current : ℕ
parameter_current = 0xD200

abbrev pub parameter_max : ℕ
parameter_max = 0xC800

abbrev pub parameter_min : ℕ
parameter_min = 0x0000

abbrev pub parameter_on : ℕ
parameter_on = 0x0000

abbrev pub parameter_off : ℕ
parameter_off = 0xC800

abbrev pub parameter_target : ℕ
parameter_target = 0xD100

abbrev pub parameter_ignore : ℕ
parameter_ignore = 0xD400

-- The unchecked rendering; the callers pass no negative value.
abbrev pub raw_of : ℕ → Parameter
raw_of value = record { hi = hi_byte value; lo = byte value }

-- Go's `==` on the two raw bytes.
-- Go's `==` on the two raw bytes.
abbrev pub same_raw : Parameter → Parameter → Bool
same_raw p q = (p.hi == q.hi) && (p.lo == q.lo)

unfoldable pub parameter_is_valid_int : ℤ → Bool
parameter_is_valid_int (negsuc n) = false
parameter_is_valid_int (pos value) =
    leb value parameter_max
    || ((value == parameter_unknown_value)
        || ((value == parameter_ignore)
            || ((value == parameter_current) || (value == parameter_target))))

unfoldable pub parameter_from_int : ℤ → Result Error Parameter
unfolding parameter_is_valid_int
parameter_from_int (negsuc n) = err value_out_of_range
parameter_from_int (pos value) =
    if parameter_is_valid_int (pos value) then ok (raw_of value) else err value_out_of_range

abbrev pub parameter_to_int : Parameter → ℕ
parameter_to_int raw = raw.hi * 256 + raw.lo

-- No branch of Go's `parameterFromRaw` returns an error, so that its result is the parameter.
unfoldable pub parameter_from_raw : Parameter → Parameter
parameter_from_raw raw =
    if not (same_raw raw (raw_of parameter_current))
      && (not (same_raw raw (raw_of parameter_ignore))
          && (not (same_raw raw (raw_of parameter_target))
              && (not (same_raw raw (raw_of parameter_unknown_value))
                  && ltb parameter_max (parameter_to_int raw))))
    then raw_of parameter_unknown_value
    else raw

unfoldable pub new_parameter : Option Parameter → Parameter
unfolding parameter_from_raw
new_parameter none = raw_of parameter_unknown_value
new_parameter (some raw) = parameter_from_raw raw

-- SwitchParameter

unfoldable pub new_switch_parameter : Option Parameter → Parameter
new_switch_parameter none = raw_of parameter_unknown_value
new_switch_parameter (some from) = from

abbrev pub new_switch_parameter_on : Parameter
new_switch_parameter_on = raw_of parameter_on

abbrev pub new_switch_parameter_off : Parameter
new_switch_parameter_off = raw_of parameter_off

abbrev pub is_on : Parameter → Bool
is_on sp = same_raw sp (raw_of parameter_on)

abbrev pub is_off : Parameter → Bool
is_off sp = same_raw sp (raw_of parameter_off)

-- Position

unfoldable pub position_from_percent : ℤ → Result Error Parameter
position_from_percent (negsuc n) = err percent_negative
position_from_percent (pos p) =
    if ltb 100 p then err percent_out_of_range else ok (record { hi = byte (p * 2); lo = 0 })

-- `int(float64(raw[0])/2 + 0.5)`: both steps are exact in a float64 for a byte, so that the
-- truncation is this division.
abbrev pub position_to_percent : Parameter → ℕ
position_to_percent raw = (raw.hi + 1) / 2

-- The constructor takes at most one of its three pointers.
pub data PositionFrom : Type 0 where
  nothing : PositionFrom
  parameter : Parameter → PositionFrom
  position : ℤ → PositionFrom
  percent : ℤ → PositionFrom

unfoldable pub new_position : PositionFrom → Result Error Parameter
unfolding parameter_from_int position_from_percent
new_position nothing = ok (raw_of parameter_unknown_value)
new_position (parameter from) = ok from
new_position (position p) = parameter_from_int p
new_position (percent p) = position_from_percent p

abbrev pub known : Parameter → Bool
known p = not (same_raw p (raw_of parameter_unknown_value))

abbrev pub is_open : Parameter → Bool
is_open p = same_raw p (raw_of parameter_min)

abbrev pub is_closed : Parameter → Bool
is_closed p = position_to_percent p == 100

-- `NewUnknownPosition` and its like drop the error of a sentinel that is always in range.
abbrev pub value_or_zero : Result Error Parameter → Parameter
value_or_zero (ok p) = p
value_or_zero (err e) = record { hi = 0; lo = 0 }

unfoldable pub new_unknown_position : Parameter
unfolding new_position
new_unknown_position = value_or_zero (new_position (position (pos parameter_unknown_value)))

unfoldable pub new_current_position : Parameter
unfolding new_position
new_current_position = value_or_zero (new_position (position (pos parameter_current)))

unfoldable pub new_target_position : Parameter
unfolding new_position
new_target_position = value_or_zero (new_position (position (pos parameter_target)))

unfoldable pub new_ignore_position : Parameter
unfolding new_position
new_ignore_position = value_or_zero (new_position (position (pos parameter_ignore)))

-- Intensity

-- `intensityFromPercent` has the text of `positionFromPercent`.
unfoldable pub intensity_from_percent : ℤ → Result Error Parameter
intensity_from_percent (negsuc n) = err percent_negative
intensity_from_percent (pos p) =
    if ltb 100 p then err percent_out_of_range else ok (record { hi = byte (p * 2); lo = 0 })

abbrev pub intensity_to_percent : Parameter → ℕ
intensity_to_percent raw = raw.hi / 2

unfoldable pub new_intensity : PositionFrom → Result Error Parameter
unfolding parameter_from_int intensity_from_percent
new_intensity nothing = ok (raw_of parameter_unknown_value)
new_intensity (parameter from) = ok from
new_intensity (position p) = parameter_from_int p
new_intensity (percent p) = intensity_from_percent p

abbrev pub intensity_on : Parameter → Bool
intensity_on i = same_raw i (raw_of parameter_min)

abbrev pub intensity_off : Parameter → Bool
intensity_off i = same_raw i (raw_of parameter_max)
