-- ===== src/Protocol/Parameter/Runs.antt =====
-- Runs of parameter.go.
use velux_to_mqtt_gw.Prelude.{◌≤◌, ◌≡◌, arith, ok, some, if◌then◌else◌}
use velux_to_mqtt_gw.Prelude.Int.{pos}
use velux_to_mqtt_gw.Protocol.Parameter.{
  Parameter, new_parameter, parameter_is_valid_int, parameter_to_int, parameter_max, raw_of,
  parameter_unknown_value, new_position, percent, position_to_percent, intensity_from_percent,
  intensity_to_percent,
}
use velux_to_mqtt_gw.Protocol.Parameter.Normal.{IsValid, new_parameter-normal}
use velux_to_mqtt_gw.Protocol.Parameter.Percent.{to_percent-from_percent}

-- A value between MAX and the sentinels.
abbrev odd : Parameter
odd = record { hi = 0xC8; lo = 1 }

new_parameter-normal_example :
    (new_parameter (some odd) ≡ (
      if parameter_is_valid_int (pos (parameter_to_int odd))
      then odd
      else raw_of parameter_unknown_value))
    × IsValid (new_parameter (some odd))
    × (new_parameter (some (new_parameter (some odd))) ≡ new_parameter (some odd))
new_parameter-normal_example =
    new_parameter-normal odd (record { hi_byte = omega arith; lo_byte = omega arith })

to_percent-from_percent_example :
    (p : Parameter) × (new_position (percent (pos 37)) ≡ ok p)
    × (intensity_from_percent (pos 37) ≡ ok p)
    × (position_to_percent p ≡ 37)
    × (intensity_to_percent p ≡ 37)
    × (parameter_to_int p ≤ parameter_max)
to_percent-from_percent_example = to_percent-from_percent 37 (omega arith)
