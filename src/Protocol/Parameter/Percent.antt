-- ===== src/Protocol/Parameter/Percent.antt =====
-- The percentages of parameter.go.
use velux_to_mqtt_gw.Prelude.{ℕ, ◌+◌, ◌*◌, ◌≤◌, ◌<◌, ◌≡◌, arith, ok, err, ◌↔◌}
use velux_to_mqtt_gw.Prelude.Int.{pos, negsuc}
use velux_to_mqtt_gw.Protocol.Wire.{percent_negative, percent_out_of_range}
use velux_to_mqtt_gw.Protocol.Parameter.{
  Parameter, parameter_max, parameter_to_int, position_from_percent, position_to_percent,
  intensity_from_percent, intensity_to_percent, new_position, percent,
}

-- A percentage of 0 to 100 comes back from its rendering, as a position and as an intensity.
pub to_percent-from_percent :
    (n : ℕ)
    → n ≤ 100
    → (p : Parameter) × (new_position (percent (pos n)) ≡ ok p)
      × (intensity_from_percent (pos n) ≡ ok p)
      × (position_to_percent p ≡ n)
      × (intensity_to_percent p ≡ n)
      × (parameter_to_int p ≤ parameter_max)
unfolding new_position intensity_from_percent
to_percent-from_percent n h = (
  record { hi = n * 2; lo = 0 },
  ground arith,
  ground arith,
  omega arith,
  omega arith,
  omega arith,
)

-- Any other percentage is refused, with the error for its side.
pub position_from_percent_refused :
    (n : ℕ)
    → (position_from_percent (negsuc n) ≡ err percent_negative)
      × (position_from_percent (pos (n + 101)) ≡ err percent_out_of_range)
unfolding position_from_percent
position_from_percent_refused n = ground arith

-- The percentage of a raw position lies in 0 to 100 exactly for a high byte of at most 200.
pub position_to_percent-le : (p : Parameter) → (position_to_percent p ≤ 100) ↔ (p.hi ≤ 200)
position_to_percent-le p = ((λ h. omega arith), (λ h. omega arith))

-- A larger raw value has no smaller percentage.
pub position_to_percent_mono :
    (p q : Parameter)
    → p.lo < 256
    → q.lo < 256
    → parameter_to_int p ≤ parameter_to_int q
    → position_to_percent p ≤ position_to_percent q
position_to_percent_mono p q hp hq h = omega arith
