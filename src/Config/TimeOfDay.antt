-- ===== src/Config/TimeOfDay.antt =====
-- `time.Parse("15:04", s)` as app/config/config.go uses it: one or two digits of an hour below 24,
-- a colon, two digits of a minute below 60, and nothing more.
use velux_to_mqtt_gw.Prelude.{
  ℕ, ◌+◌, ◌-◌, ◌*◌, ◌/◌, ◌%◌, ◌<◌, List, [], ◌∷◌, Bool, ◌&&◌, Option, none, some, leb, ltb, ◌==◌,
  if◌then◌else◌, ◌≡◌, arith,
}

abbrev pub is_digit : ℕ → Bool
is_digit b = leb 48 b && leb b 57

abbrev two_digits : ℕ → ℕ → ℕ
two_digits a b = (a - 48) * 10 + (b - 48)

-- The minute, behind the colon.
unfoldable pub parse_minute : ℕ → List ℕ → Option (ℕ × ℕ)
parse_minute hour (colon ∷ a ∷ b ∷ []) =
    if (colon == 58) && (is_digit a && (is_digit b && (ltb hour 24 && ltb (two_digits a b) 60)))
    then some (hour, two_digits a b)
    else none
parse_minute hour rest = none

unfoldable pub parse_time_of_day : List ℕ → Option (ℕ × ℕ)
unfolding parse_minute
parse_time_of_day [] = none
parse_time_of_day (a ∷ []) = none
parse_time_of_day (a ∷ b ∷ rest) =
    if is_digit a
    then (if is_digit b
        then parse_minute (two_digits a b) rest
        else parse_minute (a - 48) (b ∷ rest))
    else none

-- "HH:MM"
abbrev print_time_of_day : ℕ → ℕ → List ℕ
print_time_of_day h m = (h / 10 + 48) ∷ (h % 10 + 48) ∷ 58 ∷ (m / 10 + 48) ∷ (m % 10 + 48) ∷ []

parse_minute-print :
    (h m : ℕ)
    → h < 24
    → m < 60
    → parse_minute h (58 ∷ (m / 10 + 48) ∷ (m % 10 + 48) ∷ []) ≡ some (h, m)
unfolding parse_minute
parse_minute-print h m hh hm = ground arith

-- Every time of day, written as HH:MM with two digits each, is read back.
pub parse-print_time_of_day :
    (h m : ℕ) → h < 24 → m < 60 → parse_time_of_day (print_time_of_day h m) ≡ some (h, m)
unfolding parse_time_of_day
parse-print_time_of_day h m hh hm = ground (arith, parse_minute-print h m hh hm)
