-- ===== src/Protocol/Parameter/Limitation.antt =====
-- `LimitationTime` of app/klf200/protocol/parameter.go.
use velux_to_mqtt_gw.Prelude.{
  ℕ, ◌+◌, ◌-◌, ◌*◌, ◌/◌, ◌%◌, ◌≤◌, ◌<◌, ◌≡◌, arith, ◌||◌, ltb, ◌==◌, if◌then◌else◌, Option, none,
  some,
}
use velux_to_mqtt_gw.Prelude.Int.{ℤ, pos, negsuc}

abbrev pub limitation_unlimited : ℕ
limitation_unlimited = 253

abbrev pub limitation_clear_master : ℕ
limitation_clear_master = 254

abbrev pub limitation_clear_all : ℕ
limitation_clear_all = 255

-- `byte(raw)` of an int, in two's complement.
abbrev byte_of_int : ℤ → ℕ
byte_of_int (pos n) = n % 256
byte_of_int (negsuc n) = 255 - n % 256

-- `int(math.Ceil(float64(t)/30)) - 1`. For a time of less than 2^53 seconds no
-- rounding of a float64 moves the quotient across an integer.
abbrev steps_of : ℤ → ℤ
steps_of (pos n) = if n == 0 then negsuc 0 else pos ((n + 29) / 30 - 1)
steps_of (negsuc n) = negsuc ((n + 1) / 30)

-- The three pointers, of which `limitationTime` has precedence over `timeSeconds`, and that over
-- `limitRaw`.
unfoldable pub new_limitation_time : Option ℤ → Option ℤ → Option ℤ → ℕ
new_limitation_time _ (some time) _ = byte_of_int time
new_limitation_time (some (pos t)) none _ =
    if ltb 7590 t then 252 else byte_of_int (steps_of (pos t))
new_limitation_time (some (negsuc t)) none _ = byte_of_int (steps_of (negsuc t))
new_limitation_time none none (some raw) = byte_of_int raw
new_limitation_time none none none = limitation_clear_master

-- -1 for a sentinel.
unfoldable pub get_time_seconds : ℕ → ℤ
get_time_seconds raw =
    if (raw == limitation_unlimited)
      || ((raw == limitation_clear_master) || (raw == limitation_clear_all))
    then negsuc 0
    else pos ((raw + 1) * 30)

abbrev pub new_limitation_time_unlimited : ℕ
unfolding new_limitation_time
new_limitation_time_unlimited = new_limitation_time none (some (pos limitation_unlimited)) none

abbrev pub new_limitation_time_clear_all : ℕ
unfolding new_limitation_time
new_limitation_time_clear_all = new_limitation_time none (some (pos limitation_clear_all)) none

-- A limitation of 1 to 7590 seconds is sent as a duration, never as a sentinel, and the duration
-- read back is the least multiple of 30 seconds that covers the time asked for.
pub get_time_seconds-new :
    (t : ℕ)
    → 1 ≤ t
    → t ≤ 7590
    → (s : ℕ) × (get_time_seconds (new_limitation_time (some (pos t)) none none) ≡ pos s)
      × (t ≤ s)
      × (s < t + 30)
      × (s % 30 ≡ 0)
unfolding get_time_seconds new_limitation_time
get_time_seconds-new t lo hi =
    ((t + 29) / 30 * 30, ground arith, omega arith, omega arith, omega arith)

-- A time above 7590 seconds is capped at 7590 seconds.
pub get_time_seconds-capped :
    (t : ℕ) → 7590 < t → get_time_seconds (new_limitation_time (some (pos t)) none none) ≡ pos 7590
unfolding get_time_seconds new_limitation_time
get_time_seconds-capped t h = ground arith

-- A time of no seconds, or of up to 29 seconds in the past, is sent as the sentinel that clears all
-- limitations.
pub new_limitation_time-clears :
    (t : ℕ)
    → t < 29
    → (new_limitation_time (some (pos 0)) none none ≡ limitation_clear_all)
      × (new_limitation_time (some (negsuc t)) none none ≡ limitation_clear_all)
unfolding new_limitation_time
new_limitation_time-clears t h = ground arith
