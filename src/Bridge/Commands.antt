-- ===== src/Bridge/Commands.antt =====
-- What a payload on a command topic of cover.go does.
use velux_to_mqtt_gw.Prelude.{
  ℕ, ◌+◌, ◌*◌, ◌/◌, ◌%◌, ◌≤◌, ◌<◌, List, [], ◌∷◌, Bool, true, false, Option, none, some, ◌≡◌, refl,
  arith, ltb, if◌then◌else◌,
}
use velux_to_mqtt_gw.Prelude.Int.{ℤ, pos, negsuc}
use velux_to_mqtt_gw.Protocol.Parameter.{new_position, position_from_percent}
use velux_to_mqtt_gw.Klf200.Nodes.{same_bytes}
use velux_to_mqtt_gw.Bridge.Cover.{
  Operation, open_it, close_it, move_to, percent_operation, cover_operation, trim_left, trim_right,
  all_spaces, atoi, parse_digits,
}

-- `strconv.Itoa` of a percentage.
abbrev pub itoa : ℕ → List ℕ
itoa p =
    if ltb p 10
    then (p + 48) ∷ []
    else if ltb p 100
    then (p / 10 + 48) ∷ (p % 10 + 48) ∷ []
    else 49 ∷ 48 ∷ 48 ∷ []

one_digit :
    (inverted : Bool) (a : ℕ)
    → a < 10
    → cover_operation inverted ((a + 48) ∷ []) ≡ percent_operation (some (pos a))
unfolding cover_operation trim_left trim_right all_spaces same_bytes atoi parse_digits
one_digit inverted a h = ground arith

two_digits :
    (inverted : Bool) (a b : ℕ)
    → a < 10
    → b < 10
    → cover_operation inverted ((a + 48) ∷ (b + 48) ∷ [])
      ≡ percent_operation (some (pos (a * 10 + b)))
unfolding cover_operation trim_left trim_right all_spaces same_bytes atoi parse_digits
two_digits inverted a b ha hb = ground arith

hundred :
    (inverted : Bool)
    → cover_operation inverted (49 ∷ 48 ∷ 48 ∷ []) ≡ percent_operation (some (pos 100))
unfolding cover_operation trim_left trim_right all_spaces same_bytes atoi parse_digits
hundred inverted = refl

percent_operation-move :
    (p : ℕ) → p ≤ 100 → percent_operation (some (pos p)) ≡ move_to (record { hi = p * 2; lo = 0 })
unfolding percent_operation new_position position_from_percent
percent_operation-move p h = ground arith

-- Every percentage from 0 to 100, written in decimal, moves the cover to the position with that percentage,
-- inverted or not.
pub cover_operation-percent :
    (inverted : Bool) (p : ℕ)
    → p ≤ 100
    → cover_operation inverted (itoa p) ≡ move_to (record { hi = p * 2; lo = 0 })
cover_operation-percent inverted p h = ground (
  arith,
  percent_operation-move p h,
  one_digit inverted p,
  two_digits inverted (p / 10) (p % 10),
  hundred inverted,
)

abbrev pub swapped : Operation → Operation
swapped open_it = close_it
swapped close_it = open_it
swapped o = o

percent_operation-swapped : (o : Option ℤ) → percent_operation o ≡ swapped (percent_operation o)
unfolding percent_operation new_position position_from_percent
percent_operation-swapped none = refl
percent_operation-swapped (some (negsuc n)) = refl
percent_operation-swapped (some (pos p)) = ground arith

-- Inverting a cover swaps opening and closing, and changes no other command, for any payload.
pub cover_operation-inverted :
    (payload : List ℕ) → cover_operation true payload ≡ swapped (cover_operation false payload)
unfolding cover_operation
cover_operation-inverted payload =
    let cmd = trim_right (trim_left payload) in ground (arith, percent_operation-swapped (atoi cmd))
