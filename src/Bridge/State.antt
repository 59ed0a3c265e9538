-- ===== src/Bridge/State.antt =====
-- app/bridge/cover_state.go: the state of a cover from its position and its target. Go's ints are `ℤ`;
-- what is validated is a natural number.
use velux_to_mqtt_gw.Prelude.{ℕ, Bool, true, false, ltb, ◌==◌, if◌then◌else◌}
use velux_to_mqtt_gw.Prelude.Int.{ℤ, pos, negsuc}

pub data CoverState : Type 0 where
  state_open state_closed state_opening state_closing : CoverState

abbrev pub position_fully_open : ℕ
position_fully_open = 0

abbrev pub position_fully_closed : ℕ
position_fully_closed = 100

-- In the range, or not: `position < 0 || position > 100`.
unfoldable pub validate_position : ℤ → ℕ
validate_position (negsuc n) = 0
validate_position (pos position) = if ltb 100 position then 0 else position

-- With the bool that tells whether the target was invalid.
unfoldable pub validate_target : ℤ → ℕ → ℕ × Bool
validate_target (negsuc n) valid_position = (valid_position, true)
validate_target (pos target) valid_position =
    if ltb 100 target then (valid_position, true) else (target, false)

unfoldable pub derive_state_normal : ℕ → ℕ → CoverState
derive_state_normal position target =
    if position == target
    then (if position == position_fully_closed then state_closed else state_open)
    else if ltb target position
    then state_opening
    else state_closing

unfoldable pub derive_state_inverted : ℕ → ℕ → CoverState
derive_state_inverted position target =
    if position == target
    then (if position == position_fully_open then state_closed else state_open)
    else if ltb target position
    then state_closing
    else state_opening

unfoldable pub derive_state : ℕ → ℕ → Bool → CoverState
unfolding derive_state_normal derive_state_inverted
derive_state position target inverted =
    if inverted then derive_state_inverted position target else derive_state_normal position target

unfoldable pub cover_state : ℤ → ℤ → Bool → ℕ × CoverState
unfolding validate_position validate_target derive_state
cover_state raw_position raw_target inverted =
    let position = validate_position raw_position in
    let (target, was_invalid) = validate_target raw_target position in
    (position, derive_state position target inverted)
