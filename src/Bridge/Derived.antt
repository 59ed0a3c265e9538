-- ===== src/Bridge/Derived.antt =====
-- What the state of cover_state.go tells of the cover.
use velux_to_mqtt_gw.Prelude.{ℕ, ◌-◌, ◌≤◌, ◌<◌, ◌≡◌, ◌↔◌, ◌⊎◌, arith, Bool, true, false}
use velux_to_mqtt_gw.Prelude.Int.{ℤ}
use velux_to_mqtt_gw.Bridge.State.{
  state_open, state_closed, state_opening, state_closing, validate_position, validate_target,
  derive_state, derive_state_normal, derive_state_inverted, cover_state,
}

-- Between percentages, the cover is closed exactly if it stands at its closed end (100, for an inverted
-- cover 0) and is to stay there, opening exactly if it is to move away from that end, closing exactly
-- if it is to move towards it, and open in every other case.
pub derive_state_iff :
    (position target : ℕ)
    → ((derive_state position target false ≡ state_closed) ↔ ((position ≡ 100) × (target ≡ 100)))
      × ((derive_state position target false ≡ state_opening) ↔ (target < position))
      × ((derive_state position target false ≡ state_closing) ↔ (position < target))
      × ((derive_state position target true ≡ state_closed) ↔ ((position ≡ 0) × (target ≡ 0)))
      × ((derive_state position target true ≡ state_opening) ↔ (position < target))
      × ((derive_state position target true ≡ state_closing) ↔ (target < position))
unfolding derive_state derive_state_normal derive_state_inverted
derive_state_iff position target = ground arith

-- Whatever the raw values are, the position that is published is a percentage, and a target that is out of
-- range makes no moving state: the cover is then open or closed.
pub cover_state-bounded :
    (p t : ℤ) (inverted : Bool)
    → ((cover_state p t inverted).0 ≤ 100)
      × (((cover_state p t inverted).1 ≡ state_open)
          ⊎ (((cover_state p t inverted).1 ≡ state_closed)
              ⊎ ((validate_target t (validate_position p)).1 ≡ false)))
unfolding cover_state validate_position validate_target derive_state derive_state_normal
    derive_state_inverted
cover_state-bounded p t inverted = ground arith

-- An inverted cover is the mirror of a normal one: it derives, from mirrored percentages, the same state.
pub derive_state-mirror :
    (position target : ℕ)
    → position ≤ 100
    → target ≤ 100
    → derive_state (100 - position) (100 - target) true ≡ derive_state position target false
unfolding derive_state derive_state_normal derive_state_inverted
derive_state-mirror position target hp ht = ground arith
