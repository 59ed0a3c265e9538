-- ===== src/Klf200/Session.antt =====
-- app/klf200/session.go: the session ids. The compare-and-swap makes one call one step.
use velux_to_mqtt_gw.Prelude.{ℕ, zero, suc, ◌+◌, ◌%◌, ◌≤◌, ◌<◌, ◌≡◌, ◌≢◌, arith, ltb, if◌then◌else◌}

abbrev pub max_session_id : ℕ
max_session_id = 65535

-- The id that follows `last`, which is also what the generator keeps.
unfoldable pub new_session_id : ℕ → ℕ
new_session_id last = if ltb max_session_id (last + 1) then 1 else last + 1

-- What the generator keeps after so many calls.
unfoldable pub session_after : ℕ → ℕ → ℕ
session_after last zero = last
session_after last (suc n) = new_session_id (session_after last n)

-- The id of a call is its number, counted from 1 to 65535 again and again.
pub session_after-count :
    (last n : ℕ)
    → last ≤ max_session_id
    → session_after last (suc n) ≡ (last + n) % max_session_id + 1
unfolding session_after new_session_id
session_after-count last zero h = ground arith
session_after-count last (suc n) h = ground (arith, session_after-count last n h)

-- Any 65535 calls in a row return different ids, each between 1 and 65535, whichever id was set last.
pub session_after-distinct :
    (last n k : ℕ)
    → last ≤ max_session_id
    → k < 65534
    → (session_after last (suc n) ≢ session_after last (suc (suc (n + k))))
      × (1 ≤ session_after last (suc n))
      × (session_after last (suc n) ≤ max_session_id)
session_after-distinct last n k h hk =
    ground (arith, session_after-count last n h, session_after-count last (suc (n + k)) h)
