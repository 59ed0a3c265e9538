-- ===== src/Klf200/Connection/Callbacks.antt =====
-- The frame callbacks of app/klf200/connection.go. What a callback does is a parameter.
use velux_to_mqtt_gw.Prelude.{ℕ, ◌+◌, List, [], ◌∷◌, ◌++◌, ◌==◌, if◌then◌else◌, map}

-- The fields `nextCBID` and `callbacks` of `Conn`.
pub record Callbacks (A : Type 0) : Type 0 where
  pub next_cb_id : ℕ
  pub callbacks : List (ℕ × A)

-- `RegisterFrameReceivedCB`, with the handle that it returns.
unfoldable pub register_callback : {A : Type 0} → A → Callbacks A → ℕ × Callbacks A
register_callback cb c = (
  c.next_cb_id + 1,
  record c {
    next_cb_id = c.next_cb_id + 1;
    callbacks = c.callbacks ++ (c.next_cb_id + 1, cb) ∷ [];
  },
)

-- The loop of `UnregisterFrameReceivedCB`, which ends at the first entry with the handle.
unfoldable pub without : {A : Type 0} → ℕ → List (ℕ × A) → List (ℕ × A)
without handle [] = []
without handle ((id, cb) ∷ later) = if id == handle then later else (id, cb) ∷ without handle later

unfoldable pub unregister_callback : {A : Type 0} → ℕ → Callbacks A → Callbacks A
unfolding without
unregister_callback handle c = record c { callbacks = without handle c.callbacks }

-- `dispatch` calls a snapshot of the callbacks, in the order in which they were registered.
unfoldable pub dispatch : {A B : Type 0} → (A → B) → Callbacks A → List B
dispatch call c = map (λ entry. call entry.1) c.callbacks
