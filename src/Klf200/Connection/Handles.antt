-- ===== src/Klf200/Connection/Handles.antt =====
-- The handles of the frame callbacks name one callback each.
use velux_to_mqtt_gw.Prelude.{
  false, ℕ, ◌+◌, ◌≤◌, ◌<◌, ◌≡◌, refl, ap, List, [], ◌∷◌, ◌++◌, ◌==◌, arith, map, Bool-cases, inl,
  inr,
}
use velux_to_mqtt_gw.Klf200.Connection.Callbacks.{
  Callbacks, register_callback, unregister_callback, without, dispatch,
}

-- Ids grow along the list, up to the last one that was given out.
abbrev IsAscending : {A : Type 0} → ℕ → ℕ → List (ℕ × A) → Type 0
IsAscending low high [] = low ≤ high
IsAscending low high ((id, cb) ∷ later) = (low < id) × IsAscending id high later

abbrev pub IsNumbered : {A : Type 0} → Callbacks A → Type 0
IsNumbered c = IsAscending 0 c.next_cb_id c.callbacks

IsAscending-append :
    {A : Type 0} (low high : ℕ) (cb : A) (cs : List (ℕ × A))
    → IsAscending low high cs
    → IsAscending low (high + 1) (cs ++ (high + 1, cb) ∷ [])
IsAscending-append low high cb [] h = (omega arith, omega arith)
IsAscending-append low high cb ((id, x) ∷ cs) h = (h.0, IsAscending-append id high cb cs h.1)

IsAscending-lower :
    {A : Type 0} (low id high : ℕ) (cs : List (ℕ × A))
    → low < id
    → IsAscending id high cs
    → IsAscending low high cs
IsAscending-lower low id high [] l h = omega arith
IsAscending-lower low id high ((j, x) ∷ cs) l h = (omega arith, h.1)

IsAscending-without :
    {A : Type 0} (low high g : ℕ) (cs : List (ℕ × A))
    → IsAscending low high cs
    → IsAscending low high (without g cs)
unfolding without
IsAscending-without low high g [] h = h
IsAscending-without low high g ((id, x) ∷ cs) h = elim (Bool-cases (id == g)) [
  | inl e ↦ rw (without, e) (IsAscending-lower low id high cs h.0 h.1)
  | inr e ↦ rw (without, e) (h.0, IsAscending-without id high g cs h.1)
]

IsAscending-bound :
    {A : Type 0} (low high : ℕ) (cs : List (ℕ × A)) → IsAscending low high cs → low ≤ high
IsAscending-bound low high [] h = h
IsAscending-bound low high ((id, x) ∷ cs) h = omega (arith, h.0, IsAscending-bound id high cs h.1)

-- An id that is not given out yet is not in the list.
without-append :
    {A : Type 0} (low high : ℕ) (cb : A) (cs : List (ℕ × A))
    → IsAscending low high cs
    → without (high + 1) (cs ++ (high + 1, cb) ∷ []) ≡ cs
unfolding without
without-append low high cb [] h = ground arith
without-append low high cb ((id, x) ∷ cs) h =
    let bound = IsAscending-bound id high cs h.1 in
    rw (without, older id high bound) (ap (λ l. (id, x) ∷ l) (without-append id high cb cs h.1))
  where
    older : (id high : ℕ) → id ≤ high → (id == high + 1) ≡ false
    older id high b = ground arith

without-append_other :
    {A : Type 0} (g id : ℕ) (cb : A) (cs : List (ℕ × A))
    → (id == g) ≡ false
    → without g (cs ++ (id, cb) ∷ []) ≡ without g cs ++ (id, cb) ∷ []
unfolding without
without-append_other g id cb [] h = ground arith
without-append_other g id cb ((j, x) ∷ cs) h = elim (Bool-cases (j == g)) [
  | inl e ↦ rw (without, e)
  | inr e ↦ rw (without, e) (ap (λ l. (j, x) ∷ l) (without-append_other g id cb cs h))
]

map-append : {A B : Type 0} (f : A → B) (xs ys : List A) → map f (xs ++ ys) ≡ map f xs ++ map f ys
map-append f [] ys = refl
map-append f (x ∷ xs) ys = ap (λ l. f x ∷ l) (map-append f xs ys)

-- Between its registration and its removal, a callback is called behind those that were there, and its
-- handle removes it and nothing else; the removal of any older handle, whether before or after the
-- registration, gives the same callbacks; and the ids stay distinct and in order.
pub register_callback-isolated :
    {A B : Type 0} (call : A → B) (cb : A) (c : Callbacks A) (g : ℕ)
    → IsNumbered c
    → g ≤ c.next_cb_id
    → (dispatch call (register_callback cb c).1 ≡ dispatch call c ++ call cb ∷ [])
      × ((unregister_callback (register_callback cb c).0 (register_callback cb c).1).callbacks
          ≡ c.callbacks)
      × (unregister_callback g (register_callback cb c).1
          ≡ (register_callback cb (unregister_callback g c)).1)
      × IsNumbered (register_callback cb c).1
      × IsNumbered (unregister_callback g c)
unfolding register_callback unregister_callback dispatch
register_callback-isolated call cb c g h l = (
  map-append (λ entry. call entry.1) c.callbacks ((c.next_cb_id + 1, cb) ∷ []),
  without-append 0 c.next_cb_id cb c.callbacks h,
  ap (λ l. record { next_cb_id = c.next_cb_id + 1; callbacks = l })
      (without-append_other g (c.next_cb_id + 1) cb c.callbacks (ground arith)),
  IsAscending-append 0 c.next_cb_id cb c.callbacks h,
  IsAscending-without 0 c.next_cb_id g c.callbacks h,
)
