-- ===== src/Protocol/ReadBack.antt =====
-- What it takes for a payload to be read back by the frame type that its command code names.
pub mod Statuses
pub mod Sized
pub mod Tables
pub mod All
use velux_to_mqtt_gw.Prelude.{
  ℕ, ◌≤◌, List, ◌≡◌, refl, ap, ◌∙◌, sym, some, Result, ok, err, ◌>>=◌, require, ◌==◌, length, arith,
}
use velux_to_mqtt_gw.Protocol.Wire.{Error}
use velux_to_mqtt_gw.Protocol.Wire.RoundTrip.{max_payload}
use velux_to_mqtt_gw.Protocol.Message.{Frame, command}
use velux_to_mqtt_gw.Protocol.Payload.{marshal_payload, unmarshal_payload, filled}
use velux_to_mqtt_gw.Protocol.Creation.{create_frame, frame_registry}

-- The payload of a frame fits a SLIP frame, and a frame as its command code's constructor makes it
-- reads it back.
pub record IsReadBack (f : Frame) : Type 0 where
  pub payload : List ℕ
  pub empty : Frame
  pub written : marshal_payload f ≡ ok payload
  pub size : length payload ≤ max_payload
  pub created : create_frame frame_registry (command f) ≡ some empty
  pub read : unmarshal_payload empty payload ≡ ok f

-- A chain of two calls that succeeds went through both.
pub both_succeeded {ℓ κ} :
    {E : Type 0} {A : Type ℓ} {B : Type κ} (r : Result E A) (k : A → Result E B) (b : B)
    → (r >>= k) ≡ ok b
    → (a : A) × (r ≡ ok a) × (k a ≡ ok b)
both_succeeded (ok a) k b h = (a, refl, h)
both_succeeded (err e) k b h = absurd (ground arith)

-- A reader that succeeds was given the length it asks for.
pub length_required {ℓ} :
    {A : Type ℓ} (n : ℕ) (p : List ℕ) (e : Error) (k : Unit {0} → Result Error A) (a : A)
    → (require (length p == n) e >>= k) ≡ ok a
    → length p ≡ n
length_required n p e k a h = ground arith

pub readable :
    {f e : Frame} {p : List ℕ}
    → marshal_payload f ≡ ok p
    → length p ≤ max_payload
    → create_frame frame_registry (command f) ≡ some e
    → unmarshal_payload e p ≡ ok f
    → IsReadBack f
readable hm hp hc hu = record {
  payload = _;
  empty = _;
  written = hm;
  size = hp;
  created = hc;
  read = hu;
}

-- The same for a frame type whose reader asks for a length of `n` before all else.
pub readable_at {ℓ} :
    {A : Type ℓ} (n : ℕ) (make : A → Frame) (marshal : A → Result Error (List ℕ))
    (unmarshal : A → List ℕ → Result Error A) {e f : A}
    → n ≤ max_payload
    → ((p : List ℕ) (a : A) → unmarshal e p ≡ ok a → length p ≡ n)
    → marshal_payload (make f) ≡ marshal f
    → create_frame frame_registry (command (make f)) ≡ some (make e)
    → ((p : List ℕ) → unmarshal_payload (make e) p ≡ filled make (unmarshal e p))
    → (marshal f >>= unmarshal e) ≡ ok f
    → IsReadBack (make f)
readable_at n make marshal unmarshal {e} {f} hn len hm hc hu h =
    let s = both_succeeded (marshal f) (unmarshal e) f h in
    readable (hm ∙ s.1) (rw (len s.0 f s.2) hn) hc (hu s.0 ∙ ap (filled make) s.2)

-- The same for one that is read back into any frame.
pub readable_of {ℓ} :
    {A : Type ℓ} (n : ℕ) (make : A → Frame) (marshal : A → Result Error (List ℕ))
    (unmarshal : A → List ℕ → Result Error A) {e f : A}
    → n ≤ max_payload
    → ((p : List ℕ) (a : A) → unmarshal e p ≡ ok a → length p ≡ n)
    → marshal_payload (make f) ≡ marshal f
    → create_frame frame_registry (command (make f)) ≡ some (make e)
    → ((p : List ℕ) → unmarshal_payload (make e) p ≡ filled make (unmarshal e p))
    → ((e : A) → (marshal f >>= unmarshal e) ≡ ok f)
    → IsReadBack (make f)
readable_of n make marshal unmarshal {e} hn len hm hc hu h =
    readable_at n make marshal unmarshal hn len hm hc hu (h e)

-- The same for one whose payload is known.
pub readable_from {ℓ} :
    {A : Type ℓ} (make : A → Frame) {e : Frame} {a : A} {p : List ℕ}
    (marshal : Result Error (List ℕ)) (unmarshal : List ℕ → Result Error A)
    → length p ≤ max_payload
    → marshal_payload (make a) ≡ marshal
    → create_frame frame_registry (command (make a)) ≡ some e
    → ((q : List ℕ) → unmarshal_payload e q ≡ filled make (unmarshal q))
    → marshal ≡ ok p
    → (marshal >>= unmarshal) ≡ ok a
    → IsReadBack (make a)
readable_from make {p = p} marshal unmarshal hp hm hc hu h1 h2 =
    readable (hm ∙ h1) hp hc (hu p ∙ ap (filled make) (ap (λ r. r >>= unmarshal) (sym h1) ∙ h2))
