-- ===== src/Klf200/Command/Answers.antt =====
-- A call whose handler keeps the first frame of a type returns what that frame says.
use velux_to_mqtt_gw.Prelude.{
  List, [], ◌∷◌, Option, none, some, Result, ok, err, ◌>>=◌, ◌≡◌, refl, Option-cases, inl, inr, ℕ,
}
use velux_to_mqtt_gw.Protocol.Message.{Frame}
use velux_to_mqtt_gw.Protocol.Payload.{marshal_frame}
use velux_to_mqtt_gw.Protocol.Wire.{Error}
use velux_to_mqtt_gw.Klf200.Command.{
  CallError, no_answer, not_sent, exchange, captures, api_call, dereferenced,
}

-- The first frame that is asked for.
abbrev pub first_answer : {A : Type 0} → (Frame → Option A) → List Frame → Option A
first_answer pick [] = none
first_answer pick (f ∷ frames) = elim (pick f) [ none ↦ first_answer pick frames | some a ↦ some a ]

-- What is made of it.
abbrev pub judged : {A B : Type 0} → Option A → (A → Result CallError B) → Result CallError B
judged none k = err no_answer
judged (some a) k = k a

abbrev kept : {A : Type 0} → Option A → Option (Option A)
kept none = none
kept (some a) = some (some a)

exchange-captures :
    {A : Type 0} (pick : Frame → Option A) (frames : List Frame)
    → exchange (captures pick) none frames ≡ kept (first_answer pick frames)
unfolding exchange captures
exchange-captures pick [] = refl
exchange-captures pick (f ∷ frames) = elim (Option-cases (pick f)) [
  | inl e ↦ rw (exchange, captures, first_answer, e) (exchange-captures pick frames)
  | inr (a, e) ↦ rw (exchange, captures, first_answer, e)
]

-- A request that its frame type can write.
abbrev pub IsSendable : Frame → Type 0
IsSendable request = (raw : List ℕ) × (marshal_frame request ≡ ok raw)

pub answered :
    {A B : Type 0} (request : Frame) (pick : Frame → Option A) (frames : List Frame)
    (k : Option A → Result CallError B)
    → IsSendable request
    → (api_call request (captures pick) none frames >>= k)
      ≡ judged (first_answer pick frames) (λ a. k (some a))
unfolding api_call
answered {A = A} request pick frames k h =
    rw (api_call, h.1, exchange-captures pick frames) (by_answer (first_answer pick frames))
  where
    by_answer :
        (o : Option A)
        → (elim (kept o) [ none ↦ err no_answer | some t ↦ ok t ] >>= k)
          ≡ judged o (λ a. k (some a))
    by_answer none = refl
    by_answer (some a) = refl

pub answered_with :
    {A B : Type 0} (request : Frame) (pick : Frame → Option A) (frames : List Frame)
    (next : A → Result CallError B)
    → IsSendable request
    → (api_call request (captures pick) none frames >>= λ kept. dereferenced kept >>= next)
      ≡ judged (first_answer pick frames) next
answered_with request pick frames next h =
    answered request pick frames (λ kept. dereferenced kept >>= next) h

pub unsent :
    {A B : Type 0} (request : Frame) (pick : Frame → Option A) (frames : List Frame)
    (k : Option A → Result CallError B) (e : Error)
    → marshal_frame request ≡ err e
    → (api_call request (captures pick) none frames >>= k) ≡ err (not_sent e)
unfolding api_call
unsent request pick frames k e h = rw (api_call, ◌>>=◌, h)
