-- ===== src/Klf200/Heartbeat/Laws.antt =====
-- What a pulse sends and returns, and which failure its owner gets to read.
use velux_to_mqtt_gw.Prelude.{
  ℕ, zero, suc, ◌+◌, ◌%◌, ◌≤◌, ◌⊎◌, List, [], ◌∷◌, Bool, true, false, Option, none, some, ok, err,
  ◌>>=◌, ◌≡◌, refl, ap, ◌∙◌, ◌==◌, if◌then◌else◌, length, inl, inr, Option-cases, Bool-cases,
  Result, arith, All,
}
use velux_to_mqtt_gw.Protocol.Frames.Status.{StatusRequestRequest, marshal_status_request_request}
use velux_to_mqtt_gw.Protocol.Frames.Bytes.{padded}
use velux_to_mqtt_gw.Protocol.Message
use velux_to_mqtt_gw.Protocol.Message.{Frame}
use velux_to_mqtt_gw.Protocol.Payload.{marshal_payload, marshal_frame}
use velux_to_mqtt_gw.Klf200.Command.{CallError, no_answer, exchange, api_call}
use velux_to_mqtt_gw.Klf200.Command.Answers.{first_answer, judged}
use velux_to_mqtt_gw.Klf200.Node.{Node, Kind, blind, is_blind}
use velux_to_mqtt_gw.Klf200.Session.{new_session_id}
use velux_to_mqtt_gw.Protocol.Frames.Simple.{GetStateConfirmation}
use velux_to_mqtt_gw.Klf200.System.{state_answer}
use velux_to_mqtt_gw.Klf200.System.Outcomes.{queries-outcome}
use velux_to_mqtt_gw.Klf200.Heartbeat.{
  Arrivals, Pulse, refresh, refresh_request, refresh_handler, refresh_blinds, pulse, Heartbeat,
  Event, beat, beats, start, stop, read, pulsed,
}

abbrev pub notified : ℕ → Frame → Option (Unit {0})
notified sid (Message.status_request_notification f) = if f.session_id == sid then some tt else none
notified sid f = none

refresh_handler-notified :
    (sid : ℕ) (f : Frame)
    → refresh_handler sid tt f ≡ elim (notified sid f) [ none ↦ (tt, false) | some u ↦ (tt, true) ]
unfolding refresh_handler
refresh_handler-notified sid (Message.status_request_notification f) = ground arith
refresh_handler-notified sid f = refl

refresh_exchange :
    (sid : ℕ) (frames : List Frame)
    → exchange (refresh_handler sid) tt frames ≡ first_answer (notified sid) frames
unfolding exchange
refresh_exchange sid [] = refl
refresh_exchange sid (f ∷ frames) = elim (Option-cases (notified sid f)) [
  | inl e ↦
      rw (exchange, first_answer, refresh_handler-notified sid f, e) (refresh_exchange sid frames)
  | inr (u, e) ↦ rw (exchange, first_answer, refresh_handler-notified sid f, e)
]

-- The ids of the blinds, in the order of the collection.
abbrev pub has_slats : Kind → Bool
has_slats blind = true
has_slats k = false

abbrev pub blinds : List Node → List ℕ
blinds [] = []
blinds (node ∷ nodes) =
    let later = blinds nodes in if has_slats node.kind then node.node_id ∷ later else later

is_blind-has_slats : (k : Kind) → is_blind k ≡ has_slats k
unfolding is_blind
is_blind-has_slats blind = refl
is_blind-has_slats k = refl

-- The session id of the k-th call behind the last one, for 65535 ids in turn.
abbrev pub call_id : ℕ → ℕ → ℕ
call_id last zero = last
call_id last (suc k) = (last + k) % 65535 + 1

new_session_id-call_id :
    (last k : ℕ) → last ≤ 65535 → new_session_id (call_id last k) ≡ call_id last (suc k)
unfolding new_session_id
new_session_id-call_id last zero h = ground arith
new_session_id-call_id last (suc k) h = ground arith

-- A request for the current position of one node, with its functional parameters 1 to 7.
abbrev pub asks : ℕ → ℕ → StatusRequestRequest
asks sid node_id = record {
  session_id = sid;
  node_ids = node_id % 256 ∷ [];
  status_type = 1;
  fpi1 = 254;
  fpi2 = 0;
}

-- The calls for them.
abbrev pub refreshes :
    Arrivals → ℕ → ℕ → List ℕ → List (StatusRequestRequest × Result CallError (Unit {0}))
refreshes arrivals last k [] = []
refreshes arrivals last k (id ∷ ids) =
    let request = asks (call_id last (suc k)) id in
    (
      request,
      judged
          (first_answer (notified (call_id last (suc k)))
            (arrivals (Message.status_request_request request)))
          (λ u. ok tt),
    )
    ∷ refreshes arrivals last (suc k) ids

refresh_request-asks : (sid node_id : ℕ) → refresh_request sid node_id ≡ asks sid node_id
unfolding refresh_request
refresh_request-asks sid node_id = refl

refresh-outcome :
    (arrivals : Arrivals) (sid node_id : ℕ)
    → refresh arrivals sid node_id
      ≡ judged
          (first_answer
            (notified sid)
            (arrivals (Message.status_request_request (asks sid node_id))))
          (λ u. ok tt)
unfolding refresh api_call marshal_frame marshal_payload marshal_status_request_request padded
    refresh_request
refresh-outcome arrivals sid node_id =
    rw
      (
        refresh,
        api_call,
        refresh_exchange sid (arrivals (Message.status_request_request (asks sid node_id))),
      )
      (by_answer (
        first_answer (notified sid) (arrivals (Message.status_request_request (asks sid node_id)))))
  where
    by_answer :
        (o : Option (Unit {0}))
        → (elim o [ none ↦ err no_answer | some t ↦ ok t ] >>= λ s. ok tt) ≡ judged o (λ u. ok tt)
    by_answer none = refl
    by_answer (some u) = refl

refresh_blinds-outcome :
    (arrivals : Arrivals) (last k : ℕ) (nodes : List Node)
    → last ≤ 65535
    → refresh_blinds arrivals (call_id last k) nodes ≡ record {
      outcome = ok tt;
      last_session = call_id last (k + length (blinds nodes));
      refreshed = refreshes arrivals last k (blinds nodes);
    }
unfolding refresh_blinds
refresh_blinds-outcome arrivals last k [] h = rw right_zero
  where
    right_zero : k + 0 ≡ k
    right_zero = omega arith
refresh_blinds-outcome arrivals last k (node ∷ nodes) h = elim (Bool-cases (has_slats node.kind)) [
  | inl e ↦
      rw (refresh_blinds, blinds, is_blind-has_slats node.kind, e, new_session_id-call_id last k h)
        (ap (behind (refresh_request sid node.node_id, refresh arrivals sid node.node_id))
            (refresh_blinds-outcome arrivals last (suc k) nodes h)
          ∙ rw (
            refresh_request-asks sid node.node_id,
            refresh-outcome arrivals sid node.node_id,
            next,
          ))
  | inr e ↦
      rw (refresh_blinds, blinds, is_blind-has_slats node.kind, e)
        (refresh_blinds-outcome arrivals last k nodes h)
]
  where
    sid : ℕ
    sid = call_id last (suc k)

    behind : StatusRequestRequest × Result CallError (Unit {0}) → Pulse → Pulse
    behind r later = record later { refreshed = r ∷ later.refreshed }

    next : k + suc (length (blinds nodes)) ≡ suc k + length (blinds nodes)
    next = omega arith

-- Whether the gateway's state arrives.
abbrev pub has_state : List Frame → Bool
has_state [] = false
has_state (Message.get_state_confirmation f ∷ frames) = true
has_state (f ∷ frames) = has_state frames

state-cases :
    (frames : List Frame)
    → ((first_answer state_answer frames ≡ none) × (has_state frames ≡ false))
      ⊎ ((f : GetStateConfirmation) × (first_answer state_answer frames ≡ some f)
          × (has_state frames ≡ true))
state-cases [] = inl (refl, refl)
state-cases (Message.get_state_confirmation f ∷ frames) = inr (f, refl, refl)
state-cases (f ∷ frames) = state-cases frames

-- A pulse fails just if the gateway's state does not arrive, and sends nothing else then. Otherwise it
-- asks for the current position of each blind, by the low byte of its id, and of no other node, in the
-- order of the collection and with successive session ids from 1 to 65535; it goes on whether or not a
-- blind's status arrives, and succeeds. The last session id before is at most 65535.
pub pulse-outcome :
    (arrivals : Arrivals) (last : ℕ) (nodes : List Node)
    → last ≤ 65535
    → pulse arrivals last nodes ≡ (
        if has_state (arrivals Message.get_state_request)
        then record {
          outcome = ok tt;
          last_session = call_id last (length (blinds nodes));
          refreshed = refreshes arrivals last 0 (blinds nodes);
        }
        else record { outcome = err no_answer; last_session = last; refreshed = [] })
unfolding pulse
pulse-outcome arrivals last nodes h =
    let state = (queries-outcome (arrivals Message.get_state_request)).3 in
    elim (state-cases (arrivals Message.get_state_request)) [
      | inl (e, none_there) ↦ rw (pulse, state, e, none_there)
      | inr (f, e, there) ↦
          rw (pulse, state, e, there)
            (rw zero_left at (refresh_blinds-outcome arrivals last 0 nodes h))
    ]
  where
    zero_left : 0 + length (blinds nodes) ≡ length (blinds nodes)
    zero_left = omega arith

-- The first failure that a pulse ended with while the goroutine ran.
abbrev pub first_failure : Bool → List Event → Option CallError
first_failure running [] = none
first_failure running (start ∷ events) = first_failure true events
first_failure running (stop ∷ events) = first_failure false events
first_failure running (read ∷ events) = first_failure running events
first_failure running (pulsed (ok u) ∷ events) = first_failure running events
first_failure running (pulsed (err e) ∷ events) =
    if running then some e else first_failure running events

abbrev pub IsUnread : Event → Type 0
IsUnread read = ⊥
IsUnread e = Unit

-- While its owner does not read it, the channel keeps the first failure that a pulse ends with, or the
-- one that it held before: the later ones are dropped.
pub failure_ch-first :
    (h : Heartbeat) (events : List Event)
    → All IsUnread events
    → (beats h events).failure_ch
      ≡ elim h.failure_ch [ none ↦ first_failure h.running events | some e ↦ some e ]
unfolding beats beat
failure_ch-first h [] u = ground arith
failure_ch-first h (start ∷ events) u = ground (arith, failure_ch-first (beat h start) events u.1)
failure_ch-first h (stop ∷ events) u = ground (arith, failure_ch-first (beat h stop) events u.1)
failure_ch-first h (read ∷ events) u = absurd u.0
failure_ch-first h (pulsed (ok x) ∷ events) u = failure_ch-first h events u.1
failure_ch-first h (pulsed (err e) ∷ events) u =
    ground (arith, failure_ch-first (beat h (pulsed (err e))) events u.1)
