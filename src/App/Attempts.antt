-- ===== src/App/Attempts.antt =====
-- How often the recoveries of app/app.go try, and how long they wait.
use velux_to_mqtt_gw.Prelude.{
  ℕ, suc, ◌+◌, ◌≤◌, List, [], ◌∷◌, ◌≡◌, ◌≢◌, refl, arith, none, length, Option-cases, inl, inr,
}
use velux_to_mqtt_gw.App.State.{
  called, connect, waited, exhausted, Failure, Event, World, Wiring, App, Outcome, Outcome-cases,
  succeeded, failed, after, event, record_contact, start_heartbeat, stop_heartbeat, drop_session,
  ask, nil_error, reboot,
}
use velux_to_mqtt_gw.App.Connect.{connect_client, connect_and_load, register_covers}
use velux_to_mqtt_gw.App.Recover.{
  bring_up, retry, retry_schedule, reboot_backoff_schedule, do_reboot,
}
use velux_to_mqtt_gw.App.Steps.{Either}

-- The connects of a trace, and the seconds it waited.
unfoldable pub connects : List Event → ℕ
connects [] = 0
connects (called connect ∷ trace) = suc (connects trace)
connects (e ∷ trace) = connects trace

unfoldable pub seconds_waited : List Event → ℕ
seconds_waited [] = 0
seconds_waited (waited n ∷ trace) = n + seconds_waited trace
seconds_waited (e ∷ trace) = seconds_waited trace

abbrev total : List ℕ → ℕ
total [] = 0
total (n ∷ ns) = n + total ns

-- So many connects and seconds, and no more.
abbrev pub Spent : ℕ → ℕ → App → Type 0
Spent tries seconds s = (connects s.trace ≡ tries) × (seconds_waited s.trace ≡ seconds)

abbrev Within : ℕ → ℕ → App → Type 0
Within tries seconds s = (connects s.trace ≤ tries) × (seconds_waited s.trace ≤ seconds)

attempt-Spent :
    (w : World) (wiring : Wiring) (tries seconds wait : ℕ) (s : App)
    → Spent tries seconds s
    → Either
        (Spent (suc tries) (wait + seconds))
        (λ t. Spent (suc tries) (wait + seconds) (drop_session t))
        (connect_and_load w wiring (event (waited wait) s))
unfolding connect_and_load connect_client ask record_contact drop_session connects seconds_waited
attempt-Spent w wiring tries seconds wait s h = ground arith

bring_up-Spent :
    (w : World) (tries seconds : ℕ) (s : App)
    → Spent tries seconds s
    → Spent tries seconds (after (bring_up w s))
unfolding bring_up register_covers start_heartbeat connects seconds_waited
bring_up-Spent w tries seconds s h = ground arith

Within-of_Spent :
    {tries seconds : ℕ} (more later : ℕ) (s : App)
    → Spent tries seconds s
    → Within (tries + more) (seconds + later) s
Within-of_Spent more later s h = ground arith

retry-Within :
    (w : World) (wiring : Wiring) (slots : ℕ) (last : Failure) (waits : List ℕ) (tries seconds : ℕ)
    (s : App)
    → Spent tries seconds s
    → Within
        (tries + length waits)
        (seconds + total waits)
        (after (retry w wiring slots last waits s))
unfolding retry
retry-Within w wiring slots last [] tries seconds s h = ground arith
retry-Within w wiring slots last (wait ∷ waits) tries seconds s h =
    elim (Option-cases (w.ctx_done s.trace)) [
      | inr (e, done) ↦
          rw (retry, done) (Within-of_Spent (length (wait ∷ waits)) (total (wait ∷ waits)) s h)
      | inl go ↦
          let spent = attempt-Spent w wiring tries seconds wait s h in
          elim (Outcome-cases (connect_and_load w wiring (event (waited wait) s))) [
            | inl (e, t, down) ↦
                let rest =
                  retry-Within w wiring slots e waits (suc tries) (wait + seconds) (drop_session t)
                    (rw down at spent) in
                rw (retry, go, down) (ground arith)
            | inr (t, up) ↦
                let ups = bring_up-Spent w (suc tries) (wait + seconds) t (rw up at spent) in
                rw (retry, go, up) (ground arith)
          ]
    ]

-- A reboot of the gateway makes at most seven attempts to connect and waits at most 317 seconds between
-- them, and so does what follows the dwell of a power cycle.
pub do_reboot-within :
    (w : World) (wiring : Wiring) (s : App)
    → (connects (after (do_reboot w wiring s)).trace ≤ connects s.trace + 7)
      × (seconds_waited (after (do_reboot w wiring s)).trace ≤ seconds_waited s.trace + 317)
      × (connects (after (retry_schedule w wiring s)).trace ≤ connects s.trace + 7)
      × (seconds_waited (after (retry_schedule w wiring s)).trace ≤ seconds_waited s.trace + 317)
unfolding do_reboot retry_schedule reboot_backoff_schedule stop_heartbeat drop_session connects
    seconds_waited
do_reboot-within w wiring s =
    let begun = drop_session (event (called reboot) (stop_heartbeat s)) in
    let rebooted =
      retry-Within w wiring 7 nil_error reboot_backoff_schedule (connects s.trace)
        (seconds_waited s.trace) begun (refl, refl) in
    let cycled =
      retry-Within w wiring 7 nil_error reboot_backoff_schedule (connects s.trace)
        (seconds_waited s.trace) s (refl, refl) in
    (rebooted.0, rebooted.1, cycled.0, cycled.1)

-- A gateway that takes no connection.
abbrev pub IsDeaf : World → Type 0
IsDeaf w = (trace : List Event) → w.reply (called connect ∷ trace) ≢ none

abbrev pub IsUncancelled : World → Type 0
IsUncancelled w = (trace : List Event) → w.ctx_done trace ≡ none

connect_and_load-deaf :
    (w : World) (wiring : Wiring) (s : App)
    → IsDeaf w
    → (t : App) → connect_and_load w wiring s ≢ succeeded t
unfolding connect_and_load connect_client
connect_and_load-deaf w wiring s deaf t e = ground (arith, deaf s.trace)

-- The last error is the one that the last attempt met.
abbrev pub IsExhausted : ℕ → ℕ → ℕ → Outcome → Type 0
IsExhausted slots tries seconds (succeeded s) = ⊥
IsExhausted slots tries seconds (failed (exhausted n e) s) = (n ≡ slots) × Spent tries seconds s
IsExhausted slots tries seconds (failed e s) = ⊥

retry-deaf :
    (w : World) (wiring : Wiring) (slots : ℕ)
    → IsDeaf w
    → IsUncancelled w
    → (last : Failure) (waits : List ℕ) (tries seconds : ℕ) (s : App) → Spent tries seconds s
    → IsExhausted slots
        (tries + length waits)
        (seconds + total waits)
        (retry w wiring slots last waits s)
unfolding retry
retry-deaf w wiring slots deaf free last [] tries seconds s h = ground arith
retry-deaf w wiring slots deaf free last (wait ∷ waits) tries seconds s h =
    let spent = attempt-Spent w wiring tries seconds wait s h in
    elim (Outcome-cases (connect_and_load w wiring (event (waited wait) s))) [
      | inr (t, up) ↦ absurd (connect_and_load-deaf w wiring (event (waited wait) s) deaf t up)
      | inl (e, t, down) ↦
          let rest =
            retry-deaf w wiring slots deaf free e waits (suc tries) (wait + seconds)
              (drop_session t) (rw down at spent) in
          rw
            (
              retry,
              free s.trace,
              down,
              ← shift tries (length waits),
              ← exchange wait seconds (total waits),
            )
            rest
    ]
  where
    shift : (a b : ℕ) → suc a + b ≡ a + suc b
    shift a b = omega arith

    exchange : (a b c : ℕ) → a + b + c ≡ b + (a + c)
    exchange a b c = omega arith

-- A reboot does not give up early: where the gateway takes no connection and nobody cancels, it makes
-- all seven attempts, waits the whole 317 seconds, and reports that they are exhausted.
pub do_reboot-deaf :
    (w : World) (wiring : Wiring) (s : App)
    → IsDeaf w
    → IsUncancelled w
    → IsExhausted 7 (connects s.trace + 7) (seconds_waited s.trace + 317) (do_reboot w wiring s)
unfolding do_reboot retry_schedule reboot_backoff_schedule stop_heartbeat drop_session connects
    seconds_waited
do_reboot-deaf w wiring s deaf free =
    retry-deaf w wiring 7 deaf free nil_error reboot_backoff_schedule (connects s.trace)
      (seconds_waited s.trace) (drop_session (event (called reboot) (stop_heartbeat s)))
      (refl, refl)
