-- ===== src/App/State.antt =====
-- The state of the `App` of app/app.go, its calls to the client, to the covers and to the broker, and
-- the world that answers them. Times are nanoseconds, waits seconds.
use velux_to_mqtt_gw.Prelude.{
  ℕ, suc, List, ◌∷◌, Bool, true, false, Option, none, some, ◌≡◌, refl, ◌⊎◌, inl, inr,
}

-- The calls that can fail, `klfClient` and `Register` of `coverManager`, and the best-effort
-- `HouseStatusMonitorEnable`.
pub data Call : Type 0 where
  connect password_enter set_utc monitor_enable load_nodes reboot disconnect register : Call

-- The errors of the functions here, with what each wraps.
pub data Failure : Type 0 where
  -- `ctx.Err()`, or a call that the shutdown or its deadline cut short
  canceled deadline_exceeded : Failure
  -- the client's own "already connected"
  already_connected : Failure
  refused : ℕ → Failure
  no_publish_wiring no_topic debounced : Failure
  nil_error : Failure
  exhausted : ℕ → Failure → Failure
  register_failed : Failure → Failure
  bring_up_failed : Failure → Failure
  startup_reboot : Failure → Failure

-- Why a wedge is over.
pub data Restored : Type 0 where
  contact_restored recovered : Restored

-- The log lines that tell an outcome.
pub data Report : Type 0 where
  power_cycling : ℕ → Report
  still_debounced aborted_by_shutdown power_cycle_failed : Report
  unreachable_automatic unreachable_manual : Report
  restored : Restored → Report

pub data Event : Type 0 where
  called : Call → Event
  published : (topic payload : List ℕ) → (retained : Bool) → Event
  waited : ℕ → Event
  heartbeat_started heartbeat_stopped : Event
  marked_unavailable marked_available : Event
  closed_all : Event
  loops_started loops_stopped : Event
  reported : Report → Event

-- The world: what it answers may depend on all that has happened. `reply` is asked with the call at
-- the head of the trace, and `ctx_done` and `clock` with the trace as it stands.
pub record World : Type 0 where
  pub reply : List Event → Option Failure
  pub ctx_done : List Event → Option Failure
  pub clock : List Event → ℕ

-- The seams of `newApp` that may be nil: `a.client` and `a.publishFn`.
pub record Wiring : Type 0 where
  pub has_client : Bool
  pub has_publish : Bool

pub record App : Type 0 where
  -- `a.heartbeat` is set; `stray` counts running heartbeats that it no longer names.
  pub heartbeat : Bool
  pub stray : ℕ
  pub wedged : Bool
  pub last_contact : ℕ
  pub last_power_cycle : ℕ
  -- The client's connection, and what the covers' availability topics show.
  pub connected : Bool
  pub available : Bool
  -- `stopOnce` has run.
  pub stopped : Bool
  -- What happened, the newest first.
  pub trace : List Event

-- What a method returns, and the state it leaves.
pub data Outcome : Type 0 where
  succeeded : App → Outcome
  failed : Failure → App → Outcome

abbrev pub after : Outcome → App
after (succeeded s) = s
after (failed e s) = s

pub Outcome-cases :
    (o : Outcome) → ((e : Failure) × (s : App) × (o ≡ failed e s)) ⊎ ((s : App) × (o ≡ succeeded s))
Outcome-cases (succeeded s) = inr (s, refl)
Outcome-cases (failed e s) = inl (e, s, refl)

abbrev pub event : Event → App → App
event e s = record s { trace = e ∷ s.trace }

unfoldable pub record_contact : World → App → App
record_contact w s = record s { last_contact = w.clock s.trace }

-- `startHeartbeat` overwrites the field, whatever stands there.
unfoldable pub start_heartbeat : App → App
start_heartbeat s = record s {
  heartbeat = true;
  stray = elim s.heartbeat [ true ↦ suc s.stray | false ↦ s.stray ];
  trace = heartbeat_started ∷ s.trace;
}

unfoldable pub stop_heartbeat : App → App
stop_heartbeat s = record s { heartbeat = false; trace = heartbeat_stopped ∷ s.trace }

abbrev pub publish : List ℕ → List ℕ → App → App
publish topic payload s = event (published topic payload false) s

unfoldable pub mark_all_unavailable : App → App
mark_all_unavailable s = record s { available = false; trace = marked_unavailable ∷ s.trace }

unfoldable pub mark_all_available : App → App
mark_all_available s = record s { available = true; trace = marked_available ∷ s.trace }

-- `Client.Disconnect` drops the connection whatever it returns, and no caller uses its error.
unfoldable pub drop_session : App → App
drop_session s = record s { connected = false; trace = called disconnect ∷ s.trace }

-- A call whose error matters to its caller.
unfoldable pub ask : World → Call → App → Outcome
ask w c s = elim (w.reply (called c ∷ s.trace)) [
  | some e ↦ failed e (event (called c) s)
  | none ↦ succeeded (event (called c) s)
]
