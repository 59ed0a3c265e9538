-- ===== src/App/Connect.antt =====
-- `connectAndLoad` of app/app.go, over the client's own `Connect`.
use velux_to_mqtt_gw.Prelude.{◌∷◌, true, none, some, if◌then◌else◌}
use velux_to_mqtt_gw.App.State.{
  connect, password_enter, set_utc, monitor_enable, load_nodes, register, already_connected, called,
  World, Wiring, App, Outcome, succeeded, failed, event, record_contact, ask,
}

-- `a; if err != nil { return err }; b`
infixl 5 ◌then_try◌
abbrev pub ◌then_try◌ : Outcome → (App → Outcome) → Outcome
succeeded s then_try f = f s
failed e s then_try f = failed e s

-- `Client.Connect`: a client that is connected refuses, without asking the gateway.
unfoldable pub connect_client : World → App → Outcome
connect_client w s =
    if s.connected
    then failed already_connected (event (called connect) s)
    else elim (w.reply (called connect ∷ s.trace)) [
      | some e ↦ failed e (event (called connect) s)
      | none ↦ succeeded (record s { connected = true; trace = called connect ∷ s.trace })
    ]

-- The two best-effort calls, whose errors are logged only.
abbrev pub sync_clock : App → App
sync_clock s = event (called set_utc) s

abbrev pub enable_monitor : Wiring → App → App
enable_monitor wiring s = if wiring.has_client then event (called monitor_enable) s else s

unfoldable pub connect_and_load : World → Wiring → App → Outcome
connect_and_load w wiring s =
    connect_client w s
    then_try (λ s. ask w password_enter s)
    then_try (λ s. ask w load_nodes (enable_monitor wiring (sync_clock s)))
    then_try (λ s. succeeded (record_contact w s))

-- `a.cm.Register`: every cover that starts publishes `online`; the error is the first cover's.
unfoldable pub register_covers : World → App → Outcome
register_covers w s = elim (w.reply (called register ∷ s.trace)) [
  | some e ↦ failed e (event (called register) s)
  | none ↦ succeeded (record s { available = true; trace = called register ∷ s.trace })
]
