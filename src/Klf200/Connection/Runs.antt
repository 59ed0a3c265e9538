-- ===== src/Klf200/Connection/Runs.antt =====
-- Runs of the read loop of connection.go: two frames in four chunks, the last of them cut inside an
-- escape.
use velux_to_mqtt_gw.Prelude.{ℕ, ◌+◌, List, [], ◌∷◌, ◌++◌, ◌≡◌, ◌≢◌, refl, arith}
use velux_to_mqtt_gw.Protocol.Slip.{slip_pack, slip_encode}
use velux_to_mqtt_gw.Protocol.Wire.{calc_crc, extract_from_frame}
use velux_to_mqtt_gw.Protocol.Frames.Simple.{unmarshal_get_state_confirmation}
use velux_to_mqtt_gw.Protocol.Frames.Commands.{unmarshal_session_finished}
use velux_to_mqtt_gw.Protocol.Message
use velux_to_mqtt_gw.Protocol.Message.{command}
use velux_to_mqtt_gw.Protocol.Payload.{unmarshal_payload}
use velux_to_mqtt_gw.Protocol.Constructors.{constructors}
use velux_to_mqtt_gw.Protocol.Creation.{
  create_frame, register_frame, register_all, frame_registry, frame_from_raw,
}
use velux_to_mqtt_gw.Klf200.Connection.{read_loop, read_chunk}
use velux_to_mqtt_gw.Klf200.Connection.Ends.{Drains, read_chunk-Drains}
use velux_to_mqtt_gw.Klf200.Connection.Life.{
  Conn, new_conn, install, disconnect, loop_ended, signal_lost, Reach, fresh, next, connects,
  disconnects, ends, signals, IsSignalled, Reach-IsSignalled,
}
use velux_to_mqtt_gw.Klf200.Connection.Callbacks.{
  Callbacks, register_callback, unregister_callback, dispatch,
}
use velux_to_mqtt_gw.Klf200.Connection.Handles.{IsNumbered, register_callback-isolated}
use velux_to_mqtt_gw.Klf200.Connection.Chunks.{
  packs, frames_of, joined, AreSent, read_loop-chunks, read_loop_stalls,
}

-- The state of the gateway, and the end of session 192.
abbrev messages : List (List ℕ)
messages =
    (0 ∷ 9 ∷ 0 ∷ 13 ∷ 1 ∷ 2 ∷ 0 ∷ 0 ∷ 0 ∷ 0 ∷ 7 ∷ []) ∷ (0 ∷ 5 ∷ 3 ∷ 4 ∷ 0 ∷ 192 ∷ 194 ∷ []) ∷ []

abbrev chunks : List (List ℕ)
chunks =
    (192 ∷ 0 ∷ 9 ∷ 0 ∷ [])
    ∷ (13 ∷ 1 ∷ 2 ∷ 0 ∷ 0 ∷ 0 ∷ 0 ∷ 7 ∷ 192 ∷ 192 ∷ 0 ∷ 5 ∷ 3 ∷ 4 ∷ 0 ∷ 219 ∷ [])
    ∷ []
    ∷ (220 ∷ 194 ∷ 192 ∷ [])
    ∷ []

frames_of-messages :
    frames_of messages
    ≡ Message.get_state_confirmation (record { gateway_state = 1; gateway_sub_state = 2 })
      ∷ Message.session_finished (record { session_id = 192 })
      ∷ []
unfolding frames_of frame_from_raw extract_from_frame calc_crc create_frame frame_registry
    register_all register_frame constructors command unmarshal_payload
    unmarshal_get_state_confirmation unmarshal_session_finished
frames_of-messages = refl

messages-AreSent : AreSent messages
messages-AreSent = ground arith

messages-packed : joined chunks ≡ packs messages
unfolding joined packs slip_pack slip_encode
messages-packed = refl

read_loop-chunks_example : read_loop [] chunks ≡ (frames_of messages, [])
read_loop-chunks_example = read_loop-chunks chunks messages messages-AreSent messages-packed

read_loop_stalls_example : (read_loop (7 ∷ []) chunks).0 ≡ []
read_loop_stalls_example = read_loop_stalls 7 [] chunks (omega arith)

abbrev first : List ℕ
first = 192 ∷ 0 ∷ 5 ∷ 3 ∷ 4 ∷ 0 ∷ 192 ∷ []

first-full : first ≢ []
first-full = ground arith

read_chunk-Drains_example : Drains ([] ++ first) (read_chunk [] first).0 (read_chunk [] first).1
read_chunk-Drains_example = read_chunk-Drains [] first first-full

-- A connection replaces the first, whose loop ends behind the new one's installation.
abbrev replaced : Conn
unfolding install loop_ended signal_lost
replaced = signal_lost 1 (loop_ended 1 (install (disconnect (install new_conn))))

replaced-reached : Reach replaced
unfolding new_conn install disconnect loop_ended signal_lost
replaced-reached =
    next
      (next (next (next (next fresh (connects _)) (disconnects _)) (connects _))
        (ends _ 1 (omega arith)))
      (signals _ 1 refl)

Reach-IsSignalled_example : IsSignalled replaced
Reach-IsSignalled_example = Reach-IsSignalled replaced-reached

abbrev callers : Callbacks ℕ
callers = record { next_cb_id = 3; callbacks = (1, 10) ∷ (3, 30) ∷ [] }

callers-IsNumbered : IsNumbered callers
callers-IsNumbered = (omega arith, (omega arith, omega arith))

register_callback-isolated_example :
    (dispatch (λ n. n + 1) (register_callback 40 callers).1
      ≡ dispatch (λ n. n + 1) callers ++ 41 ∷ [])
    × ((unregister_callback
          (register_callback 40 callers).0
          (register_callback 40 callers).1).callbacks
        ≡ callers.callbacks)
    × (unregister_callback 1 (register_callback 40 callers).1
        ≡ (register_callback 40 (unregister_callback 1 callers)).1)
    × IsNumbered (register_callback 40 callers).1
    × IsNumbered (unregister_callback 1 callers)
register_callback-isolated_example =
    register_callback-isolated (λ n. n + 1) 40 callers 1 callers-IsNumbered (omega arith)
