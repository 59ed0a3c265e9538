-- ===== src/Lib.antt =====
-- The bridge between a Velux KLF200 gateway and an MQTT broker: its wire protocol, the client of the
-- gateway, the covers it shows to Home Assistant, its configuration, and the application that keeps the
-- gateway reachable.
--
-- Program and modules
--   Protocol/Slip, Wire      app/klf200/protocol/slip.go and frame.go: a message is packed between two
--                            END bytes, and holds a frame with a length byte, a command and a checksum.
--   Protocol/Parameter       parameter.go: raw values of two bytes, positions, intensities, limitations.
--   Protocol/Frames          frame_commands.go, frame_limitation_hsm.go, frame_nodes.go,
--                            frame_state_network.go, frame_auth_system.go, frame_scenes_wink.go: a
--                            record for each frame type, with `marshal_…` and `unmarshal_…` for its
--                            payload.
--   Protocol/Message         the interface `Frame`: the sum of the frame types, and their commands.
--   Protocol/Payload         their methods `MarshalPayload` and `UnmarshalPayload`, `MarshalFrame`.
--   Protocol/Constructors    what the `init` functions register; Protocol/Creation has the registry of
--                            creation.go and `FrameFromRaw`.
--   Protocol/Fits, ReadBack  which frames come back as they were sent, and that they are read back;
--                            Protocol/Delivery takes a frame from its fields to the stream and back.
--   Klf200/Session, Nodes    app/klf200/session.go and nodes.go: session ids and the node collection.
--   Klf200/Node, Device      node.go, node_helper.go, opening_device.go, other_devices.go: the node, its
--                            construction, and the requests that move it.
--   Klf200/Connection        connection.go: the read loop, over the chunks that the reads return, the
--                            callbacks, and the life of a connection under any interleaving of Connect,
--                            Disconnect and the end of its loop.
--   Klf200/Updater           node_updater.go: a notification changes the node it names.
--   Klf200/Command           event.go, command.go, limitation.go, node_loading.go: an exchange is the
--                            fold of a handler over the frames that arrive while it waits, behind the
--                            write of its request. Klf200/Queries has the calls that read from a node.
--   Klf200/System            auth_system.go and house_monitor.go: the calls that log in, read what the
--                            gateway is, and switch it.
--   Klf200/Scenes            scenes.go: the scenes, how they are loaded and run.
--   Klf200/Heartbeat         heartbeat.go: the pulse, and the goroutine that sends it.
--   Bridge/State, Cover      app/bridge/cover_state.go and cover.go: what a cover publishes, and what a
--                            command from the broker makes the node do.
--   Bridge/Ids, Discovery    ids.go and discovery.go: ids and topics, and what Home Assistant is told.
--   Bridge/Manager           manager.go, and `Start` of cover.go and the publishes of mqtt.go: the map of
--                            covers, and everything that has been published.
--   Config                   app/config/config.go: defaults, validation, the derived switches.
--   App                      app/app.go: App/State has the state, the calls and the world, App/Connect,
--                            App/Recover, App/Health and App/Life have the methods. App/Moves has the
--                            step relation whose steps are the writes and calls of the methods, from
--                            the fresh app on, and the invariants follow by induction on it.
-- The application connects through the client, registers the covers of the loaded nodes, and calls the
-- recoveries from its health check and its restart loop; a cover reads the node that the updater writes,
-- and its commands go through the exchanges of the client to the frames of the protocol.
--
-- How the code is read
--   A byte is a number below 256, and arithmetic on uint8 and uint16 wraps with `% 2 ^ w`; a Go int is a
--   `ℤ`, unbounded. A string is the list of its bytes. A Go map is an association list, a struct a
--   record, an interface a sum, `(T, error)` an option or a result with the model's own errors.
--   A method of the application is a function of the state, which holds the list of all that happened.
--   The world answers every call, and tells the time and whether the context is done, by a function of
--   that list: the theorems hold for all such functions. A method that holds `resetMu` runs alone.
--   `Register` is one call: where it fails, the covers that it had started count as before it.
--   The loop of `doReboot` and `doPowerCycle` is a recursion on `rebootBackoffSchedule`. The loop over
--   the packets of the read loop runs on fuel: the length of the stream, of which each packet takes two
--   bytes or more.
--
-- Not modelled
--   TLS and tickers; a connection's callbacks are called in one step; the frame with the gateway's
--   local time and its registration; in the application, the loss of a connection before it is asked
--   for (it is in Klf200/Connection); statuses with a map of parameters and commands with functional
--   parameters in `Fits`, which have their codecs but are not read back whole; the encoding of JSON
--   and the MQTT client library; letters beyond Latin-1 and malformed UTF-8 in the lower case of a
--   name; reading the configuration's file, environment and JSON; logs other than those that tell
--   the outcome of a recovery; app/main.go.
pub mod Prelude
pub mod Protocol
pub mod Config
pub mod Klf200
pub mod Bridge
pub mod App
