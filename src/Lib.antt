-- ===== src/Lib.antt =====
-- A verification library for cpms, a headless charging station management system: it talks OCPP 1.6-J
-- to one station, keeps the station's state, reservations and sessions, and survives restarts.
--
-- The program's parts, and how they interact:
--   * internal/core is the domain. One mutex guards its state; an operation is a locked section, then
--     perhaps a write to the store, then events on the bus. The protocol adapters report what the
--     station says, and internal/control acts on it.
--   * internal/state is the state file, which core writes after every change that must survive.
--   * internal/control turns an action into a reservation or an id in core, a command to the station
--     and the reading of its answer; internal/control/socket takes the actions from other processes.
--   * internal/ocpp/csms shakes hands with a station and registers its connection; it tells core when
--     the station is there and when it has gone.
--   * internal/ocpp/ocppj frames the messages of a connection, matches answers with calls, and gives
--     the station's calls one by one to a handler, of which internal/ocpp/v16 has the one of OCPP 1.6.
--
-- Which module models what:
--   * Prelude: tests, keys, the 64-bit int, lists, and maps as association lists, with their laws.
--   * Text and Clock: what is used of strconv, strings and time.
--   * Config: internal/config/config.go, the values and the two lookups of an EVSE. Config.Checks,
--     Config.Evses and Config.Validate: validate.go, enums.go and errors.go, with what is used of fmt,
--     net, net/url, strconv and time in the argument `Std`.
--   * State, State.Store: internal/state/state.go and store.go. State.Json and State.Decode have the
--     struct tags as encoders and decoders of JSON values, a file being such a value or a syntax
--     error, and no object having a key twice. Each system call of a write succeeds or fails as an
--     `Outcome` says, a rename being atomic; `write` lists every disk that can be seen on the way.
--     State.RoundTrip and State.Laws have the theorems.
--   * Core.Status, Core.Event, Core.Types: status.go, event.go, and the structs of internal/core.
--   * Core.ChargePoint, Core.Service and Core.Snapshot: service.go. `x_locked` is the section of `X`
--     that holds the mutex, `x` the whole operation; readings of the clock are arguments.
--   * Core.Persist: persist.go and `New`. Core.Reservations: reservations.go, where a timer is a value
--     and its firing the operation `expire`. Core.Transactions: transactions.go.
--   * Core.Steps: the sections, writes and publications as the steps of any interleaving; Table and
--     Statuses have what every interleaving keeps.
--   * Control: internal/control/control.go and errors.go, with the interface and the statuses of
--     internal/ocpp/chargepoint.go. The station is an argument that answers each command, and
--     `during` is what other goroutines do to core while it is asked.
--   * Control.Socket: dispatch and classify of internal/control/socket/server.go. A response holds the
--     snapshot from which a status is made; what a probe says is an argument.
--   * Ocpp, Ocpp.Frame: internal/ocpp/ocpp.go and internal/ocpp/ocppj/frame.go; encoding/json is the
--     argument `Json`, and `IsJson` what is documented of it.
--   * Ocpp.Conn: internal/ocpp/ocppj/conn.go. Conn itself has how a CALL is answered; Conn.Step has the
--     connection as a relation, in which each goroutine and each caller of `Call` goes on by one
--     access to what they share. `Reach` is a run, with all the messages it has read. Timeouts and
--     cancelled contexts are steps that may happen.
--   * Ocpp.V16: internal/ocpp/v16/status.go, the tables of OCPP 1.6 statuses. V16.Messages and
--     V16.Handler: messages.go and handler.go; the decoding of a payload is the argument `Wire`, and
--     the clocks and the outcomes of writes are a `Moment`. V16.ChargePoint: chargepoint.go, the
--     commands of Control as messages to a `Caller`.
--   * Csms: internal/ocpp/csms/server.go. Csms.Handshake is `ServeHTTP` up to the upgrade;
--     Csms.Registry is `serveConn` as steps between which other goroutines run, and Csms.Whole the
--     same steps taken together.
--   * Examples: each theorem at one concrete input.
--
-- Bounds: an int is 64 bits wide and `succ` wraps; drop counters and sequence numbers are uint64 and
-- wrap. Loops are structural; the only fuel is that of `digits`, one more than the number, which has
-- fewer digits than that. A Go map is an association list without repeated keys, and the order of a
-- `range` over it is that list's.
--
-- Taken as one step: in `persist`, the reading of core and the update of the store, between which other
-- sections could run.
--
-- Not modelled: the formatting of events, since it changes no state; the loading of a configuration,
-- the questions that a station is asked about its features, OCPI and the simulator, none of which
-- the results need; of the connection and the servers, the WebSocket, the listening, the construction
-- and the layout of answers as JSON; the command line, locks on the state directory and directory
-- syncing, which are glue and system calls.
pub mod Clock
pub mod Config
pub mod Control
pub mod Core
pub mod Csms
pub mod Examples
pub mod Ocpp
pub mod Prelude
pub mod State
pub mod Text
