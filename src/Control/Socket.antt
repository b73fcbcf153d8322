-- ===== src/Control/Socket.antt =====
-- internal/control/socket: `dispatch` and `classify` of server.go, over the types of protocol.go. A
-- response holds its result before it is written as JSON.
pub mod Local
pub mod Actions
use Prim.Native.String.{◌++◌ as append}
use headless_csms.Prelude.{
  String, Bool, true, false, not, ◌&&◌, ◌||◌, List, [], ◌∷◌, Option, none, some, if◌then◌else◌, ℤ,
  pos, ltb_ℤ, lookup, ◌==◌, string_eq, int_eq, Result, ok, err,
}
use headless_csms.Text.{itoa}
use headless_csms.Clock.{Time, utc, zero_time}
use headless_csms.Config.{Config}
use headless_csms.State.Store.{Outcome}
use headless_csms.Core.Types.{Service, Reservation}
use headless_csms.Core.Reservations.{already_reserved, unknown_evse}
use headless_csms.Core.Snapshot.{Snapshot, snapshot}
use headless_csms.Control.Types.{
  CommandStatus, rejected, occupied, faulted, unavailable, unlock_failed, not_supported,
  not_implemented, Answer, CallError, timed_out, not_connected, unknown_to_station, rpc_error,
  other, Command, Station, ControlError, of_core, of_call, not_configured, no_reservation,
  no_active_transaction, shutting_down, refused, ReserveParams, Done,
}
use headless_csms.Control.{reserve, cancel, start, stop, unlock, failing}

abbrev pub version : ℤ
version = pos 1

pub record Request : Type 0 where
  pub v : ℤ
  pub op : String
  pub evse : String
  pub id_tag : String
  pub expires_in : String

pub data Code : Type 0 where
  code_usage code_not_connected code_rejected code_occupied code_faulted code_timeout
        code_unlock_failed code_refused code_internal :
      Code

pub record SocketError : Type 0 where
  pub code : Code
  pub status : String
  pub call_error : String
  pub message : String

pub record ReserveResult : Type 0 where
  pub reservation_id : ℤ
  pub evse : String
  pub id_tag : String
  pub expires_at : Time

-- A probe is given as its text, and the status as the snapshot from which `BuildStatus` makes it.
pub data Payload : Type 0 where
  nothing : Payload
  reserved : ReserveResult → Payload
  probed : String → Payload
  status : Snapshot → String → Payload

abbrev pub Response : Type 0
Response = Result SocketError Payload

abbrev pub plain : Code → String → SocketError
plain code message = record { code = code; status = ""; call_error = ""; message = message }

-- The code for a status with which the station refuses.
abbrev pub code_of_status : CommandStatus → Code
code_of_status occupied = code_occupied
code_of_status faulted = code_faulted
code_of_status unavailable = code_faulted
code_of_status unlock_failed = code_unlock_failed
code_of_status not_supported = code_unlock_failed
code_of_status not_implemented = code_unlock_failed
code_of_status _ = code_rejected

-- The error of a call; a CALLERROR says if the station cannot do that.
abbrev pub classify_call : String → CallError → SocketError
classify_call text (rpc_error code) =
    if code == "NotImplemented" || code == "NotSupported"
    then record { code = code_unlock_failed; status = ""; call_error = code; message = text }
    else plain code_internal text
classify_call text timed_out = plain code_timeout text
classify_call text not_connected = plain code_not_connected text
classify_call text (unknown_to_station uid) = plain code_usage text
classify_call text (other why) = plain code_internal text

-- `classify`, with the text of the error.
unfoldable pub classify : String → ControlError → SocketError
classify text (refused op uid a) = record {
  code = code_of_status a.status;
  status = a.raw;
  call_error = "";
  message = text;
}
classify text (of_call e) = classify_call text e
classify text (of_core (already_reserved uid)) = plain code_refused text
classify text shutting_down = plain code_refused text
classify text (no_reservation uid) = plain code_refused text
classify text (no_active_transaction uid) = plain code_refused text
classify text (of_core (unknown_evse uid)) = plain code_internal text
classify text (not_configured uid) = plain code_usage text
classify text _ = plain code_internal text

-- What the server is given: what a probe says, which only reads; the text of an error, the verb %q, `time.ParseDuration`, the order of strings.
pub record Words : Type 0 where
  pub probe : Result {0, 0} ControlError String
  pub error_text : ControlError → String
  pub quote : String → String
  pub parse_duration : String → Option ℤ
  pub less : String → String → Bool

-- The readings of the clock and the outcomes of writes that an action needs, whether the control service
-- has been closed, and what other goroutines do to core meanwhile.
pub record Course : Type 0 where
  pub closed : Bool
  pub now : Time
  pub created : Time
  pub armed : Time
  pub at : Time
  pub first_write : Outcome
  pub second_write : Outcome
  pub during : Service → Service

-- What a request leaves: core, the commands it has sent, and the response.
pub record Served : Type 0 where
  pub service : Service
  pub sent : List Command
  pub response : Response

abbrev pub at_once : Service → Response → Served
at_once s r = record { service = s; sent = []; response = r }

pub data Action : Type 0 where
  gives_status probes reserves cancels starts stops unlocks : Action

abbrev pub actions : List (String × Action)
actions =
    ("status", gives_status)
    ∷ ("probe", probes)
    ∷ ("reserve", reserves)
    ∷ ("cancel", cancels)
    ∷ ("start", starts)
    ∷ ("stop", stops)
    ∷ ("unlock", unlocks)
    ∷ []

module _ (w : Words) where
  abbrev pub respond {ℓ} : {A : Type ℓ} → (A → Payload) → Result {0, ℓ} ControlError A → Response
  respond f (ok a) = ok (f a)
  respond f (err e) = err (classify (w.error_text e) e)

  -- `done`, and the same after `Reserve`.
  unfoldable pub served {ℓ} : {A : Type ℓ} → (A → Payload) → Done A → Served
  unfolding classify
  served f d = record { service = d.service; sent = d.sent; response = respond f d.result }

  module _ (cfg : Config) (commands : String → Result CallError Station) (charge_point_id : String)
      (k : Course) where
    abbrev pub reserve_params : Request → ℤ → ReserveParams
    reserve_params req d = record {
      evse_uid = req.evse;
      id_tag = req.id_tag;
      expires_at = zero_time;
      expires_in = d;
      source = "cli";
      ocpi_reservation_id = "";
      response_url = "";
    }

    abbrev pub reserve_result : Reservation → Payload
    reserve_result r = reserved (record {
      reservation_id = r.id;
      evse = r.evse_uid;
      id_tag = r.id_tag;
      expires_at = utc r.expires_at;
    })

    abbrev pub bad_expiry : String → SocketError
    bad_expiry text =
        plain code_usage (
          append "invalid expiry " (append (w.quote text) ": want a positive duration such as 15m"))

    -- The length that is asked for: zero if there is none.
    abbrev pub length_asked : String → Option ℤ → Result SocketError ℤ
    length_asked text none = err (bad_expiry text)
    length_asked text (some d) = if ltb_ℤ (pos 0) d then ok d else err (bad_expiry text)

    unfoldable pub expires_in : String → Result SocketError ℤ
    expires_in text = if text == "" then ok (pos 0) else length_asked text (w.parse_duration text)

    unfoldable pub reserve_served : Request → Service → Served
    unfolding expires_in served reserve
    reserve_served req s = elim (expires_in req.expires_in) [
      | err e ↦ at_once s (err e)
      | ok d ↦ served reserve_result (
          reserve cfg commands k.closed (reserve_params req d) k.now k.created k.armed k.at
            k.first_write k.second_write k.during s)
    ]

    unfoldable pub act : Action → Request → Service → Served
    unfolding reserve_served served cancel start stop unlock snapshot
    act gives_status req s = at_once s (ok (status (snapshot w.less s) charge_point_id))
    act probes req s = at_once s (respond probed w.probe)
    act reserves req s = reserve_served req s
    act cancels req s =
        served (λ u. nothing) (cancel cfg commands req.evse k.at k.first_write k.during s)
    act starts req s =
        served (λ u. nothing) (start cfg commands req.evse req.id_tag k.first_write k.during s)
    act stops req s = served (λ u. nothing) (stop cfg commands req.evse k.during s)
    act unlocks req s = served (λ u. nothing) (unlock cfg commands req.evse k.during s)

    abbrev pub bad_version : ℤ → SocketError
    bad_version v = plain code_usage (
        append "protocol version "
          (append (itoa v) " is not supported (this cpms speaks 1); use matching cpms binaries"))

    unfoldable pub dispatch : Request → Service → Served
    unfolding act
    dispatch req s =
        if req.v == version
        then elim (lookup req.op actions) [
          | some a ↦ act a req s
          | none ↦ at_once s (err (plain code_usage (append "unknown operation " (w.quote req.op))))
        ]
        else at_once s (err (bad_version req.v))
