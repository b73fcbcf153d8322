-- ===== src/Control/Types.antt =====
-- The types of internal/control/control.go and errors.go, and of internal/ocpp/chargepoint.go.
use headless_csms.Prelude.{String, Bool, true, false, List, if◌then◌else◌, ℤ, pos, ltb_ℤ, Result}
use headless_csms.Clock.{Time}
use headless_csms.State.Store.{StoreError}
use headless_csms.Core.Types.{Service}
use headless_csms.Core.Reservations.{CoreError}

pub data CommandStatus : Type 0 where
  accepted rejected occupied faulted unavailable unlocked unlock_failed not_supported
        not_implemented unknown :
      CommandStatus

-- The struct `ocpp.Result`.
pub record Answer : Type 0 where
  pub status : CommandStatus
  pub raw : String

-- The errors of a call: no answer in time, no connection, an EVSE that the adapter does not know, a
-- CALLERROR with its code, or anything else.
pub data CallError : Type 0 where
  timed_out not_connected : CallError
  unknown_to_station rpc_error other : String → CallError

pub record ReserveRequest : Type 0 where
  pub reservation_id : ℤ
  pub evse_uid : String
  pub id_tag : String
  pub expires_at : Time

pub record RemoteStartRequest : Type 0 where
  pub remote_start_id : ℤ
  pub evse_uid : String
  pub id_tag : String

-- The methods of the interface `ocpp.ChargePoint` that send a command, with their arguments.
pub data Command : Type 0 where
  reserve_now : ReserveRequest → Command
  cancel_reservation : ℤ → Command
  remote_start : RemoteStartRequest → Command
  remote_stop unlock_connector trigger : String → Command

-- The interface `ocpp.ChargePoint`.
pub record Station : Type 0 where
  pub id : String
  pub call : Command → Result CallError Answer

pub data Op : Type 0 where
  op_reserve op_cancel op_start op_stop op_unlock op_trigger_status : Op

pub data ControlError : Type 0 where
  of_core : CoreError → ControlError
  of_call : CallError → ControlError
  not_configured no_reservation no_active_transaction : String → ControlError
  shutting_down : ControlError
  -- `RefusedError`: what was asked, on which EVSE, and the answer.
  refused : Op → String → Answer → ControlError
  -- "recording the remote start: %w".
  recording_start : StoreError → ControlError
  -- "%s has %d active transactions (%s); refusing to guess which to stop".
  ambiguous : String → List String → ControlError
  -- "reservation %d vanished while it was pending".
  vanished : ℤ → ControlError

pub record ReserveParams : Type 0 where
  pub evse_uid : String
  pub id_tag : String
  pub expires_at : Time
  pub expires_in : ℤ
  pub source : String
  pub ocpi_reservation_id : String
  pub response_url : String

-- `DefaultReservationLength` in nanoseconds, and the length of a reservation that gives no end.
unfoldable pub reserve_length : ℤ → ℤ
reserve_length n = if ltb_ℤ (pos 0) n then n else pos 900000000000

-- What an action leaves: the core, the commands it has sent, and what it returns.
pub record Done {ℓ} (A : Type ℓ) : Type ℓ where
  pub service : Service
  pub sent : List Command
  pub result : Result ControlError A

abbrev pub is_accepted : CommandStatus → Bool
is_accepted accepted = true
is_accepted _ = false

abbrev pub is_unlocked : CommandStatus → Bool
is_unlocked unlocked = true
is_unlocked _ = false
