-- ===== src/Ocpp/V16/ChargePoint.antt =====
-- internal/ocpp/v16/chargepoint.go and commands.go: the commands to a station as OCPP 1.6 messages.
pub mod Wired
pub mod Reserving
use Prim.Native.String.{◌++◌ as append}
use headless_csms.Prelude.{String, Option, none, some, ℤ, Result, ok, err}
use headless_csms.Text.{atoi}
use headless_csms.Clock.{rfc3339}
use headless_csms.Config.{Config, evse_by_uid}
use headless_csms.Control.Types.{
  Answer, CallError, unknown_to_station, other, Command, reserve_now, cancel_reservation,
  remote_start, remote_stop, unlock_connector, trigger, Station, ReserveRequest, RemoteStartRequest,
}
use headless_csms.Ocpp.V16.{map_command_status}

-- The requests, each with the fields that are sent.
pub data Request : Type 0 where
  reserve_now_req : (connector_id : ℤ) (expiry_date id_tag : String) (reservation_id : ℤ) → Request
  cancel_reservation_req : (reservation_id : ℤ) → Request
  remote_start_transaction_req : (connector_id : ℤ) (id_tag : String) → Request
  remote_stop_transaction_req : (transaction_id : ℤ) → Request
  unlock_connector_req : (connector_id : ℤ) → Request
  trigger_message_req : (requested_message : String) (connector_id : ℤ) → Request

-- A connection: `Call` with an action and a payload. `read_status` unmarshals the status of an answer,
-- and `quote` is the verb %q.
pub record Caller : Type 1 where
  pub Raw : Type 0
  pub id : String
  pub call : String → Request → Result CallError Raw
  pub read_status : Raw → Result String String
  pub quote : String → String

module _ (c : Caller) (cfg : Config) where
  abbrev pub status_read : String → Result String String → Result CallError Answer
  status_read action (err text) = err (other (append action (append " response: " text)))
  status_read action (ok status) =
      ok (record { status = map_command_status action status; raw = status })

  abbrev pub answered : String → Result CallError c.Raw → Result CallError Answer
  answered action (err e) = err e
  answered action (ok raw) = status_read action (c.read_status raw)

  -- `command`.
  unfoldable pub command : String → Request → Result CallError Answer
  command action req = answered action (c.call action req)

  -- `connectorID`, and what is done with it.
  unfoldable pub with_connector : String → (ℤ → Result CallError Answer) → Result CallError Answer
  unfolding evse_by_uid
  with_connector evse_uid send = elim (evse_by_uid cfg evse_uid) [
    | none ↦ err (unknown_to_station evse_uid)
    | some e ↦ send e.ocpp_connector_id
  ]

  unfoldable pub send_reserve_now : ReserveRequest → Result CallError Answer
  unfolding with_connector command
  send_reserve_now r = with_connector r.evse_uid (λ id.
      command "ReserveNow" (reserve_now_req id (rfc3339 r.expires_at) r.id_tag r.reservation_id))

  unfoldable pub send_cancel_reservation : ℤ → Result CallError Answer
  unfolding command
  send_cancel_reservation id = command "CancelReservation" (cancel_reservation_req id)

  unfoldable pub send_remote_start : RemoteStartRequest → Result CallError Answer
  unfolding with_connector command
  send_remote_start r =
      with_connector r.evse_uid
        (λ id. command "RemoteStartTransaction" (remote_start_transaction_req id r.id_tag))

  unfoldable pub send_remote_stop : String → Result CallError Answer
  unfolding command
  send_remote_stop transaction_id = elim (atoi transaction_id) [
    | none ↦ err (
        other (
          append "ocpp 1.6: transaction id "
            (append (c.quote transaction_id) " is not an integer")))
    | some id ↦ command "RemoteStopTransaction" (remote_stop_transaction_req id)
  ]

  unfoldable pub send_unlock_connector : String → Result CallError Answer
  unfolding with_connector command
  send_unlock_connector evse_uid =
      with_connector evse_uid (λ id. command "UnlockConnector" (unlock_connector_req id))

  unfoldable pub send_trigger_status : String → Result CallError Answer
  unfolding with_connector command
  send_trigger_status evse_uid =
      with_connector evse_uid
        (λ id. command "TriggerMessage" (trigger_message_req "StatusNotification" id))

  -- The methods of the interface.
  unfoldable pub send : Command → Result CallError Answer
  unfolding send_reserve_now send_cancel_reservation send_remote_start send_remote_stop
      send_unlock_connector send_trigger_status
  send (reserve_now r) = send_reserve_now r
  send (cancel_reservation id) = send_cancel_reservation id
  send (remote_start r) = send_remote_start r
  send (remote_stop id) = send_remote_stop id
  send (unlock_connector uid) = send_unlock_connector uid
  send (trigger uid) = send_trigger_status uid

  -- `NewChargePoint`.
  abbrev pub new_charge_point_16 : Station
  new_charge_point_16 = record { id = c.id; call = send }
