-- ===== src/Ocpp/V16.antt =====
-- internal/ocpp/v16/status.go: the statuses of OCPP 1.6 and what they mean to core and to control.
pub mod Shown
pub mod Messages
pub mod Handler
pub mod ChargePoint
use headless_csms.Prelude.{String, List, [], ◌∷◌, get, string_eq}
use headless_csms.Core.Status.{
  EvseStatus, available, charging, reserved, inoperative, out_of_order, unknown as status_unknown,
}
use headless_csms.Control.Types.{
  CommandStatus, accepted, rejected, occupied, faulted, unavailable, unlocked, unlock_failed,
  not_supported, not_implemented, unknown,
}

abbrev pub status_map : List (String × EvseStatus)
status_map =
    ("Available", available)
    ∷ ("Preparing", available)
    ∷ ("Finishing", available)
    ∷ ("Charging", charging)
    ∷ ("SuspendedEV", charging)
    ∷ ("SuspendedEVSE", charging)
    ∷ ("Reserved", reserved)
    ∷ ("Unavailable", inoperative)
    ∷ ("Faulted", out_of_order)
    ∷ []

unfoldable pub map_status : String → EvseStatus
map_status s = get status_unknown s status_map

abbrev accept_or_reject : List (String × CommandStatus)
accept_or_reject = ("Accepted", accepted) ∷ ("Rejected", rejected) ∷ []

-- Per action, the statuses that the specification defines for its answer.
abbrev pub command_status_map : List (String × List (String × CommandStatus))
command_status_map =
    (
      "ReserveNow",
      ("Accepted", accepted)
          ∷ ("Faulted", faulted)
          ∷ ("Occupied", occupied)
          ∷ ("Rejected", rejected)
          ∷ ("Unavailable", unavailable)
          ∷ [],
    )
    ∷ ("CancelReservation", accept_or_reject)
    ∷ ("RemoteStartTransaction", accept_or_reject)
    ∷ ("RemoteStopTransaction", accept_or_reject)
    ∷ (
      "UnlockConnector",
      ("Unlocked", unlocked)
          ∷ ("UnlockFailed", unlock_failed)
          ∷ ("NotSupported", not_supported)
          ∷ [],
    )
    ∷ (
      "TriggerMessage",
      ("Accepted", accepted) ∷ ("Rejected", rejected) ∷ ("NotImplemented", not_implemented) ∷ [],
    )
    ∷ []

-- An action that the table does not have is an empty map.
unfoldable pub map_command_status : String → String → CommandStatus
map_command_status action status = get unknown status (get [] action command_status_map)
