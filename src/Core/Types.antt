-- ===== src/Core/Types.antt =====
-- The records of internal/core: service.go, transactions.go and reservations.go. The logger and the
-- mutexes have no part in them, and the clock and `afterFunc` are arguments or events.
use headless_csms.Prelude.{ℕ, String, Bool, false, List, [], Option, ℤ}
use headless_csms.Clock.{Time, zero_time, is_zero}
use headless_csms.Config.{Config}
use headless_csms.State.Store.{Store}
use headless_csms.Core.Status.{EvseStatus, available}
use headless_csms.Core.Event.{Bus}

pub record BootInfo : Type 0 where
  pub vendor : String
  pub model : String
  pub serial_number : String
  pub firmware_version : String
  pub at : Time

-- `seq` is a uint64 that counts the transactions learned of.
pub record Transaction : Type 0 where
  pub id : String
  pub evse_uid : String
  pub connector_id : ℤ
  pub id_tag : String
  pub meter_start : ℤ
  pub started_at : Time
  pub reservation_id : ℤ
  pub stopped_at : Time
  pub meter_stop : ℤ
  pub reason : String
  pub seq : ℕ

abbrev pub is_active : Transaction → Bool
is_active t = is_zero t.stopped_at

pub record TransactionStart : Type 0 where
  pub id : String
  pub connector_id : ℤ
  pub id_tag : String
  pub meter_start : ℤ
  pub reservation_id : ℤ
  pub at : Time

pub data ReservationStatus : Type 0 where
  pending active cancelling : ReservationStatus

pub record Reservation : Type 0 where
  pub id : ℤ
  pub ocpi_reservation_id : String
  pub charge_point_id : String
  pub evse_uid : String
  pub connector_id : ℤ
  pub id_tag : String
  pub expires_at : Time
  pub created_at : Time
  pub source : String
  pub response_url : String
  pub status : ReservationStatus

-- A timer that `afterFunc` has scheduled: how long it waits, and what its callback closes over.
pub record Timer : Type 0 where
  pub after : ℤ
  pub id : ℤ
  pub expires_at : Time

-- The struct `reservation`: a Reservation and its timer.
pub record TimedReservation : Type 0 where
  pub reservation : Reservation
  pub open reservation use *
  pub timer : Option Timer

pub record Disconnect : Type 0 where
  pub at : Time
  pub reason : String

pub record ChargePointState : Type 0 where
  pub id : String
  pub online : Bool
  pub boot : BootInfo
  pub last_seen : Time
  pub last_disconnect : Disconnect
  pub station : EvseStatus
  pub order : List String
  pub connector_ids : List (String × ℤ)
  pub reported : List (String × EvseStatus)
  pub error_code : List (String × String)
  pub effective : List (String × EvseStatus)
  pub transactions : List (String × Transaction)

-- `tx_seq` is a uint64.
pub record Service : Type 0 where
  pub cfg : Option Config
  pub bus : Bus
  pub store : Option Store
  pub cps : List (String × ChargePointState)
  pub reservations : List (ℤ × TimedReservation)
  pub tx_seq : ℕ
  pub next_reservation_id : ℤ
  pub next_transaction_id : ℤ
  pub next_remote_start_id : ℤ

unfoldable pub new_charge_point : String → ChargePointState
new_charge_point id = record {
  id = id;
  online = false;
  boot = record {
    vendor = "";
    model = "";
    serial_number = "";
    firmware_version = "";
    at = zero_time;
  };
  last_seen = zero_time;
  last_disconnect = record { at = zero_time; reason = "" };
  station = available;
  order = [];
  connector_ids = [];
  reported = [];
  error_code = [];
  effective = [];
  transactions = [];
}
