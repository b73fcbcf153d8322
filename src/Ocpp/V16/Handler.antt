-- ===== src/Ocpp/V16/Handler.antt =====
-- internal/ocpp/v16/handler.go: what each message of a charge point does to core, and the answer.
pub mod Refusals
pub mod Sessions
use Prim.Native.String.{◌++◌ as append}
use headless_csms.Prelude.{
  String, Bool, List, [], ◌∷◌, Option, none, some, if◌then◌else◌, ℤ, pos, ◌==◌, string_eq, Result,
  ok, err, lookup,
}
use headless_csms.Text.{itoa, equal_fold}
use headless_csms.Clock.{Time, rfc3339, zero_time}
use headless_csms.Config.{Config}
use headless_csms.State.Store.{Outcome}
use headless_csms.Core.Types.{Service, TransactionStart}
use headless_csms.Core.Service.{
  booted, seen, heartbeat_received, set_connector_status, record_meter_values,
}
use headless_csms.Core.Transactions.{next_transaction_id, start_transaction, stop_transaction}
use headless_csms.Ocpp.{RpcError, not_implemented_error}
use headless_csms.Ocpp.V16.{map_status}
use headless_csms.Ocpp.V16.Messages.{
  Wire, BootNotificationReq, StatusNotificationReq, StartTransactionReq, StopTransactionReq,
  MeterValue, SampledValue, decode_boot, decode_status, decode_authorize, decode_start, decode_stop,
  decode_meters, decode_transfer, decode_only, validate_boot, validate_status, validate_start,
  parse_time, missing,
}

-- The answers, each with the fields that are ever filled.
pub data Conf : Type 0 where
  boot_notification_conf : (status current_time : String) (interval : ℤ) → Conf
  heartbeat_conf : (current_time : String) → Conf
  authorize_conf : (status : String) → Conf
  start_transaction_conf : (transaction_id : ℤ) (status : String) → Conf
  stop_transaction_conf : Conf
  data_transfer_conf : (status : String) → Conf
  empty_conf : Conf

abbrev pub auth_accepted : String
auth_accepted = "Accepted"

abbrev pub auth_invalid : String
auth_invalid = "Invalid"

-- The readings of the handler's clock and of core's while a message is handled, and how the writes of
-- the state go.
pub record Moment : Type 0 where
  pub handler_now : Time
  pub core_now : Time
  pub ended : Time
  pub last : Time
  pub id_saved : Outcome
  pub saved : Outcome

abbrev pub Answer : Type 0
Answer = Result {0, 0} RpcError Conf × Service

-- The message is refused before core is told of it.
abbrev pub refuse : RpcError → Service → Answer
refuse e s = (err e, s)

unfoldable pub known_tag : Config → String → Bool
known_tag cfg tag = equal_fold tag cfg.auth.default_id_tag

abbrev pub or_zero : Option ℤ → ℤ
or_zero none = pos 0
or_zero (some n) = n

-- `%s=%s%s` of a sample.
abbrev pub sample_text : SampledValue → String
sample_text v =
    append (if v.measurand == "" then "Energy.Active.Import.Register" else v.measurand)
      (append "=" (append v.value v.unit))

-- `strings.Join(parts, " ")` of the parts.
abbrev pub join_samples : List SampledValue → String
join_samples [] = ""
join_samples (v ∷ []) = sample_text v
join_samples (v ∷ vs) = append (sample_text v) (append " " (join_samples vs))

abbrev pub sampled : List SampledValue → String
sampled [] = "no samples"
sampled (v ∷ vs) = join_samples (v ∷ vs)

unfoldable pub summarise_meter_values : List MeterValue → String
summarise_meter_values [] = "no samples"
summarise_meter_values (m ∷ []) = sampled m.sampled_value
summarise_meter_values (m ∷ ms) = summarise_meter_values ms

pub data Action : Type 0 where
  boots beats reports authorizes starts stops meters transfers notifies : Action

-- The cases of the switch of `HandleCall`.
abbrev pub actions : List (String × Action)
actions =
    ("BootNotification", boots)
    ∷ ("Heartbeat", beats)
    ∷ ("StatusNotification", reports)
    ∷ ("Authorize", authorizes)
    ∷ ("StartTransaction", starts)
    ∷ ("StopTransaction", stops)
    ∷ ("MeterValues", meters)
    ∷ ("DataTransfer", transfers)
    ∷ ("FirmwareStatusNotification", notifies)
    ∷ ("DiagnosticsStatusNotification", notifies)
    ∷ []

module _ (w : Wire) (cfg : Config) (m : Moment) (cp_id : String) where
  abbrev pub boot_notified_by : BootNotificationReq → Option RpcError → Service → Answer
  boot_notified_by req (some e) s = refuse e s
  boot_notified_by req none s = (
    ok (
        boot_notification_conf "Accepted" (rfc3339 m.handler_now)
          (w.whole_seconds cfg.charger.heartbeat_interval)),
    booted cp_id
        (record {
          vendor = req.charge_point_vendor;
          model = req.charge_point_model;
          serial_number =
              if req.charge_point_serial_number == ""
              then req.charge_box_serial_number
              else req.charge_point_serial_number;
          firmware_version = req.firmware_version;
          at = zero_time;
        })
        m.core_now s,
  )

  unfoldable pub boot_notification : w.Raw → Service → Answer
  unfolding validate_boot
  boot_notification raw s = elim (decode_boot w raw) [
    | err e ↦ refuse e s
    | ok req ↦ boot_notified_by req (validate_boot w req) s
  ]

  unfoldable pub heartbeat : Service → Answer
  heartbeat s = (ok (heartbeat_conf (rfc3339 m.handler_now)), heartbeat_received cp_id m.core_now s)

  abbrev pub status_notified_by : StatusNotificationReq → Option RpcError → Service → Answer
  status_notified_by req (some e) s = refuse e s
  status_notified_by req none s = (
    ok empty_conf,
    set_connector_status cp_id req.connector_id (map_status req.status) req.error_code m.core_now s,
  )

  unfoldable pub status_notification : w.Raw → Service → Answer
  unfolding validate_status
  status_notification raw s = elim (decode_status w raw) [
    | err e ↦ refuse e s
    | ok req ↦ status_notified_by req (validate_status w req) s
  ]

  unfoldable pub authorize : w.Raw → Service → Answer
  unfolding known_tag
  authorize raw s = elim (decode_authorize w raw) [
    | err e ↦ refuse e s
    | ok req ↦ if req.id_tag == "" then refuse (missing "idTag") s else (
      ok (authorize_conf (if known_tag cfg req.id_tag then auth_accepted else auth_invalid)),
      seen cp_id m.core_now s,
    )
  ]

  -- The session that a request opens under an id.
  abbrev pub start_of : StartTransactionReq → ℤ → TransactionStart
  start_of req id = record {
    id = itoa id;
    connector_id = req.connector_id;
    id_tag = req.id_tag;
    meter_start = req.meter_start;
    reservation_id = or_zero req.reservation_id;
    at = parse_time w req.timestamp m.handler_now;
  }

  abbrev pub with_id : StartTransactionReq → Service × ℤ → Answer
  with_id req (s, id) = (
    ok (start_transaction_conf id auth_accepted),
    (start_transaction cp_id (start_of req id) m.core_now m.ended m.last m.saved s).0,
  )

  abbrev pub started_by : StartTransactionReq → Option RpcError → Service → Answer
  started_by req (some e) s = refuse e s
  started_by req none s =
      if known_tag cfg req.id_tag
      then with_id req (next_transaction_id m.id_saved s)
      else (ok (start_transaction_conf (pos 0) auth_invalid), seen cp_id m.core_now s)

  unfoldable pub start_transaction_req : w.Raw → Service → Answer
  unfolding validate_start
  start_transaction_req raw s = elim (decode_start w raw) [
    | err e ↦ refuse e s
    | ok req ↦ started_by req (validate_start w req) s
  ]

  -- What core says of the stop of a request.
  abbrev pub stopped_by : StopTransactionReq → Service → Answer
  stopped_by req s = (
    ok stop_transaction_conf,
    (stop_transaction cp_id (itoa req.transaction_id) req.meter_stop req.reason
        (parse_time w req.timestamp m.handler_now) m.core_now m.last m.saved s).0,
  )

  unfoldable pub stop_transaction_req : w.Raw → Service → Answer
  stop_transaction_req raw s = elim (decode_stop w raw) [
    | err e ↦ refuse e s
    | ok req ↦ stopped_by req s
  ]

  unfoldable pub meter_values_req : w.Raw → Service → Answer
  unfolding summarise_meter_values
  meter_values_req raw s = elim (decode_meters w raw) [
    | err e ↦ refuse e s
    | ok req ↦ (
      ok empty_conf,
      record_meter_values cp_id req.connector_id (summarise_meter_values req.meter_value) m.core_now
          s,
    )
  ]

  unfoldable pub data_transfer : w.Raw → Service → Answer
  data_transfer raw s = elim (decode_transfer w raw) [
    | err e ↦ refuse e s
    | ok req ↦ (ok (data_transfer_conf "Rejected"), seen cp_id m.core_now s)
  ]

  unfoldable pub status_only : w.Raw → Service → Answer
  status_only raw s = elim (decode_only w raw) [
    | err e ↦ refuse e s
    | ok req ↦ (ok empty_conf, seen cp_id m.core_now s)
  ]

  unfoldable pub take_action : Action → w.Raw → Service → Answer
  unfolding boot_notification heartbeat status_notification authorize start_transaction_req
      stop_transaction_req meter_values_req data_transfer status_only
  take_action boots raw s = boot_notification raw s
  take_action beats raw s = heartbeat s
  take_action reports raw s = status_notification raw s
  take_action authorizes raw s = authorize raw s
  take_action starts raw s = start_transaction_req raw s
  take_action stops raw s = stop_transaction_req raw s
  take_action meters raw s = meter_values_req raw s
  take_action transfers raw s = data_transfer raw s
  take_action notifies raw s = status_only raw s

  unfoldable pub handle_call : String → w.Raw → Service → Answer
  unfolding take_action
  handle_call action raw s = elim (lookup action actions) [
    | some a ↦ take_action a raw s
    | none ↦
        refuse
          (record {
            code = not_implemented_error;
            description = append "action " (append (w.quote action) " is not implemented");
          })
          s
  ]
