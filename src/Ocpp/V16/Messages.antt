-- ===== src/Ocpp/V16/Messages.antt =====
-- internal/ocpp/v16/messages.go: the requests of a charge point, and the tests on their fields. What
-- encoding/json and the time package do with their text is an argument, `Wire`.
-- A record has the fields that the handler reads.
use Prim.Native.String.{◌++◌ as append}
use headless_csms.Prelude.{
  zero, suc, String, Bool, List, [], Option, none, some, if◌then◌else◌, ℤ, pos, negsuc, ◌==◌,
  string_eq, Result, ok, err, lookup, false, true,
}
use headless_csms.Text.{itoa}
use headless_csms.Clock.{Time}
use headless_csms.Ocpp.{
  RpcError, formation_violation, property_constraint_violation, occurrence_constraint_violation,
}
use headless_csms.Ocpp.V16.{status_map}

pub record BootNotificationReq : Type 0 where
  pub charge_point_vendor : String
  pub charge_point_model : String
  pub charge_point_serial_number : String
  pub charge_box_serial_number : String
  pub firmware_version : String

pub record StatusNotificationReq : Type 0 where
  pub connector_id : ℤ
  pub error_code : String
  pub status : String

pub record AuthorizeReq : Type 0 where
  pub id_tag : String

pub record StartTransactionReq : Type 0 where
  pub connector_id : ℤ
  pub id_tag : String
  pub meter_start : ℤ
  pub timestamp : String
  pub reservation_id : Option ℤ

pub record StopTransactionReq : Type 0 where
  pub transaction_id : ℤ
  pub meter_stop : ℤ
  pub timestamp : String
  pub reason : String

pub record SampledValue : Type 0 where
  pub value : String
  pub measurand : String
  pub unit : String

pub record MeterValue : Type 0 where
  pub timestamp : String
  pub sampled_value : List SampledValue

pub record MeterValuesReq : Type 0 where
  pub connector_id : ℤ
  pub meter_value : List MeterValue

-- `DataTransferReq` and `StatusOnlyReq` have fields for the log alone.
pub record DataTransferReq : Type 0 where
  pub vendor_id : String

pub record StatusOnlyReq : Type 0 where
  pub status : String

-- `json.Unmarshal` of a payload into each type, with the text of the error; whether a payload has no
-- bytes; `time.Parse` of RFC 3339; the verb %q; and the whole seconds of a Duration.
pub record Wire : Type 1 where
  pub Raw : Type 0
  pub is_empty : Raw → Bool
  pub boot : Raw → Result String BootNotificationReq
  pub status : Raw → Result String StatusNotificationReq
  pub authorize : Raw → Result String AuthorizeReq
  pub start : Raw → Result String StartTransactionReq
  pub stop : Raw → Result String StopTransactionReq
  pub meters : Raw → Result String MeterValuesReq
  pub transfer : Raw → Result String DataTransferReq
  pub only : Raw → Result String StatusOnlyReq
  pub parse : String → Option Time
  pub quote : String → String
  pub whole_seconds : ℤ → ℤ

abbrev zero_boot : BootNotificationReq
zero_boot = record {
  charge_point_vendor = "";
  charge_point_model = "";
  charge_point_serial_number = "";
  charge_box_serial_number = "";
  firmware_version = "";
}

abbrev pub missing : String → RpcError
missing field = record {
  code = occurrence_constraint_violation;
  description = append field " is required";
}

abbrev pub is_positive : ℤ → Bool
is_positive (pos zero) = false
is_positive (pos (suc n)) = true
is_positive (negsuc n) = false

abbrev pub is_negative : ℤ → Bool
is_negative (pos n) = false
is_negative (negsuc n) = true

module _ (w : Wire) where
  -- An error of `json.Unmarshal`.
  abbrev pub decoded {ℓ} : {A : Type ℓ} → Result {0, ℓ} String A → Result {0, ℓ} RpcError A
  decoded (ok v) = ok v
  decoded (err text) = err (record {
    code = formation_violation;
    description = append "payload does not match the action: " text;
  })

  -- `decode`, with the zero value of the type.
  unfoldable pub decode {ℓ} :
      {A : Type ℓ} → A → (w.Raw → Result {0, ℓ} String A) → w.Raw → Result {0, ℓ} RpcError A
  decode zero_value read raw = if w.is_empty raw then ok zero_value else decoded (read raw)

  abbrev pub bad_value : String → String → RpcError
  bad_value field value = record {
    code = property_constraint_violation;
    description = append field (append " has invalid value " (w.quote value));
  }

  abbrev pub decode_boot : w.Raw → Result RpcError BootNotificationReq
  decode_boot = decode zero_boot w.boot

  abbrev pub decode_status : w.Raw → Result RpcError StatusNotificationReq
  decode_status = decode (record { connector_id = pos 0; error_code = ""; status = "" }) w.status

  abbrev pub decode_authorize : w.Raw → Result RpcError AuthorizeReq
  decode_authorize = decode (record { id_tag = "" }) w.authorize

  abbrev pub decode_start : w.Raw → Result RpcError StartTransactionReq
  decode_start =
      decode
        (record {
          connector_id = pos 0;
          id_tag = "";
          meter_start = pos 0;
          timestamp = "";
          reservation_id = none;
        })
        w.start

  abbrev pub decode_stop : w.Raw → Result RpcError StopTransactionReq
  decode_stop =
      decode (record { transaction_id = pos 0; meter_stop = pos 0; timestamp = ""; reason = "" })
        w.stop

  abbrev pub decode_meters : w.Raw → Result RpcError MeterValuesReq
  decode_meters = decode (record { connector_id = pos 0; meter_value = [] }) w.meters

  abbrev pub decode_transfer : w.Raw → Result RpcError DataTransferReq
  decode_transfer = decode (record { vendor_id = "" }) w.transfer

  abbrev pub decode_only : w.Raw → Result RpcError StatusOnlyReq
  decode_only = decode (record { status = "" }) w.only

  -- Each `validate`; `none` is a valid request.
  unfoldable pub validate_boot : BootNotificationReq → Option RpcError
  validate_boot r =
      if r.charge_point_vendor == ""
      then some (missing "chargePointVendor")
      else if r.charge_point_model == ""
      then some (missing "chargePointModel")
      else none

  unfoldable pub validate_status : StatusNotificationReq → Option RpcError
  validate_status r =
      if is_negative r.connector_id
      then some (bad_value "connectorId" (itoa r.connector_id))
      else if r.status == ""
      then some (missing "status")
      else elim (lookup r.status status_map) [
        | none ↦ some (bad_value "status" r.status)
        | some st ↦ none
      ]

  unfoldable pub validate_start : StartTransactionReq → Option RpcError
  validate_start r =
      if is_positive r.connector_id
      then (if r.id_tag == "" then some (missing "idTag") else none)
      else some (bad_value "connectorId" (itoa r.connector_id))

  -- `parseTime`.
  unfoldable pub parse_time : String → Time → Time
  parse_time s fallback =
      if s == "" then fallback else elim (w.parse s) [ none ↦ fallback | some t ↦ t ]
