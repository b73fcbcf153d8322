-- ===== src/Core/Service.antt =====
-- internal/core/service.go: what the protocol adapters record, and the queries on charge points. An
-- operation is one locked section followed by what it publishes; `at` is the clock's reading.
pub mod Repeat
use Prim.Native.String.{◌++◌ as append}
use headless_csms.Prelude.{
  String, Bool, true, false, ◌&&◌, not, List, [], ◌∷◌, ◌++◌, Option, none, some, if◌then◌else◌, ℤ,
  pos, ◌==◌, string_eq, int_eq, lookup, get, insert,
}
use headless_csms.Text.{itoa}
use headless_csms.Clock.{Time}
use headless_csms.Config.{Config, evse_by_connector_id}
use headless_csms.Core.Status.{EvseStatus, unset, status_eq}
use headless_csms.Core.Event.{
  Event, charge_point_connected, charge_point_disconnected, boot_notified, heartbeat,
  station_status_changed, meter_values, new_event, publish, publish_all,
}
use headless_csms.Core.Types.{BootInfo, Disconnect, ChargePointState, Service, new_charge_point}
use headless_csms.Core.ChargePoint.{add_evse, recompute}

-- `BootInfo.String`.
unfoldable pub boot_string : BootInfo → String
boot_string b =
    let s = if b.model == "" then b.vendor else append (append b.vendor " ") b.model in
    if b.firmware_version == "" then s else append (append s " fw ") b.firmware_version

abbrev pub or_new : String → Option ChargePointState → ChargePointState
or_new id none = new_charge_point id
or_new id (some cp) = cp

-- `ensure`, without the write of a new charge point into `cps`: `put` makes that write together
-- with the changes that the caller makes through the pointer.
unfoldable pub ensure : String → Service → ChargePointState
ensure id s = or_new id (lookup id s.cps)

unfoldable pub put : String → ChargePointState → Service → Service
put id cp s = record s { cps = insert id cp s.cps }

unfoldable pub synthetic_uid : String → ℤ → String
unfolding itoa
synthetic_uid cp_id connector_id = append (append cp_id "-") (itoa connector_id)

unfoldable pub evse_uid : Option Config → String → ℤ → String
unfolding synthetic_uid evse_by_connector_id
evse_uid none cp_id connector_id = synthetic_uid cp_id connector_id
evse_uid (some cfg) cp_id connector_id =
    if cp_id == cfg.charger.id
    then elim (evse_by_connector_id cfg connector_id) [
      | none ↦ synthetic_uid cp_id connector_id
      | some e ↦ e.uid
    ]
    else synthetic_uid cp_id connector_id

abbrev pub with_bus : List Event → Service → Service
with_bus events s = record s { bus = publish_all events s.bus }

-- Each operation's locked section returns the events that are published after it.
unfoldable pub connected_locked : String → Time → Service → Service × List Event
unfolding ensure put
connected_locked cp_id at s =
    let cp = record (ensure cp_id s) { online = true; last_seen = at } in
    let (cp', events) = recompute at cp in
    (put cp_id cp' s, new_event charge_point_connected at cp_id ∷ events)

unfoldable pub connected : String → Time → Service → Service
unfolding connected_locked
connected cp_id at s = let (s', events) = connected_locked cp_id at s in with_bus events s'

unfoldable pub disconnected_locked : String → String → Time → Service → Service × List Event
unfolding ensure put
disconnected_locked cp_id reason at s =
    let old = ensure cp_id s in
    let cp = record old { online = false; last_disconnect = record { at = at; reason = reason } } in
    let (cp', events) = recompute at cp in
    if not old.online then (put cp_id old s, []) else (
      put cp_id cp' s,
      record (new_event charge_point_disconnected at cp_id) { detail = reason } ∷ events,
    )

unfoldable pub disconnected : String → String → Time → Service → Service
unfolding disconnected_locked
disconnected cp_id reason at s =
    let (s', events) = disconnected_locked cp_id reason at s in with_bus events s'

unfoldable pub booted_locked : String → BootInfo → Time → Service → Service
unfolding ensure put
booted_locked cp_id info at s =
    put cp_id (record (ensure cp_id s) { boot = record info { at = at }; last_seen = at }) s

unfoldable pub booted : String → BootInfo → Time → Service → Service
unfolding booted_locked boot_string
booted cp_id info at s =
    with_bus (record (new_event boot_notified at cp_id) { detail = boot_string info } ∷ [])
      (booted_locked cp_id info at s)

unfoldable pub seen : String → Time → Service → Service
unfolding ensure put
seen cp_id at s = put cp_id (record (ensure cp_id s) { last_seen = at }) s

unfoldable pub heartbeat_received : String → Time → Service → Service
unfolding seen
heartbeat_received cp_id at s = with_bus (new_event heartbeat at cp_id ∷ []) (seen cp_id at s)

-- The branch of `SetConnectorStatus` for connector 0, the station as a whole.
unfoldable pub set_station :
    String → EvseStatus → String → Time → ChargePointState → ChargePointState × List Event
set_station cp_id status error_code at cp = if cp.station == status then (cp, []) else (
  record cp { station = status },
  record (new_event station_status_changed at cp_id) {
    from = cp.station;
    to = status;
    error_code = error_code;
  }
      ∷ [],
)

-- The branch for one connector.
unfoldable pub set_reported : String → ℤ → EvseStatus → String → ChargePointState → ChargePointState
set_reported uid connector_id status error_code cp = record added {
  reported = insert uid status added.reported;
  error_code = insert uid error_code added.error_code;
}
  where
    added : ChargePointState
    added = add_evse uid connector_id cp

-- What a StatusNotification changes before `recompute`, with the event about the station.
unfoldable pub change_status :
    String
    → String
    → ℤ
    → EvseStatus
    → String
    → Time
    → ChargePointState
    → ChargePointState × List Event
unfolding set_station set_reported
change_status cp_id uid connector_id status error_code at cp =
    if connector_id == pos 0
    then set_station cp_id status error_code at cp
    else (set_reported uid connector_id status error_code cp, [])

unfoldable pub set_connector_status_locked :
    String → ℤ → EvseStatus → String → Time → Service → Service × List Event
unfolding ensure put change_status
set_connector_status_locked cp_id connector_id status error_code at s =
    let cp = record (ensure cp_id s) { last_seen = at } in
    let uid = evse_uid s.cfg cp_id connector_id in
    let (changed, events) = change_status cp_id uid connector_id status error_code at cp in
    let (cp', more) = recompute at changed in (put cp_id cp' s, events ++ more)

unfoldable pub set_connector_status : String → ℤ → EvseStatus → String → Time → Service → Service
unfolding set_connector_status_locked
set_connector_status cp_id connector_id status error_code at s =
    let (s', events) = set_connector_status_locked cp_id connector_id status error_code at s in
    with_bus events s'

unfoldable pub record_meter_values_locked : String → ℤ → Time → Service → Service
unfolding ensure put evse_uid
record_meter_values_locked cp_id connector_id at s =
    let cp = add_evse (evse_uid s.cfg cp_id connector_id) connector_id (ensure cp_id s) in
    put cp_id (record cp { last_seen = at }) s

unfoldable pub record_meter_values : String → ℤ → String → Time → Service → Service
unfolding record_meter_values_locked
record_meter_values cp_id connector_id summary at s =
    let event = record (new_event meter_values at cp_id) {
      evse_uid = evse_uid s.cfg cp_id connector_id;
      detail = summary;
    } in
    with_bus (event ∷ []) (record_meter_values_locked cp_id connector_id at s)

-- The loop of `EVSEStatus` over the charge points.
unfoldable pub find_status : String → List (String × ChargePointState) → Option EvseStatus
find_status uid [] = none
find_status uid ((id, cp) ∷ cps) = elim (lookup uid cp.effective) [
  | some st ↦ some st
  | none ↦ find_status uid cps
]

unfoldable pub evse_status : String → Service → Option EvseStatus
unfolding find_status
evse_status uid s = find_status uid s.cps

unfoldable pub is_online : String → Service → Bool
is_online cp_id s = elim (lookup cp_id s.cps) [ none ↦ false | some cp ↦ cp.online ]
