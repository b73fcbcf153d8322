-- ===== src/Core/Snapshot.antt =====
-- internal/core/service.go: `Snapshot` and its types. Strings are sorted by a comparison that is an
-- argument, the order of Go strings.
pub mod Sorted
use headless_csms.Prelude.{
  String, Bool, ltb, List, [], ◌∷◌, map, Option, none, some, if◌then◌else◌, ℤ, pos, ◌==◌, string_eq,
  get,
}
use headless_csms.Clock.{Time}
use headless_csms.Core.Status.{EvseStatus, unset}
use headless_csms.Core.Sort.{sort}
use headless_csms.Core.Types.{
  BootInfo, Disconnect, Transaction, Reservation, ChargePointState, Service,
}
use headless_csms.Core.Reservations.{reservations_of}

pub record EvseSnapshot : Type 0 where
  pub uid : String
  pub connector_id : ℤ
  pub status : EvseStatus
  pub error_code : String

pub record ChargePointSnapshot : Type 0 where
  pub id : String
  pub online : Bool
  pub boot : BootInfo
  pub last_seen : Time
  pub last_disconnect : Disconnect
  pub station_status : EvseStatus
  pub evses : List EvseSnapshot
  pub transactions : List Transaction
  pub reservations : List Reservation

pub record Snapshot : Type 0 where
  pub charge_points : List ChargePointSnapshot

unfoldable pub find_snapshot : String → List ChargePointSnapshot → Option ChargePointSnapshot
find_snapshot id [] = none
find_snapshot id (cp ∷ cps) = if cp.id == id then some cp else find_snapshot id cps

unfoldable pub charge_point_of : Snapshot → String → Option ChargePointSnapshot
unfolding find_snapshot
charge_point_of s id = find_snapshot id s.charge_points

unfoldable pub evse_snapshot : ChargePointState → String → EvseSnapshot
evse_snapshot cp uid = record {
  uid = uid;
  connector_id = get (pos 0) uid cp.connector_ids;
  status = get unset uid cp.effective;
  error_code = get "" uid cp.error_code;
}

abbrev pub by_seq : Transaction → Transaction → Bool
by_seq t u = ltb t.seq u.seq

unfoldable pub charge_point_snapshot : Service → ChargePointState → ChargePointSnapshot
unfolding evse_snapshot
charge_point_snapshot s cp = record {
  id = cp.id;
  online = cp.online;
  boot = cp.boot;
  last_seen = cp.last_seen;
  last_disconnect = cp.last_disconnect;
  station_status = cp.station;
  evses = map (evse_snapshot cp) cp.order;
  transactions = sort by_seq (map (λ (e : String × Transaction). e.1) cp.transactions);
  reservations = reservations_of cp.id s;
}

unfoldable pub snapshot : (String → String → Bool) → Service → Snapshot
unfolding charge_point_snapshot
snapshot less s = record {
  charge_points =
      sort (λ a b. less a.id b.id)
        (map (λ (e : String × ChargePointState). charge_point_snapshot s e.1) s.cps);
}
