-- ===== src/Examples/Stations.antt =====
-- The results about stations, their events and a restart at concrete inputs.
use headless_csms.Prelude.{
  ◌≡◌, refl, true, String, All, [], ◌∷◌, List, some, pos, int_eq, string_eq, lookup, insert, get,
  contains, arith,
}
use headless_csms.Clock.{time_sub}
use headless_csms.Config.{find_uid, find_connector, evse_by_uid, evse_by_connector_id}
use headless_csms.State
use headless_csms.State.{State}
use headless_csms.State.Store.{Store, get as state_of}
use headless_csms.Core.Status.{
  available, out_of_order, unknown, unset, effective_status, status_eq, eq_status,
}
use headless_csms.Core.Event.{Event, heartbeat, new_event, publish_all}
use headless_csms.Core.Event.Delivery.{Delivered, publish_all-Delivered}
use headless_csms.Core.Types.{ChargePointState, TimedReservation, new_charge_point}
use headless_csms.Core.ChargePoint.{add_evse, wanted, recompute}
use headless_csms.Core.ChargePoint.Effective.{IsChange, recompute_lem}
use headless_csms.Core.Service.{connected_locked, evse_uid, set_connector_status_locked}
use headless_csms.Core.Service.Repeat.{set_connector_status_locked_repeat}
use headless_csms.Core.Persist.{
  load_transactions, load_reservations, load_reservation, load, load_locked, connector_id, arm,
}
use headless_csms.Core.Persist.Restart.{IsRestored, load-IsRestored}
use headless_csms.Core.Steps.{Section, connects, reports, run, apply}
use headless_csms.Core.Steps.Statuses.{MayShow, run-MayShow}
use headless_csms.Examples.Fixtures.{
  noon, one_o_clock, fresh, accepted_one, all_works, no_state, new_store, one_subscriber,
}

-- A station that is online, with a connector that has been reported as available.
abbrev online_station : ChargePointState
online_station = record {
  id = "cp1";
  online = true;
  boot = record { vendor = ""; model = ""; serial_number = ""; firmware_version = ""; at = noon };
  last_seen = noon;
  last_disconnect = record { at = noon; reason = "" };
  station = available;
  order = "evse-1" ∷ [];
  connector_ids = ("evse-1", pos 1) ∷ [];
  reported = ("evse-1", available) ∷ [];
  error_code = [];
  effective = ("evse-1", unknown) ∷ [];
  transactions = [];
}

recompute_lem_example :
    ((u : String)
      → contains u online_station.order ≡ true
      → get unset u ((recompute noon online_station).0).effective
        ≡ effective_status true available (get unset u online_station.reported))
    × ((recompute noon online_station).0
        ≡ record online_station { effective = ((recompute noon online_station).0).effective })
    × All (IsChange noon "cp1" (wanted online_station)) (recompute noon online_station).1
recompute_lem_example = recompute_lem noon online_station

set_connector_status_locked_example :
    (set_connector_status_locked "cp1"
      (pos 1)
      out_of_order
      "GroundFailure"
      one_o_clock
      (set_connector_status_locked "cp1" (pos 1) out_of_order "GroundFailure" noon fresh).0).1
    ≡ []
set_connector_status_locked_example =
    set_connector_status_locked_repeat "cp1" (pos 1) out_of_order "GroundFailure" noon one_o_clock
      fresh

-- The same station after it has connected anew and reported that connector.
abbrev shown_station : ChargePointState
shown_station = record (new_charge_point "cp1") {
  online = true;
  last_seen = one_o_clock;
  order = "evse-1" ∷ [];
  connector_ids = ("evse-1", pos 1) ∷ [];
  reported = ("evse-1", available) ∷ [];
  error_code = ("evse-1", "NoError") ∷ [];
  effective = ("evse-1", available) ∷ [];
}

abbrev connects_and_reports : List Section
connects_and_reports =
    connects "cp1" noon ∷ reports "cp1" (pos 1) available "NoError" one_o_clock ∷ []

run-MayShow_example : MayShow shown_station "evse-1" available
unfolding lookup insert run apply connected_locked set_connector_status_locked evse_uid
    find_connector evse_by_connector_id new_charge_point recompute add_evse eq_status get
    effective_status
run-MayShow_example =
    run-MayShow connects_and_reports fresh "cp1" "evse-1" shown_station available
      (λ id cp h. absurd (cc (h))) refl refl

abbrev two_beats : List Event
two_beats = new_event heartbeat noon "cp1" ∷ new_event heartbeat one_o_clock "cp1" ∷ []

publish_all_example :
    Delivered two_beats one_subscriber.subs (publish_all two_beats one_subscriber).subs
publish_all_example =
    publish_all-Delivered two_beats one_subscriber ((omega arith, omega arith), tt)

abbrev saved_one : State.Reservation
saved_one = record {
  id = pos 1;
  ocpi_reservation_id = "";
  charge_point_id = "cp1";
  evse_uid = "evse-1";
  id_tag = "TAG";
  expires_at = one_o_clock;
  created_at = noon;
  source = "cli";
  response_url = "";
}

abbrev saved_store : Store
saved_store = record new_store {
  state = record no_state { next_reservation_id = pos 2; reservations = saved_one ∷ [] };
}

abbrev restored_one : TimedReservation
restored_one = record {
  reservation = accepted_one;
  timer = some (record { after = pos 3600000000000; id = pos 1; expires_at = one_o_clock });
}

load-IsRestored_example :
    IsRestored noon noon (load noon (λ id. noon) all_works saved_store fresh) (pos 1) restored_one
unfolding load load_locked state_of lookup insert load_transactions load_reservations
    load_reservation connector_id evse_by_uid find_uid arm time_sub
load-IsRestored_example =
    load-IsRestored noon (λ id. noon) all_works saved_store fresh (pos 1) restored_one refl
      (λ h. ground arith, tt) refl
