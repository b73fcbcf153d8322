-- ===== src/Examples/Actions.antt =====
-- The results about the actions on the station at concrete inputs.
use headless_csms.Prelude.{
  ◌≡◌, refl, ◌⊎◌, false, String, [], ◌∷◌, none, some, ok, err, pos, int_eq, Result, lookup, insert,
}
use headless_csms.Config.{find_uid, evse_by_uid}
use headless_csms.State.Store.{update, write}
use headless_csms.Core.Types.{Reservation, Transaction, Service}
use headless_csms.Core.Persist.{arm, connector_id, persist, persist_to, write_domain}
use headless_csms.Core.Reservations.{
  reservation_on, find_on, begin_locked, begin_reservation, activate_locked, activate_reservation,
  active_reservation,
}
use headless_csms.Core.Transactions.{active_transactions}
use headless_csms.Control.Types.{
  is_accepted, accepted, occupied, Answer, CallError, cancel_reservation, remote_stop, Station,
  op_reserve, of_call, refused, ReserveParams, Done,
}
use headless_csms.Control.{
  charge_point, guarded, check_evse, request, expiry, tag_or_default, reserve_begin,
  reserve_command, reserve_answered, reserve, cancel, cancel_orphan, stop,
}
use headless_csms.Control.Reserve.{reserve_answered-lookup, reserve-active_reservation}
use headless_csms.Control.Stop.{cancel-lookup, stop_cases}
use headless_csms.Prelude.{get}
use headless_csms.Ocpp.V16.{map_command_status}
use headless_csms.Ocpp.V16.ChargePoint.{send, send_reserve_now, with_connector, command}
use headless_csms.Ocpp.V16.ChargePoint.Reserving.{wired, IsReserved, reserve-IsReserved}
use headless_csms.Examples.Calls.{willing}
use headless_csms.Examples.Fixtures.{
  noon, one_o_clock, evse1, two_evses, fresh, asked, accepted_one, holding_pending, holding_active,
  all_works, room, fresh-IsSound, holding_pending-IsSound, holding_active-IsSound,
}

abbrev yes : Answer
yes = record { status = accepted; raw = "Accepted" }

abbrev busy : Answer
busy = record { status = occupied; raw = "Occupied" }

abbrev agreeable : Station
agreeable = record { id = "cp1"; call = λ c. ok yes }

abbrev connected_to : String → Result CallError Station
connected_to id = ok agreeable

abbrev idle : Service → Service
idle s = s

abbrev want : String → ReserveParams
want uid = record {
  evse_uid = uid;
  id_tag = "";
  expires_at = one_o_clock;
  expires_in = pos 0;
  source = "cli";
  ocpi_reservation_id = "";
  response_url = "";
}

abbrev reserving : Done Reservation
reserving =
    reserve two_evses connected_to false (want "evse-1") noon noon noon noon all_works all_works
      idle fresh

reserve-active_reservation_example :
    (active_reservation "evse-1" reserving.service ≡ some accepted_one)
    × ((r : Reservation) × (reserving.sent ≡ reserve_command r ∷ []))
unfolding reserve reserve_begin guarded check_evse charge_point evse_by_uid find_uid request expiry
    tag_or_default begin_reservation begin_locked reservation_on find_on connector_id insert persist
    persist_to update write write_domain lookup activate_reservation activate_locked
    reserve_answered reserve_command arm
reserve-active_reservation_example =
    reserve-active_reservation two_evses connected_to false (want "evse-1") noon noon noon noon
      all_works all_works idle fresh accepted_one room fresh-IsSound (λ u v. v) refl

abbrev over_wire : Done Reservation
over_wire =
    reserve two_evses (wired willing two_evses) false (want "evse-1") noon noon noon noon all_works
      all_works idle fresh

reserve-IsReserved_example : IsReserved willing two_evses (want "evse-1") noon over_wire.sent
unfolding reserve reserve_begin guarded check_evse charge_point evse_by_uid find_uid request expiry
    tag_or_default begin_reservation begin_locked reservation_on find_on connector_id insert persist
    persist_to update write write_domain lookup activate_reservation activate_locked
    reserve_answered reserve_command arm send send_reserve_now with_connector command
    map_command_status get
reserve-IsReserved_example =
    reserve-IsReserved willing two_evses false (want "evse-1") noon noon noon noon all_works
      all_works idle fresh accepted_one refl

reserve_answered-lookup_example :
    ((a : Answer)
      → is_accepted a.status ≡ false
      → let (t, result) = reserve_answered asked noon noon all_works (ok a) holding_pending in
        (result ≡ err (refused op_reserve "evse-1" a)) × (lookup (pos 1) t.reservations ≡ none))
    × ((e : CallError)
        → let (t, result) = reserve_answered asked noon noon all_works (err e) holding_pending in
          (result ≡ err (of_call e))
          × (lookup (pos 1) ((cancel_orphan asked e one_o_clock all_works idle t).0).reservations
              ≡ none))
reserve_answered-lookup_example =
    reserve_answered-lookup asked noon noon one_o_clock all_works all_works idle holding_pending
      holding_pending-IsSound (λ u v. v)

abbrev cancelling_it : Done {0} Unit
cancelling_it = cancel two_evses connected_to "evse-1" noon all_works idle holding_active

cancel-lookup_example :
    (lookup (pos 1) cancelling_it.service.reservations ≡ none)
    × (cancelling_it.sent ≡ cancel_reservation (pos 1) ∷ [])
    × (cancelling_it.result ≡ ok tt)
unfolding charge_point evse_by_uid find_uid active_reservation reservation_on find_on
cancel-lookup_example =
    cancel-lookup two_evses connected_to "evse-1" noon all_works idle holding_active evse1
      accepted_one agreeable yes holding_active-IsSound refl refl refl refl

stop_cases_example :
    ((stop two_evses connected_to "evse-1" idle fresh).sent ≡ [])
    ⊎ ((tx : Transaction) × (active_transactions "evse-1" fresh ≡ tx ∷ [])
        × ((stop two_evses connected_to "evse-1" idle fresh).sent ≡ remote_stop tx.id ∷ []))
stop_cases_example = stop_cases two_evses connected_to "evse-1" idle fresh
