-- ===== src/Examples/Reservations.antt =====
-- The results about reservations at concrete inputs.
use headless_csms.Prelude.{
  ◌≡◌, ◌≢◌, refl, ◌⊎◌, ◌<ℤ◌, [], ◌∷◌, List, none, some, ok, err, pos, ℤ, int_eq, lookup, insert,
  delete, succ, arith,
}
use headless_csms.Config.{find_uid, evse_by_uid}
use headless_csms.State.Store.{Store, update, write}
use headless_csms.Core.Event.{publish}
use headless_csms.Core.Types.{Reservation, pending, active, cancelling, TimedReservation, Service}
use headless_csms.Core.Persist.{
  arm, connector_id, persist, persist_to, persist_or_log, write_domain,
}
use headless_csms.Core.Persist.Saved.{HoldsDomain, persist-HoldsDomain}
use headless_csms.Core.Reservations.{
  unknown_evse, already_reserved, cancelled, failed, timeout, reservation_on, find_on, begun,
  begin_locked, begin_reservation, forget, activate_locked, activate_reservation, reservation_event,
  end_by_id_locked, end_locked, end_reservation, orphan_locked, orphan_reservation,
  active_reservation, expire, publishing,
}
use headless_csms.Core.Reservations.Begin.{begun_state, IsTaken, IsRecorded, HasGained}
use headless_csms.Core.Reservations.Lifecycle.{
  begin_locked_cases, begin_reservation-ok, expire_cases, activate_reservation-active_reservation,
  orphan_reservation-end_reservation,
}
use headless_csms.Core.Reservations.Exclusive.{IsExclusive}
use headless_csms.Core.Steps.{Section, begins, ends, apply, run}
use headless_csms.Core.Steps.Table.{run-IsExclusive, begin_locked-fresh}
use headless_csms.Examples.Fixtures.{
  noon, one_o_clock, fresh, new_store, request_on, asked, accepted_one, holding_pending,
  holding_active, all_works, fresh-IsSound, holding_pending-IsSound,
}

begin_locked_cases_example :
    ((c : ℤ) × (q : Reservation) × (t : Service) × (connector_id fresh.cfg "evse-1" ≡ some c)
      × (¬ IsTaken (request_on "evse-1") fresh)
      × (begin_locked (request_on "evse-1") noon fresh ≡ ok (q, t))
      × IsRecorded (request_on "evse-1") (pos 1) c noon q
      × HasGained q fresh t)
    ⊎ ((connector_id fresh.cfg "evse-1" ≡ none)
        × (begin_locked (request_on "evse-1") noon fresh ≡ err (unknown_evse "evse-1")))
    ⊎ ((c : ℤ) × (connector_id fresh.cfg "evse-1" ≡ some c)
        × IsTaken (request_on "evse-1") fresh
        × (begin_locked (request_on "evse-1") noon fresh ≡ err (already_reserved "evse-1")))
begin_locked_cases_example = begin_locked_cases (request_on "evse-1") noon fresh tt

abbrev begun_one : Service
begun_one = (begin_reservation (request_on "evse-1") noon all_works fresh).0

begin_reservation-ok_example :
    (asked.status ≡ pending)
    × (asked.id ≡ pos 1)
    × (lookup (pos 1) begun_one.reservations ≡ some (record { reservation = asked; timer = none }))
    × ((st : Store) → begun_one.store ≡ some st → st.state.next_reservation_id ≡ succ (pos 1))
unfolding begin_reservation begin_locked reservation_on find_on connector_id evse_by_uid find_uid
    persist persist_to update write write_domain insert
begin_reservation-ok_example =
    begin_reservation-ok (request_on "evse-1") asked noon all_works fresh begun_one refl

persist-HoldsDomain_example :
    (after : Store) × ((persist all_works holding_active).0
      ≡ record holding_active { store = some after })
    × (((persist all_works holding_active).1 ≡ none)
          × HoldsDomain holding_active new_store.state after.state
        ⊎ ((persist all_works holding_active).1 ≢ none) × (after.state ≡ new_store.state))
persist-HoldsDomain_example = persist-HoldsDomain all_works holding_active new_store refl

abbrev second_asked : Reservation
second_asked = begun (request_on "evse-1") (pos 2) (pos 1) one_o_clock

begin_locked-fresh_example : asked.id <ℤ second_asked.id
unfolding begin_locked reservation_on find_on connector_id evse_by_uid find_uid insert run apply
    end_by_id_locked end_locked forget delete lookup succ
begin_locked-fresh_example =
    begin_locked-fresh (ends (pos 1) cancelled noon ∷ []) fresh (begun_state asked fresh)
      (begun_state second_asked (run (ends (pos 1) cancelled noon ∷ []) (begun_state asked fresh)))
      (request_on "evse-1") (request_on "evse-1") asked second_asked noon one_o_clock
      (1, refl, omega arith) refl refl

expire_cases_example :
    ((q : TimedReservation) × (lookup (pos 1) holding_active.reservations ≡ some q)
      × (q.status ≡ active)
      × (q.expires_at.nanos ≡ one_o_clock.nanos)
      × (expire (pos 1) one_o_clock one_o_clock all_works holding_active
          ≡ publishing
              (reservation_event "expired" one_o_clock q.reservation)
              (persist_or_log all_works (forget q.id holding_active))))
    ⊎ (expire (pos 1) one_o_clock one_o_clock all_works holding_active ≡ holding_active)
expire_cases_example = expire_cases (pos 1) one_o_clock one_o_clock all_works holding_active

abbrev two_requests : List Section
two_requests = begins (request_on "evse-1") noon ∷ begins (request_on "evse-2") noon ∷ []

run-IsExclusive_example :
    IsExclusive (run two_requests fresh).reservations (run two_requests fresh).next_reservation_id
run-IsExclusive_example = run-IsExclusive two_requests fresh (1, refl, omega arith) fresh-IsSound

abbrev orphaned_one : Reservation
orphaned_one = record asked { status = cancelling }

activate_reservation_example :
    active_reservation "evse-1" (activate_reservation (pos 1) noon noon all_works holding_pending).0
    ≡ some accepted_one
unfolding activate_reservation activate_locked lookup arm
activate_reservation_example =
    activate_reservation-active_reservation (pos 1) noon noon all_works holding_pending accepted_one
      holding_pending-IsSound refl

abbrev after_orphan : Service
after_orphan =
    (end_reservation (pos 1) failed one_o_clock all_works
      (orphan_reservation (pos 1) timeout noon holding_pending).0).0

orphan_reservation-end_reservation_example :
    (after_orphan.bus ≡ publish (reservation_event "timeout" noon orphaned_one) holding_pending.bus)
    × (after_orphan.store ≡ holding_pending.store)
    × (lookup (pos 1) after_orphan.reservations ≡ none)
unfolding orphan_reservation orphan_locked lookup
orphan_reservation-end_reservation_example =
    orphan_reservation-end_reservation (pos 1) timeout failed noon one_o_clock all_works
      holding_pending orphaned_one holding_pending-IsSound refl
