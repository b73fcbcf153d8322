-- ===== src/Core/Reservations.antt =====
-- internal/core/reservations.go. Each operation is its locked section, then the write and the event.
pub mod Begin
pub mod Exclusive
pub mod Lifecycle
use headless_csms.Prelude.{
  String, Bool, true, false, ◌||◌, not, List, [], ◌∷◌, Option, none, some, if◌then◌else◌, ltb_ℤ, ℤ,
  succ, ◌==◌, string_eq, int_eq, lookup, insert, delete, Result, ok, err,
}
use headless_csms.Clock.{Time, is_same_instant, rfc3339}
use headless_csms.State.Store.{StoreError, Outcome}
use headless_csms.Core.Sort.{sort}
use headless_csms.Core.Event.{Event, reservation_created, reservation_ended, new_event, publish}
use headless_csms.Core.Types.{
  Reservation, ReservationStatus, pending, active, cancelling, TimedReservation, Service,
}
use headless_csms.Core.Persist.{
  eq_reservation_status, is_held, persist, persist_or_log, connector_id, arm,
}

-- Why a reservation ended.
pub data EndReason : Type 0 where
  expired cancelled consumed rejected timeout failed : EndReason

abbrev pub reason_text : EndReason → String
reason_text expired = "expired"
reason_text cancelled = "cancelled"
reason_text consumed = "consumed"
reason_text rejected = "rejected"
reason_text timeout = "timeout"
reason_text failed = "failed"

pub data CoreError : Type 0 where
  unknown_evse already_reserved : String → CoreError
  -- "recording the reservation: %w".
  recording : StoreError → CoreError

-- The loop of `reservationOnLocked`.
unfoldable pub find_on : String → List (ℤ × TimedReservation) → Option TimedReservation
find_on uid [] = none
find_on uid ((k, r) ∷ rs) = if r.evse_uid == uid then some r else find_on uid rs

unfoldable pub reservation_on : String → Service → Option TimedReservation
reservation_on uid s = find_on uid s.reservations

-- The reservation as `BeginReservation` records it.
abbrev pub begun : Reservation → ℤ → ℤ → Time → Reservation
begun r id connector now = record r {
  id = id;
  connector_id = connector;
  created_at = now;
  status = pending;
}

unfoldable pub begin_locked :
    Reservation → Time → Service → Result CoreError (Reservation × Service)
unfolding reservation_on
begin_locked r now s = elim (connector_id s.cfg r.evse_uid) [
  | none ↦ err (unknown_evse r.evse_uid)
  | some c ↦ elim (reservation_on r.evse_uid s) [
    | some other ↦ err (already_reserved r.evse_uid)
    | none ↦
        let r' = begun r s.next_reservation_id c now in
        ok (
          r',
          record s {
            next_reservation_id = succ s.next_reservation_id;
            reservations =
                insert s.next_reservation_id (record { reservation = r'; timer = none })
                  s.reservations;
          },
        )
  ]
]

-- `delete(s.reservations, id)`.
unfoldable pub forget : ℤ → Service → Service
forget id s = record s { reservations = delete id s.reservations }

abbrev pub recorded :
    Reservation → Service × Option StoreError → Service × Result CoreError Reservation
recorded r (s, none) = (s, ok r)
recorded r (s, some e) = (forget r.id s, err (recording e))

unfoldable pub begin_reservation :
    Reservation → Time → Outcome → Service → Service × Result CoreError Reservation
unfolding begin_locked
begin_reservation r now o s = elim (begin_locked r now s) [
  | err e ↦ (s, err e)
  | ok (r', s') ↦ recorded r' (persist o s')
]

unfoldable pub activate_locked : ℤ → Time → Service → Option (Reservation × Service)
activate_locked id now s = elim (lookup id s.reservations) [
  | none ↦ none
  | some r ↦
      if not (eq_reservation_status r.status pending)
      then none
      else (let r' =
            arm now (record r { reservation = record (r.reservation) { status = active } }) in
          some (r'.reservation, record s { reservations = insert id r' s.reservations }))
]

-- The event about a reservation, at a reading of the clock.
abbrev pub reservation_event : String → Time → Reservation → Event
reservation_event detail at r = record (new_event reservation_ended at r.charge_point_id) {
  evse_uid = r.evse_uid;
  reservation_id = r.id;
  id_tag = r.id_tag;
  detail = detail;
}

abbrev pub publishing : Event → Service → Service
publishing e s = record s { bus = publish e s.bus }

-- `now` is read under the lock and `at` for the event.
unfoldable pub activate_reservation :
    ℤ → Time → Time → Outcome → Service → Service × Option Reservation
unfolding activate_locked
activate_reservation id now at o s = elim (activate_locked id now s) [
  | none ↦ (s, none)
  | some (r, s') ↦ (
    publishing
        (record (reservation_event (rfc3339 r.expires_at) at r) { kind = reservation_created })
        (persist_or_log o s'),
    some r,
  )
]

-- `endLocked`, which also stops the timer.
unfoldable pub end_locked : TimedReservation → EndReason → Time → Service → Service × Event
unfolding forget
end_locked r reason now s =
    (forget r.id s, reservation_event (reason_text reason) now r.reservation)

-- The locked section of `EndReservation`: the reservation as it was, the new state, and the event.
unfoldable pub end_by_id_locked :
    ℤ → EndReason → Time → Service → Option (TimedReservation × Service × Event)
end_by_id_locked id reason now s = elim (lookup id s.reservations) [
  | none ↦ none
  | some r ↦ let (s', event) = end_locked r reason now s in some (r, s', event)
]

unfoldable pub end_reservation :
    ℤ → EndReason → Time → Outcome → Service → Service × Option Reservation
unfolding end_by_id_locked
end_reservation id reason now o s = elim (end_by_id_locked id reason now s) [
  | none ↦ (s, none)
  | some (r, s', event) ↦
      if eq_reservation_status r.status cancelling
      then (s', some r.reservation)
      else (publishing event (persist_or_log o s'), some r.reservation)
]

unfoldable pub orphan_locked : ℤ → Service → Option (Reservation × Service)
orphan_locked id s = elim (lookup id s.reservations) [
  | none ↦ none
  | some r ↦
      if not (eq_reservation_status r.status pending)
      then none
      else (let out = record (r.reservation) { status = cancelling } in
          let r' : TimedReservation = record { reservation = out; timer = none } in
          some (out, record s { reservations = insert id r' s.reservations }))
]

unfoldable pub orphan_reservation : ℤ → EndReason → Time → Service → Service × Option Reservation
unfolding orphan_locked
orphan_reservation id reason at s = elim (orphan_locked id s) [
  | none ↦ (s, none)
  | some (out, s') ↦ (publishing (reservation_event (reason_text reason) at out) s', some out)
]

unfoldable pub active_reservation : String → Service → Option Reservation
unfolding reservation_on
active_reservation uid s = elim (reservation_on uid s) [
  | none ↦ none
  | some r ↦ if is_held r.status then some r.reservation else none
]

-- The callback of a timer, which may run after it was stopped.
unfoldable pub expire_locked : ℤ → Time → Time → Service → Option (Service × Event)
expire_locked id expires_at now s = elim (lookup id s.reservations) [
  | none ↦ none
  | some r ↦
      if not (is_held r.status) || not (is_same_instant r.expires_at expires_at)
      then none
      else some (end_locked r expired now s)
]

unfoldable pub expire : ℤ → Time → Time → Outcome → Service → Service
unfolding expire_locked
expire id expires_at now o s = elim (expire_locked id expires_at now s) [
  | none ↦ s
  | some (s', event) ↦ publishing event (persist_or_log o s')
]

unfoldable pub of_charge_point : String → List (ℤ × TimedReservation) → List Reservation
of_charge_point cp_id [] = []
of_charge_point cp_id ((k, r) ∷ rs) =
    let rest = of_charge_point cp_id rs in
    if r.charge_point_id == cp_id then r.reservation ∷ rest else rest

unfoldable pub reservations_of : String → Service → List Reservation
unfolding of_charge_point sort
reservations_of cp_id s = sort (λ a b. ltb_ℤ a.id b.id) (of_charge_point cp_id s.reservations)
