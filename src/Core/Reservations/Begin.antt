-- ===== src/Core/Reservations/Begin.antt =====
-- A request that becomes a reservation: what `BeginReservation` records. About
-- internal/core/reservations.go.
use headless_csms.Prelude.{
  ◌≡◌, refl, sym, ◌∙◌, subst, ◌⊎◌, inl, inr, Option, none, some, ℤ, succ, Option-cases, lookup,
  insert, lookup-insert_self, lookup-insert_ne, ==_false, ◌≢◌, Result, ok, err, arith, int_eq,
  string_eq,
}
use headless_csms.Clock.{Time}
use headless_csms.State.Store.{StoreError, Outcome}
use headless_csms.Core.Types.{Reservation, pending, TimedReservation, Service}
use headless_csms.Core.Persist.{persist, connector_id}
use headless_csms.Core.Reservations.{
  CoreError, unknown_evse, already_reserved, reservation_on, begun, begin_locked, begin_reservation,
  recorded,
}

-- The reservation and the state after a begin that succeeds.
abbrev pub begun_state : Reservation → Service → Service
begun_state q s = record s {
  next_reservation_id = succ s.next_reservation_id;
  reservations =
      insert s.next_reservation_id (record { reservation = q; timer = none }) s.reservations;
}

pub begin_locked_branches :
    (r : Reservation) (now : Time) (s : Service)
    → ((c : ℤ) × (connector_id s.cfg r.evse_uid ≡ some c)
        × (reservation_on r.evse_uid s ≡ none)
        × (begin_locked r now s
            ≡ ok (
              begun r s.next_reservation_id c now,
              begun_state (begun r s.next_reservation_id c now) s,
            )))
      ⊎ ((e : CoreError) × (begin_locked r now s ≡ err e)
          × ((connector_id s.cfg r.evse_uid ≡ none) × (e ≡ unknown_evse r.evse_uid)
              ⊎ ((q : TimedReservation) × (reservation_on r.evse_uid s ≡ some q))
                × (e ≡ already_reserved r.evse_uid)))
unfolding begin_locked
begin_locked_branches r now s = elim (Option-cases (connector_id s.cfg r.evse_uid)) [
  | inl e ↦ inr (unknown_evse r.evse_uid, ground arith, inl (e, refl))
  | inr (c, e) ↦ elim (Option-cases (reservation_on r.evse_uid s)) [
    | inl f ↦ inl (c, e, f, rw (e, begin_locked, f) refl)
    | inr (q, f) ↦
        inr (already_reserved r.evse_uid, rw (e, begin_locked, f) refl, inr ((q, f), refl))
  ]
]

pub begin_locked-ok :
    (r q : Reservation) (now : Time) (s s' : Service)
    → begin_locked r now s ≡ ok (q, s')
    → (q.status ≡ pending)
      × (q.id ≡ s.next_reservation_id)
      × (q.evse_uid ≡ r.evse_uid)
      × (reservation_on r.evse_uid s ≡ none)
      × (s' ≡ begun_state q s)
begin_locked-ok r q now s s' h = elim (begin_locked_branches r now s) [
  | inl (c, e, f, p) ↦ (ground arith, ground arith, ground arith, f, ground arith)
  | inr (e, p, _) ↦ absurd (ground arith)
]

-- Whatever its status, an entry on the EVSE of a request.
abbrev pub IsTaken : Reservation → Service → Type 0
IsTaken r s =
    (k : ℤ) × (p : TimedReservation) × (lookup k s.reservations ≡ some p)
    × (p.evse_uid ≡ r.evse_uid)

-- A request as it is recorded: pending, under a new id, on the connector of its EVSE.
abbrev pub IsRecorded : Reservation → ℤ → ℤ → Time → Reservation → Type 0
IsRecorded r id connector now q =
    (q.status ≡ pending)
    × (q.id ≡ id)
    × (q.connector_id ≡ connector)
    × (q.created_at ≡ now)
    × (q.evse_uid ≡ r.evse_uid)
    × (q.charge_point_id ≡ r.charge_point_id)
    × (q.id_tag ≡ r.id_tag)
    × (q.expires_at ≡ r.expires_at)
    × (q.ocpi_reservation_id ≡ r.ocpi_reservation_id)
    × (q.source ≡ r.source)
    × (q.response_url ≡ r.response_url)

-- The state after: one entry more, without a timer, the counter one higher, and nothing else changed.
abbrev pub HasGained : Reservation → Service → Service → Type 0
HasGained q s t =
    (lookup q.id t.reservations ≡ some (record { reservation = q; timer = none }))
    × ((k : ℤ) → k ≢ q.id → lookup k t.reservations ≡ lookup k s.reservations)
    × (t ≡ record s {
      next_reservation_id = succ s.next_reservation_id;
      reservations = t.reservations;
    })

pub HasGained-begun :
    (q : Reservation) (s : Service) → q.id ≡ s.next_reservation_id → HasGained q s (begun_state q s)
HasGained-begun q s same =
    let new : TimedReservation = record { reservation = q; timer = none } in
    (
      subst (λ k. lookup k (insert s.next_reservation_id new s.reservations) ≡ some new) (sym same)
          (lookup-insert_self s.next_reservation_id new s.reservations),
      λ k other.
          lookup-insert_ne s.next_reservation_id k new s.reservations
            (==_false s.next_reservation_id k (λ e. other (sym e ∙ sym same))),
      refl,
    )

recorded-ok :
    (r q : Reservation) (p : Service × Option StoreError) (t : Service)
    → recorded r p ≡ (t, ok q)
    → (r ≡ q) × (p.0 ≡ t) × (p.1 ≡ none)
recorded-ok r q (s, none) t h = (ground arith, ground arith, refl)
recorded-ok r q (s, some e) t h = absurd (ground arith)

-- A begin that returns a reservation went through its locked section and a write without an error.
pub begin_reservation-inv :
    (r q : Reservation) (now : Time) (o : Outcome) (s t : Service)
    → begin_reservation r now o s ≡ (t, ok q)
    → (s' : Service) × (begin_locked r now s ≡ ok (q, s'))
      × ((persist o s').0 ≡ t)
      × ((persist o s').1 ≡ none)
unfolding begin_reservation
begin_reservation-inv r q now o s t h = by_result (begin_locked r now s) refl
  where
    by_result :
        (x : Result CoreError (Reservation × Service))
        → begin_locked r now s ≡ x
        → (s' : Service) × (begin_locked r now s ≡ ok (q, s'))
          × ((persist o s').0 ≡ t)
          × ((persist o s').1 ≡ none)
    by_result (err e) p = absurd (ground arith)
    by_result (ok (q', s')) p =
        let g : recorded q' (persist o s') ≡ (t, ok q) = rw (p, begin_reservation) at h in
        let (same, a, b) = recorded-ok q' q (persist o s') t g in (s', rw (← same) p, a, b)
