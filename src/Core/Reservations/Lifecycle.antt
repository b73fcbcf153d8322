-- ===== src/Core/Reservations/Lifecycle.antt =====
-- A reservation from its request to its end: what each operation does on each of its branches.
-- About internal/core/reservations.go.
use headless_csms.Prelude.{
  ◌≡◌, refl, sym, ap, ◌∙◌, subst, ◌⊎◌, inl, inr, not, ◌||◌, List, none, some, ℤ, succ, Option-cases,
  Bool-cases, lookup, insert, lookup-insert_self, lookup-delete_self, IsMap, ok, err, arith, int_eq,
  string_eq,
}
use headless_csms.Clock.{Time, is_same_instant}
use headless_csms.State.Store.{Store, Outcome}
use headless_csms.Core.Event.{publish}
use headless_csms.Core.Types.{Reservation, pending, active, cancelling, TimedReservation, Service}
use headless_csms.Core.Persist.{is_held, persist_or_log, connector_id, arm}
use headless_csms.Core.Persist.Frame.{
  persist_frame, persist_or_log_frame, HasWritten, persist-HasWritten, HasWritten-counter,
}
use headless_csms.Core.Reservations.{
  EndReason, reason_text, unknown_evse, already_reserved, find_on, reservation_on, begun,
  begin_locked, begin_reservation, forget, activate_locked, activate_reservation, reservation_event,
  end_locked, end_by_id_locked, end_reservation, orphan_locked, orphan_reservation,
  active_reservation, expire_locked, expire, publishing,
}
use headless_csms.Core.Reservations.Exclusive.{
  IsExclusive, replace-IsExclusive, find_on_lem, find_on-none, find_on-some,
}
use headless_csms.Core.Reservations.Begin.{
  begun_state, begin_locked_branches, begin_locked-ok, IsTaken, IsRecorded, HasGained,
  HasGained-begun, begin_reservation-inv,
}

-- On a table where no id stands twice, a request is accepted if its EVSE is configured and no entry
-- of any status stands on it; it is then recorded as pending under the id that the counter had, in an
-- entry of its own, and nothing else changes but the counter. Otherwise it is refused, as unknown
-- if the EVSE is not configured, and as already reserved if there is such an entry.
pub begin_locked_cases :
    (r : Reservation) (now : Time) (s : Service)
    → IsMap s.reservations
    → ((c : ℤ) × (q : Reservation) × (t : Service) × (connector_id s.cfg r.evse_uid ≡ some c)
        × (¬ IsTaken r s)
        × (begin_locked r now s ≡ ok (q, t))
        × IsRecorded r s.next_reservation_id c now q
        × HasGained q s t)
      ⊎ ((connector_id s.cfg r.evse_uid ≡ none)
          × (begin_locked r now s ≡ err (unknown_evse r.evse_uid)))
      ⊎ ((c : ℤ) × (connector_id s.cfg r.evse_uid ≡ some c)
          × IsTaken r s
          × (begin_locked r now s ≡ err (already_reserved r.evse_uid)))
unfolding reservation_on
begin_locked_cases r now s v = elim (begin_locked_branches r now s) [
  | inl (c, e, f, p) ↦
      let q = begun r s.next_reservation_id c now in
      inl (
        c,
        q,
        begun_state q s,
        e,
        λ (k, other, g, u). find_on-none r.evse_uid s.reservations k other f g u,
        p,
        (refl, refl, refl, refl, refl, refl, refl, refl, refl, refl, refl),
        HasGained-begun q s refl,
      )
  | inr (e, p, inl (f, same)) ↦ inr (inl (f, rw (← same) p))
  | inr (e, p, inr ((q, f), same)) ↦ elim (Option-cases (connector_id s.cfg r.evse_uid)) [
    | inl g ↦ inr (inl (g, unfold begin_locked in ground arith))
    | inr (c, g) ↦
        let (k, there, on_it) = find_on-some r.evse_uid s.reservations q v f in
        inr (inr (c, g, (k, q, there, on_it), rw (← same) p))
  ]
]

-- A reservation that `BeginReservation` returns is recorded as pending under the id that the counter
-- had, and if there is a store, the counter kept there has already passed that id.
pub begin_reservation-ok :
    (r q : Reservation) (now : Time) (o : Outcome) (s t : Service)
    → begin_reservation r now o s ≡ (t, ok q)
    → (q.status ≡ pending)
      × (q.id ≡ s.next_reservation_id)
      × (lookup q.id t.reservations ≡ some (record { reservation = q; timer = none }))
      × ((st : Store) → t.store ≡ some st → st.state.next_reservation_id ≡ succ q.id)
begin_reservation-ok r q now o s t h =
    let (s', p, a, b) = begin_reservation-inv r q now o s t h in
    let (pend, id, _, _, e) = begin_locked-ok r q now s s' p in
    let frame = persist_frame o s' in
    let rows : t.reservations ≡ (begun_state q s).reservations =
      ap (λ (u : Service). u.reservations) (sym a ∙ frame)
      ∙ ap (λ (u : Service). u.reservations) e in
    let new : TimedReservation = record { reservation = q; timer = none } in
    (
      pend,
      id,
      ap (lookup q.id) rows
          ∙ subst (λ k. lookup k (insert s.next_reservation_id new s.reservations) ≡ some new)
              (sym id) (lookup-insert_self s.next_reservation_id new s.reservations),
      λ st f.
          HasWritten-counter s' t.store
            (subst (λ (u : Service). HasWritten s' u.store) a (persist-HasWritten o s' b)) st f
          ∙ ap (λ (u : Service). u.next_reservation_id) e
          ∙ ap succ (sym id),
    )

-- A stale timer changes nothing: `expire` acts only on an active reservation with the very expiry
-- for which the timer was armed, and then removes it, writes the store and reports "expired".
pub expire_cases :
    (id : ℤ) (t now : Time) (o : Outcome) (s : Service)
    → ((q : TimedReservation) × (lookup id s.reservations ≡ some q)
        × (q.status ≡ active)
        × (q.expires_at.nanos ≡ t.nanos)
        × (expire id t now o s
            ≡ publishing
                (reservation_event "expired" now q.reservation)
                (persist_or_log o (forget q.id s))))
      ⊎ (expire id t now o s ≡ s)
unfolding expire expire_locked end_locked
expire_cases id t now o s = elim (Option-cases (lookup id s.reservations)) [
  | inl e ↦ inr (ground arith)
  | inr (q, e) ↦
      elim (Bool-cases (not (is_held q.status) || not (is_same_instant q.expires_at t))) [
        | inl y ↦ inr (ground arith)
        | inr n ↦ inl (q, e, ground arith, ground arith, ground arith)
      ]
]

activate_reservation-inv :
    (id : ℤ) (now at : Time) (o : Outcome) (s : Service) (q : Reservation)
    → (activate_reservation id now at o s).1 ≡ some q
    → (r : TimedReservation) × (lookup id s.reservations ≡ some r)
      × (r.status ≡ pending)
      × (q ≡ record (r.reservation) { status = active })
      × ((activate_reservation id now at o s).0.reservations
          ≡ insert id (arm now (record { reservation = q; timer = r.timer })) s.reservations)
unfolding activate_reservation activate_locked arm
activate_reservation-inv id now at o s q h = elim (Option-cases (lookup id s.reservations)) [
  | inl e ↦ absurd (ground arith)
  | inr (r, e) ↦ (
    r,
    e,
    ground arith,
    ground arith,
    ground (
      arith,
      persist_or_log_frame o (record s {
        reservations =
            insert id
              (arm now (record {
                reservation = record (r.reservation) { status = active };
                timer = r.timer;
              }))
              s.reservations;
      }),
    ),
  )
]

orphan_reservation-inv :
    (id : ℤ) (reason : EndReason) (at : Time) (s : Service) (q : Reservation)
    → (orphan_reservation id reason at s).1 ≡ some q
    → (r : TimedReservation) × (lookup id s.reservations ≡ some r)
      × (r.status ≡ pending)
      × (q ≡ record (r.reservation) { status = cancelling })
      × ((orphan_reservation id reason at s).0
          ≡ publishing (reservation_event (reason_text reason) at q) (record s {
            reservations = insert id (record { reservation = q; timer = none }) s.reservations;
          }))
unfolding orphan_reservation orphan_locked
orphan_reservation-inv id reason at s q h = elim (Option-cases (lookup id s.reservations)) [
  | inl e ↦ absurd (ground arith)
  | inr (r, e) ↦ (r, e, ground arith, ground arith, ground arith)
]

-- The table after an entry has changed its status: the loop finds the changed entry on its EVSE.
find_on-replace :
    (m : List (ℤ × TimedReservation)) (next id : ℤ) (r r' : TimedReservation)
    → IsExclusive m next
    → lookup id m ≡ some r
    → r'.id ≡ r.id
    → r'.evse_uid ≡ r.evse_uid
    → find_on r'.evse_uid (insert id r' m) ≡ some r'
find_on-replace m next id r r' v e same_id same_evse =
    find_on_lem (insert id r' m) next id r' (replace-IsExclusive v id r r' e same_id same_evse)
      (lookup-insert_self id r' m)

-- In a sound table, a reservation that ActivateReservation returns is the one that its EVSE then
-- holds.
pub activate_reservation-active_reservation :
    (id : ℤ) (now at : Time) (o : Outcome) (s : Service) (q : Reservation)
    → IsExclusive s.reservations s.next_reservation_id
    → (activate_reservation id now at o s).1 ≡ some q
    → active_reservation q.evse_uid (activate_reservation id now at o s).0 ≡ some q
unfolding active_reservation arm
activate_reservation-active_reservation id now at o s q v h =
    let (r, e, _, same, rows) = activate_reservation-inv id now at o s q h in
    let found =
      find_on-replace s.reservations s.next_reservation_id id r
        (arm now (record { reservation = q; timer = r.timer })) v e
        (ap (λ (p : Reservation). p.id) same) (ap (λ (p : Reservation). p.evse_uid) same) in
    ground (arith, found)

-- After a ReserveNow without an answer, in a sound table, the reservation is no longer held, but
-- it keeps its EVSE: any further request for that configured EVSE is refused.
pub orphan_reservation-occupied :
    (id : ℤ) (reason : EndReason) (at : Time) (s : Service) (q r' : Reservation) (now : Time)
    (c : ℤ)
    → IsExclusive s.reservations s.next_reservation_id
    → (orphan_reservation id reason at s).1 ≡ some q
    → r'.evse_uid ≡ q.evse_uid
    → connector_id s.cfg r'.evse_uid ≡ some c
    → (active_reservation q.evse_uid (orphan_reservation id reason at s).0 ≡ none)
      × (begin_locked r' now (orphan_reservation id reason at s).0
          ≡ err (already_reserved r'.evse_uid))
unfolding active_reservation begin_locked
orphan_reservation-occupied id reason at s q r' now c v h u k =
    let (r, e, _, same, rows) = orphan_reservation-inv id reason at s q h in
    let found =
      find_on-replace s.reservations s.next_reservation_id id r
        (record { reservation = q; timer = none }) v e (ap (λ (p : Reservation). p.id) same)
        (ap (λ (p : Reservation). p.evse_uid) same) in
    (ground (arith, found), ground (arith, found))

-- In a sound table, a reservation that was orphaned ends with one event in all: the orphaning
-- reports it, and its later end publishes nothing, writes nothing, and removes the entry.
pub orphan_reservation-end_reservation :
    (id : ℤ) (reason later : EndReason) (at now : Time) (o : Outcome) (s : Service)
    (q : Reservation)
    → IsExclusive s.reservations s.next_reservation_id
    → (orphan_reservation id reason at s).1 ≡ some q
    → let t = (end_reservation id later now o (orphan_reservation id reason at s).0).0 in
      (t.bus ≡ publish (reservation_event (reason_text reason) at q) s.bus)
      × (t.store ≡ s.store)
      × (lookup id t.reservations ≡ none)
unfolding end_reservation end_by_id_locked end_locked forget
orphan_reservation-end_reservation id reason later at now o s q v h =
    let (r, e, _, same, rows) = orphan_reservation-inv id reason at s q h in
    let new : TimedReservation = record { reservation = q; timer = none } in
    let there = lookup-insert_self id new s.reservations in
    let key : q.id ≡ id = ap (λ (p : Reservation). p.id) same ∙ v.keyed id r e in
    (
      ground (arith, there),
      ground (arith, there),
      ground (arith, there, lookup-delete_self id (insert id new s.reservations)),
    )
