-- ===== src/Core/Persist/Saved.antt =====
-- What the state file says of core after a write. About internal/core/persist.go.
use headless_csms.Prelude.{
  ◌≡◌, ◌≢◌, refl, sym, ap, ◌∙◌, subst, ◌⊎◌, inl, inr, ◌↔◌, String, Bool, true, none, some, ℤ, ok,
  ltb, ltb_ℤ, Option, IsIn, IsIn-map, map-IsIn,
}
use headless_csms.Clock.{is_zero, utc}
use headless_csms.State
use headless_csms.State.{
  State, normalize, normalize_registration, normalize_reservation, normalize_transaction,
}
use headless_csms.State.Store.{Store, StoreError, Outcome, update}
use headless_csms.State.Laws.{update_all_or_nothing}
use headless_csms.Core.Sort.{sort}
use headless_csms.Core.Types.{Transaction, active, TimedReservation, ChargePointState, Service}
use headless_csms.Core.Persist.{
  reservation_dto, transaction_dto, held, all_running, persistable_reservations,
  persistable_transactions, write_domain, persist, persist_to,
}
use headless_csms.Core.Persist.Listed.{
  sort-IsIn, IsIn-sort, held-IsHeld, IsHeld-held, all_running-IsIn, IsIn-all_running,
}

-- A reservation and a transaction as the state file has them.
abbrev pub saved_reservation : TimedReservation → State.Reservation
saved_reservation r = record {
  id = r.id;
  ocpi_reservation_id = r.ocpi_reservation_id;
  charge_point_id = r.charge_point_id;
  evse_uid = r.evse_uid;
  id_tag = r.id_tag;
  expires_at = utc r.expires_at;
  created_at = utc r.created_at;
  source = r.source;
  response_url = r.response_url;
}

abbrev pub saved_transaction : ChargePointState → Transaction → State.Transaction
saved_transaction cp tx = record {
  id = tx.id;
  charge_point_id = cp.id;
  evse_uid = tx.evse_uid;
  connector_id = tx.connector_id;
  id_tag = tx.id_tag;
  meter_start = tx.meter_start;
  started_at = utc tx.started_at;
  reservation_id = tx.reservation_id;
}

-- The state `after` says all of core that survives a restart, and nothing else of it; of what was
-- stored before it keeps the OCPI registration.
pub record HoldsDomain (s : Service) (before after : State) : Type 0 where
  pub next_reservation_id : after.next_reservation_id ≡ s.next_reservation_id
  pub next_transaction_id : after.next_transaction_id ≡ s.next_transaction_id
  pub next_remote_start_id : after.next_remote_start_id ≡ s.next_remote_start_id
  pub ocpi : after.ocpi ≡ normalize_registration before.ocpi
  pub reservations :
      (d : State.Reservation)
      → IsIn d after.reservations ↔ (
          (k : ℤ) × (r : TimedReservation) × IsIn (k, r) s.reservations
          × (r.status ≡ active)
          × (d ≡ saved_reservation r))
  pub transactions :
      (d : State.Transaction)
      → IsIn d after.transactions ↔ (
          (k : String) × (cp : ChargePointState) × (id : String) × (tx : Transaction) × IsIn
            (k, cp)
            s.cps
          × IsIn (id, tx) cp.transactions
          × (is_zero tx.stopped_at ≡ true)
          × (d ≡ saved_transaction cp tx))

-- The function that `persist` hands to the store, seen through what the store makes of its result.
write_domain-HoldsDomain :
    (s : Service) (before next : State)
    → write_domain s before ≡ ok next
    → HoldsDomain s before (normalize next)
unfolding write_domain persistable_reservations persistable_transactions normalize
write_domain-HoldsDomain s before next p = subst (λ x. HoldsDomain s before (normalize x)) same made
  where
    written : State
    written = record before {
      next_reservation_id = s.next_reservation_id;
      next_transaction_id = s.next_transaction_id;
      next_remote_start_id = s.next_remote_start_id;
      reservations = persistable_reservations s;
      transactions = persistable_transactions s;
    }

    same : written ≡ next
    same = cc (p)

    less_id : State.Reservation → State.Reservation → Bool
    less_id a b = ltb_ℤ a.id b.id

    less_seq : String × Transaction → String × Transaction → Bool
    less_seq a b = ltb (a.1).seq (b.1).seq

    made : HoldsDomain s before (normalize written)
    made = record {
      next_reservation_id = refl;
      next_transaction_id = refl;
      next_remote_start_id = refl;
      ocpi = refl;
      reservations = λ d. (
        λ h.
            let (x, i, e) = IsIn-map normalize_reservation d (persistable_reservations s) h in
            let (k, r, i', a, e') =
              held-IsHeld x s.reservations (IsIn-sort less_id x (held s.reservations) i) in
            (k, r, i', a, e ∙ ap normalize_reservation e'),
        λ (k, r, i, a, e).
            subst (λ x. IsIn x (normalize written).reservations) (sym e)
              (map-IsIn normalize_reservation (reservation_dto r.reservation)
                (persistable_reservations s)
                (sort-IsIn less_id (reservation_dto r.reservation) (held s.reservations)
                  (IsHeld-held k r s.reservations i a))),
      );
      transactions = λ d. (
        λ h.
            let (x, i, e) = IsIn-map normalize_transaction d (persistable_transactions s) h in
            let (y, i', e') = IsIn-map transaction_dto x (sort less_seq (all_running s.cps)) i in
            let (k, cp, id, tx, at, on, a, e'') =
              all_running-IsIn y s.cps (IsIn-sort less_seq y (all_running s.cps) i') in
            (k, cp, id, tx, at, on, a, e ∙ ap normalize_transaction (e' ∙ ap transaction_dto e'')),
        λ (k, cp, id, tx, at, on, a, e).
            subst (λ x. IsIn x (normalize written).transactions) (sym e)
              (map-IsIn normalize_transaction (transaction_dto (cp.id, tx))
                (persistable_transactions s)
                (map-IsIn transaction_dto (cp.id, tx) (sort less_seq (all_running s.cps))
                  (sort-IsIn less_seq (cp.id, tx) (all_running s.cps)
                    (IsIn-all_running k cp id tx s.cps at on a)))),
      );
    }

-- With a store, a write either reports no error, and the store then says all of core that survives a
-- restart: the three counters, exactly the active reservations and exactly the running transactions
-- of every station, field by field, times in UTC, beside the OCPI registration that it had; or it
-- reports an error, and the store's state is as before. Core is the same but for the store.
pub persist-HoldsDomain :
    (o : Outcome) (s : Service) (st : Store)
    → s.store ≡ some st
    → (after : Store) × ((persist o s).0 ≡ record s { store = some after })
      × (((persist o s).1 ≡ none) × HoldsDomain s st.state after.state
          ⊎ ((persist o s).1 ≢ none) × (after.state ≡ st.state))
unfolding persist persist_to
persist-HoldsDomain o s st e =
    let after = update (write_domain s) o st in
    let opened : persist o s ≡ (record s { store = some after.0 }, after.1) =
      ap (persist_to o s) e in
    (
      after.0,
      ap (λ (x : Service × Option StoreError). x.0) opened,
      elim (update_all_or_nothing (write_domain s) o st) [
        | inl (next, p, no_error, q, _, _) ↦ inl (
          ap (λ (x : Service × Option StoreError). x.1) opened ∙ no_error,
          subst (HoldsDomain s st.state) (sym q) (write_domain-HoldsDomain s st.state next p),
        )
        | inr (failed, same, _, _) ↦
            inr (λ h. failed (sym (ap (λ (x : Service × Option StoreError). x.1) opened) ∙ h), same)
      ],
    )
