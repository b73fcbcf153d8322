-- ===== src/Core/Transactions/Redeem.antt =====
-- A session and the reservation that it redeems. About internal/core/transactions.go.
use headless_csms.Prelude.{
  ◌≡◌, ◌≢◌, refl, sym, ap, ◌∙◌, subst, ==_cases, Option, ◌⊎◌, inl, inr, String, true, false, not,
  ◌&&◌, [], ◌∷◌, none, some, ℤ, Option-cases, Bool-cases, lookup, delete, lookup-insert_self,
  lookup-delete_self, IsMap, arith, string_eq, int_eq, ◌==◌,
}
use headless_csms.Clock.{Time, is_zero}
use headless_csms.Core.Types.{
  Transaction, TransactionStart, is_active, active, TimedReservation, ChargePointState, Service,
}
use headless_csms.Core.Service.Repeat.{ensure-put}
use headless_csms.Core.Service.{ensure}
use headless_csms.Core.Persist.{is_held}
use headless_csms.Core.Reservations.{end_locked, forget, reservation_event}
use headless_csms.Core.Reservations.Exclusive.{IsExclusive}
use headless_csms.Core.Transactions.{
  find_tagged, find_held, named, redeemed, settle, stop_locked, equal_fold,
}
use headless_csms.Core.Transactions.Held.{
  find_held-some, delete-find_held, find_held-delete, find_tagged-some,
}

named-some :
    (cp : String) (id : ℤ) (s : Service) (r : TimedReservation)
    → named cp id s ≡ some r
    → (lookup id s.reservations ≡ some r) × ((r.charge_point_id == cp && is_held r.status) ≡ true)
unfolding named
named-some cp id s r h = (ground arith, ground arith)

redeemed_cases :
    (cp uid : String) (t : TransactionStart) (s : Service) (r : TimedReservation)
    → redeemed cp uid t s ≡ some r
    → (named cp t.reservation_id s ≡ some r) ⊎ (find_tagged cp uid t.id_tag s.reservations ≡ some r)
unfolding redeemed
redeemed_cases cp uid t s r h = elim (Option-cases (named cp t.reservation_id s)) [
  | inr (q, e) ↦ inl (ground arith)
  | inl e ↦ inr (ground arith)
]

-- The station named an active reservation of its own, on another EVSE than the session's: it is gone
-- instead, and what the session's EVSE held is held there still.
abbrev pub IsElsewhere : String → String → TransactionStart → Service → Service → Type 0
IsElsewhere cp uid t s after =
    (r : TimedReservation) × (named cp t.reservation_id s ≡ some r)
    × (r.evse_uid ≢ uid)
    × (lookup r.id after.reservations ≡ none)
    × (find_held cp uid after.reservations ≡ find_held cp uid s.reservations)

-- Removing the entry that is redeemed, which is under the key `k`.
forget-find_held :
    (cp uid : String) (t : TransactionStart) (s : Service) (r : TimedReservation) (k : ℤ)
    → IsExclusive s.reservations s.next_reservation_id
    → lookup k s.reservations ≡ some r
    → (named cp t.reservation_id s ≡ some r) ⊎ (r.evse_uid ≡ uid)
    → (find_held cp uid (delete r.id s.reservations) ≡ none)
      ⊎ IsElsewhere cp uid t s (record s { reservations = delete r.id s.reservations })
forget-find_held cp uid t s r k v e (inr on_it) =
    inl (delete-find_held cp uid s.reservations s.next_reservation_id k r v e on_it)
forget-find_held cp uid t s r k v e (inl is_named) = elim (==_cases r.evse_uid uid) [
  | inl y ↦ inl (delete-find_held cp uid s.reservations s.next_reservation_id k r v e y.1)
  | inr n ↦ inr (
    r,
    is_named,
    n.1,
    lookup-delete_self r.id s.reservations,
    find_held-delete cp uid s.reservations r.id v.is_map λ q f.
        let same : k ≡ r.id = sym (v.keyed k r e) in
        let alike : r.evse_uid ≡ q.evse_uid =
          ap (λ (x : Option TimedReservation). elim x [ none ↦ r.evse_uid | some y ↦ y.evse_uid ])
            (sym e ∙ ap (λ i. lookup i s.reservations) same ∙ f) in
        ground (arith, n.0, alike),
  )
]

redeemed-some :
    (cp uid : String) (t : TransactionStart) (s : Service) (r : TimedReservation)
    → IsMap s.reservations
    → redeemed cp uid t s ≡ some r
    → (k : ℤ) × (lookup k s.reservations ≡ some r)
      × ((named cp t.reservation_id s ≡ some r) ⊎ (r.evse_uid ≡ uid))
redeemed-some cp uid t s r v h = elim (redeemed_cases cp uid t s r h) [
  | inl e ↦ (t.reservation_id, (named-some cp t.reservation_id s r e).0, inl e)
  | inr e ↦
      let (k, f, test) = find_tagged-some cp uid t.id_tag s.reservations r v e in
      (k, f, inr (ground (arith, string_eq.beq_iff r.evse_uid uid)))
]

pub settle-find_held :
    (cp uid : String) (t : TransactionStart) (now : Time) (s : Service)
    → IsExclusive s.reservations s.next_reservation_id
    → (find_held cp uid (settle cp uid t now s).service.reservations ≡ none)
      ⊎ IsElsewhere cp uid t s (settle cp uid t now s).service
unfolding settle end_locked forget
settle-find_held cp uid t now s v = elim (Option-cases (redeemed cp uid t s)) [
  | inr (r, e) ↦
      let (k, f, u) = redeemed-some cp uid t s r v.is_map e in
      rw (e, settle) (forget-find_held cp uid t s r k v f u)
  | inl e ↦ elim (Option-cases (find_held cp uid s.reservations)) [
    | inl f ↦ inl (rw (e, settle, f) f)
    | inr (r, f) ↦
        let (k, g, t') = find_held-some cp uid s.reservations r v.is_map f in
        inl (
          rw (e, settle, f)
            (delete-find_held cp uid s.reservations s.next_reservation_id k r v g
              (ground (arith, string_eq.beq_iff r.evse_uid uid))))
  ]
]

why_redeemed :
    (cp uid : String) (t : TransactionStart) (s : Service) (r : TimedReservation)
    → IsExclusive s.reservations s.next_reservation_id
    → redeemed cp uid t s ≡ some r
    → (r.status ≡ active)
      × (r.charge_point_id ≡ cp)
      × ((t.reservation_id ≡ r.id) ⊎ ((r.evse_uid ≡ uid) × (equal_fold r.id_tag t.id_tag ≡ true)))
why_redeemed cp uid t s r v h = elim (redeemed_cases cp uid t s r h) [
  | inl e ↦
      let (f, test) = named-some cp t.reservation_id s r e in
      (
        ground arith,
        ground (arith, string_eq.beq_iff r.charge_point_id cp),
        inl (sym (v.keyed t.reservation_id r f)),
      )
  | inr e ↦
      let (k, f, test) = find_tagged-some cp uid t.id_tag s.reservations r v.is_map e in
      (
        ground arith,
        ground (arith, string_eq.beq_iff r.charge_point_id cp),
        inr (ground (arith, string_eq.beq_iff r.evse_uid uid), ground arith),
      )
]

pub settle-redeems :
    (cp uid : String) (t : TransactionStart) (now : Time) (s : Service) (id : ℤ)
    → IsExclusive s.reservations s.next_reservation_id
    → (settle cp uid t now s).redeems ≡ some id
    → (r : TimedReservation) × (redeemed cp uid t s ≡ some r)
      × (r.id ≡ id)
      × (r.status ≡ active)
      × (r.charge_point_id ≡ cp)
      × ((t.reservation_id ≡ id) ⊎ ((r.evse_uid ≡ uid) × (equal_fold r.id_tag t.id_tag ≡ true)))
      × (lookup id (settle cp uid t now s).service.reservations ≡ none)
      × ((settle cp uid t now s).events ≡ reservation_event "consumed" now r.reservation ∷ [])
settle-redeems cp uid t now s id v h = elim (Option-cases (redeemed cp uid t s)) [
  | inr (r, e) ↦
      let same : r.id ≡ id = unfold settle end_locked in ground arith in
      let (held, at, why) = why_redeemed cp uid t s r v e in
      (
        r,
        e,
        same,
        held,
        at,
        subst
            (λ i.
              (t.reservation_id ≡ i) ⊎ ((r.evse_uid ≡ uid) × (equal_fold r.id_tag t.id_tag ≡ true)))
            same why,
        unfold settle end_locked forget in (ground (arith, lookup-delete_self r.id s.reservations)),
        unfold settle end_locked in ground arith,
      )
  | inl e ↦ absurd (unfold settle end_locked in ground arith)
]

-- There is no running transaction of that id.
abbrev IsStopped : String → ChargePointState → Type 0
IsStopped id cp = (tx : Transaction) → lookup id cp.transactions ≡ some tx → is_active tx ≡ false

stop_locked-IsStopped :
    (cp id : String) (m : ℤ) (why : String) (at last : Time) (s : Service)
    → is_zero at ≡ false
    → IsStopped id (ensure cp (stop_locked cp id m why at last s).0)
unfolding stop_locked
stop_locked-IsStopped cp id m why at last s nonzero =
    elim (Option-cases (lookup id (ensure cp s).transactions)) [
      | inl e ↦ rw (e, stop_locked, ensure-put cp (ensure cp s) s) (λ tx f. absurd (cc (sym e ∙ f)))
      | inr (tx, e) ↦ elim (Bool-cases (not (is_active tx))) [
        | inl t ↦
            rw (e, stop_locked, t, ensure-put cp (ensure cp s) s)
              (λ tx' f. ground (arith, sym e ∙ f))
        | inr n ↦
            rw (e, stop_locked, n)
              (rw ensure-put (λ tx' f. ground (
                arith,
                f,
                lookup-insert_self id (record tx { stopped_at = at; meter_stop = m; reason = why })
                    (ensure cp s).transactions,
              )))
      ]
    ]

IsStopped-none :
    (cp id : String) (m : ℤ) (why : String) (at last : Time) (s : Service)
    → IsStopped id (ensure cp s)
    → (stop_locked cp id m why at last s).1 ≡ none
unfolding stop_locked
IsStopped-none cp id m why at last s h =
    elim (Option-cases (lookup id (ensure cp s).transactions)) [
      | inl e ↦ rw (e, stop_locked) refl
      | inr (tx, e) ↦ ground (arith, h tx e)
    ]

-- A transaction is stopped once: a second StopTransaction for it is told that there is none, as long
-- as the first one's time is not the zero time.
pub stop_locked_once :
    (cp id : String) (m m' : ℤ) (why why' : String) (at last at' last' : Time) (s : Service)
    → is_zero at ≡ false
    → (stop_locked cp id m' why' at' last' (stop_locked cp id m why at last s).0).1 ≡ none
stop_locked_once cp id m m' why why' at last at' last' s nonzero =
    IsStopped-none cp id m' why' at' last' (stop_locked cp id m why at last s).0
      (stop_locked-IsStopped cp id m why at last s nonzero)
