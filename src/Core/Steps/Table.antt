-- ===== src/Core/Steps/Table.antt =====
-- What every interleaving keeps of the reservation table. About internal/core.
use headless_csms.Prelude.{
  ℕ, suc, ◌+◌, ◌≤◌, ◌<◌, ◌≡◌, refl, ap, ◌∙◌, subst, ◌⊎◌, inl, inr, ◌≢◌, String, List, [], ◌∷◌, ℤ,
  pos, max_int, succ, lt-succ, ◌≤ℤ◌, ◌<ℤ◌, Option-cases, Bool-cases, not, ◌||◌, lookup, ok, arith,
  length, int_eq,
}
use headless_csms.Clock.{Time, is_same_instant}
use headless_csms.State.Store.{Outcome}
use headless_csms.Core.Types.{Reservation, pending, TimedReservation, TransactionStart, Service}
use headless_csms.Core.Service.{
  put, connected_locked, disconnected_locked, booted_locked, seen, set_connector_status_locked,
  record_meter_values_locked,
}
use headless_csms.Core.Persist.{persist_or_log, connector_id, eq_reservation_status, is_held, arm}
use headless_csms.Core.Reservations.{
  EndReason, expired, consumed, failed, find_on, reservation_on, begin_locked, forget,
  activate_locked, end_locked, end_by_id_locked, orphan_locked, expire_locked,
}
use headless_csms.Core.Reservations.Exclusive.{
  IsExclusive, delete-IsExclusive, replace-IsExclusive, insert-IsExclusive,
}
use headless_csms.Core.Transactions.{settle, redeemed, find_held, start_locked, stop_locked}
use headless_csms.Core.Steps.{
  Section, connects, disconnects, boots, sees, reports, meters, begins, forgets, activates, ends,
  orphans, expires, takes_transaction_id, takes_remote_start_id, starts, stops, persists, publishes,
  after_begin, after, apply, run,
}

-- The table of a service, with its counter.
abbrev pub IsSound : Service → Type 0
IsSound s = IsExclusive s.reservations s.next_reservation_id

pub begin_locked-IsSound :
    (r : Reservation) (now : Time) (s : Service)
    → s.next_reservation_id ≢ pos max_int
    → IsSound s
    → IsSound (after_begin s (begin_locked r now s))
unfolding begin_locked reservation_on
begin_locked-IsSound r now s room v = elim (Option-cases (connector_id s.cfg r.evse_uid)) [
  | inl e ↦ rw (e, begin_locked, after_begin) v
  | inr (c, e) ↦ elim (Option-cases (find_on r.evse_uid s.reservations)) [
    | inl f ↦ rw (e, f, begin_locked, after_begin) (insert-IsExclusive v _ f refl room)
    | inr (q, f) ↦ rw (e, f, begin_locked, after_begin) v
  ]
]

activate_locked-IsSound :
    (id : ℤ) (now : Time) (s : Service) → IsSound s → IsSound (after s (activate_locked id now s))
unfolding activate_locked arm
activate_locked-IsSound id now s v = elim (Option-cases (lookup id s.reservations)) [
  | inl e ↦ rw (e, activate_locked, after) v
  | inr (r, e) ↦ elim (Bool-cases (eq_reservation_status r.status pending)) [
    | inl t ↦ rw (e, activate_locked, after, t) (replace-IsExclusive v id r _ e refl refl)
    | inr f ↦ rw (e, activate_locked, after, f) v
  ]
]

pub orphan_locked-IsSound :
    (id : ℤ) (s : Service) → IsSound s → IsSound (after s (orphan_locked id s))
unfolding orphan_locked
orphan_locked-IsSound id s v = elim (Option-cases (lookup id s.reservations)) [
  | inl e ↦ rw (e, orphan_locked, after) v
  | inr (r, e) ↦ elim (Bool-cases (eq_reservation_status r.status pending)) [
    | inl t ↦ rw (e, orphan_locked, after, t) (replace-IsExclusive v id r _ e refl refl)
    | inr f ↦ rw (e, orphan_locked, after, f) v
  ]
]

end_locked-IsSound :
    (r : TimedReservation) (reason : EndReason) (now : Time) (s : Service)
    → IsSound s
    → IsSound (end_locked r reason now s).0
unfolding end_locked
end_locked-IsSound r reason now s v = delete-IsExclusive v r.id

end_by_id_locked-IsSound :
    (id : ℤ) (reason : EndReason) (now : Time) (s : Service)
    → IsSound s
    → IsSound (apply (ends id reason now) s)
unfolding apply end_by_id_locked
end_by_id_locked-IsSound id reason now s v = elim (Option-cases (lookup id s.reservations)) [
  | inl e ↦ rw (e, apply, end_by_id_locked) v
  | inr (r, e) ↦ rw (e, apply, end_by_id_locked) (end_locked-IsSound r reason now s v)
]

expire_locked-IsSound :
    (id : ℤ) (t now : Time) (s : Service) → IsSound s → IsSound (apply (expires id t now) s)
unfolding apply expire_locked
expire_locked-IsSound id t now s v = elim (Option-cases (lookup id s.reservations)) [
  | inl e ↦ rw (e, apply, expire_locked) v
  | inr (r, e) ↦
      elim (Bool-cases (not (is_held r.status) || not (is_same_instant r.expires_at t))) [
        | inl y ↦ rw (e, apply, expire_locked, y) v
        | inr n ↦ rw (e, apply, expire_locked, n) (end_locked-IsSound r expired now s v)
      ]
]

settle-IsSound :
    (cp_id uid : String) (t : TransactionStart) (now : Time) (s : Service)
    → IsSound s
    → IsSound (settle cp_id uid t now s).service
unfolding settle
settle-IsSound cp_id uid t now s v = elim (Option-cases (redeemed cp_id uid t s)) [
  | inr (r, e) ↦ rw (e, settle) (end_locked-IsSound r consumed now s v)
  | inl e ↦ elim (Option-cases (find_held cp_id uid s.reservations)) [
    | inr (r, f) ↦ rw (e, f, settle) (end_locked-IsSound r failed now s v)
    | inl f ↦ rw (e, f, settle) v
  ]
]

-- The sections that leave the table and its counter alone.
abbrev pub Keeps : Service → Service → Type 0
Keeps s t = (t.reservations ≡ s.reservations) × (t.next_reservation_id ≡ s.next_reservation_id)

pub keep-IsSound : (s t : Service) → Keeps s t → IsSound s → IsSound t
keep-IsSound s t (rs, n) v = rw (rs, n) v

disconnected_locked-Keeps :
    (cp reason : String) (at : Time) (s : Service) → Keeps s (disconnected_locked cp reason at s).0
unfolding disconnected_locked
disconnected_locked-Keeps cp reason at s = (ground arith, ground arith)

stop_locked-Keeps :
    (cp id : String) (meter : ℤ) (reason : String) (at last : Time) (s : Service)
    → Keeps s (stop_locked cp id meter reason at last s).0
unfolding stop_locked put
stop_locked-Keeps cp id meter reason at last s = (ground arith, ground arith)

persist_or_log-Keeps : (o : Outcome) (s : Service) → Keeps s (persist_or_log o s)
unfolding persist_or_log
persist_or_log-Keeps o s = (ground arith, ground arith)

apply-IsSound :
    (c : Section) (s : Service)
    → s.next_reservation_id ≢ pos max_int
    → IsSound s
    → IsSound (apply c s)
unfolding apply
apply-IsSound (connects cp at) s room v = unfold connected_locked in v
apply-IsSound (disconnects cp reason at) s room v =
    keep-IsSound s (disconnected_locked cp reason at s).0 (disconnected_locked-Keeps cp reason at s)
      v
apply-IsSound (boots cp info at) s room v = unfold booted_locked in v
apply-IsSound (sees cp at) s room v = unfold seen in v
apply-IsSound (reports cp c st e at) s room v = unfold set_connector_status_locked in v
apply-IsSound (meters cp c at) s room v = unfold record_meter_values_locked in v
apply-IsSound (begins r now) s room v = begin_locked-IsSound r now s room v
apply-IsSound (forgets id) s room v = unfold forget in delete-IsExclusive v id
apply-IsSound (activates id now) s room v = activate_locked-IsSound id now s v
apply-IsSound (ends id reason now) s room v = end_by_id_locked-IsSound id reason now s v
apply-IsSound (orphans id) s room v = orphan_locked-IsSound id s v
apply-IsSound (expires id t now) s room v = expire_locked-IsSound id t now s v
apply-IsSound takes_transaction_id s room v = v
apply-IsSound takes_remote_start_id s room v = v
apply-IsSound (starts cp t now ended last) s room v =
    unfold start_locked put in settle-IsSound cp _ t ended s v
apply-IsSound (stops cp id meter reason at last) s room v =
    keep-IsSound s (stop_locked cp id meter reason at last s).0
      (stop_locked-Keeps cp id meter reason at last s) v
apply-IsSound (persists o) s room v =
    keep-IsSound s (persist_or_log o s) (persist_or_log-Keeps o s) v
apply-IsSound (publishes e) s room v = v

-- How far a section moves the counter.
apply-counter :
    (c : Section) (s : Service)
    → ((apply c s).next_reservation_id ≡ s.next_reservation_id)
      ⊎ ((apply c s).next_reservation_id ≡ succ s.next_reservation_id)
unfolding apply
apply-counter (connects cp at) s = inl (unfold connected_locked in refl)
apply-counter (disconnects cp reason at) s = inl (disconnected_locked-Keeps cp reason at s).1
apply-counter (boots cp info at) s = inl (unfold booted_locked in refl)
apply-counter (sees cp at) s = inl (unfold seen in refl)
apply-counter (reports cp c st e at) s = inl (unfold set_connector_status_locked in refl)
apply-counter (meters cp c at) s = inl (unfold record_meter_values_locked in refl)
apply-counter (begins r now) s = unfold begin_locked in ground arith
apply-counter (forgets id) s = inl (unfold forget in refl)
apply-counter (activates id now) s = inl (unfold activate_locked in ground arith)
apply-counter (ends id reason now) s = inl (unfold end_by_id_locked end_locked in ground arith)
apply-counter (orphans id) s = inl (unfold orphan_locked in ground arith)
apply-counter (expires id t now) s = inl (unfold expire_locked end_locked in ground arith)
apply-counter takes_transaction_id s = inl refl
apply-counter takes_remote_start_id s = inl refl
apply-counter (starts cp t now ended last) s =
    inl (unfold start_locked settle end_locked put in ground arith)
apply-counter (stops cp id meter reason at last) s =
    inl (stop_locked-Keeps cp id meter reason at last s).1
apply-counter (persists o) s = inl (persist_or_log-Keeps o s).1
apply-counter (publishes e) s = inl refl

succ_pos : (k : ℕ) → k < max_int → succ (pos k) ≡ pos (suc k)
unfolding succ
succ_pos k h = ground arith

-- With `n` ids to spare before the counter would overflow an int.
abbrev pub HasRoom : ℕ → Service → Type 0
HasRoom n s = (k : ℕ) × (s.next_reservation_id ≡ pos k) × (k + n ≤ max_int)

apply-HasRoom : (n : ℕ) (c : Section) (s : Service) → HasRoom (suc n) s → HasRoom n (apply c s)
apply-HasRoom n c s (k, e, h) = elim (apply-counter c s) [
  | inl p ↦ (k, p ∙ e, omega arith)
  | inr p ↦ (suc k, p ∙ ap succ e ∙ succ_pos k (omega arith), omega arith)
]

HasRoom-ne : (n : ℕ) (s : Service) → HasRoom (suc n) s → s.next_reservation_id ≢ pos max_int
HasRoom-ne n s (k, e, h) p = ground arith

-- In every interleaving of the sections of core, from a sound table and as long as the id counter
-- stays within an int, the reservation table stays sound: each entry stands once and under its own
-- id, no two entries hold the same EVSE, and all ids are below the counter.
pub run-IsExclusive :
    (cs : List Section) (s : Service)
    → HasRoom (length cs) s
    → IsExclusive s.reservations s.next_reservation_id
    → IsExclusive (run cs s).reservations (run cs s).next_reservation_id
unfolding run
run-IsExclusive [] s room v = v
run-IsExclusive (c ∷ cs) s room v =
    run-IsExclusive cs (apply c s) (apply-HasRoom (length cs) c s room)
      (apply-IsSound c s (HasRoom-ne (length cs) s room) v)

apply-le :
    (c : Section) (s : Service)
    → s.next_reservation_id ≢ pos max_int
    → s.next_reservation_id ≤ℤ (apply c s).next_reservation_id
apply-le c s room = elim (apply-counter c s) [
  | inl p ↦ rw p (omega arith)
  | inr p ↦ rw p (omega (arith, lt-succ s.next_reservation_id room))
]

run-le :
    (cs : List Section) (s : Service)
    → HasRoom (length cs) s
    → s.next_reservation_id ≤ℤ (run cs s).next_reservation_id
unfolding run
run-le [] s room = omega arith
run-le (c ∷ cs) s room = omega (
  arith,
  apply-le c s (HasRoom-ne (length cs) s room),
  run-le cs (apply c s) (apply-HasRoom (length cs) c s room),
)

begin_locked-id :
    (r q : Reservation) (now : Time) (s s' : Service)
    → begin_locked r now s ≡ ok (q, s')
    → (q.id ≡ s.next_reservation_id) × (s'.next_reservation_id ≡ succ s.next_reservation_id)
unfolding begin_locked
begin_locked-id r q now s s' h = (ground arith, ground arith)

-- A reservation id is never handed out twice: whatever runs after a reservation has begun, one that
-- begins later has a larger id, as long as the counter stays within an int.
pub begin_locked-fresh :
    (cs : List Section) (s s' t' : Service) (r r' q q' : Reservation) (now later : Time)
    → HasRoom (suc (length cs)) s
    → begin_locked r now s ≡ ok (q, s')
    → begin_locked r' later (run cs s') ≡ ok (q', t')
    → q.id <ℤ q'.id
begin_locked-fresh cs s s' t' r r' q q' now later (k, e, room) b b' =
    let (i, n) = begin_locked-id r q now s s' b in
    let (i', _) = begin_locked-id r' q' later (run cs s') t' b' in
    let at : s'.next_reservation_id ≡ pos (suc k) = n ∙ ap succ e ∙ succ_pos k (omega arith) in
    let mono = run-le cs s' (suc k, at, omega arith) in
    let start : pos (suc k) ≤ℤ (run cs s').next_reservation_id =
      subst (λ z. z ≤ℤ (run cs s').next_reservation_id) at mono in
    rw (i ∙ e, i') (omega arith)
