-- ===== src/Control/Reserve.antt =====
-- A reservation from the caller's side. About internal/control/control.go.
use headless_csms.Prelude.{
  ◌≡◌, refl, sym, ap, subst, inl, inr, ◌≢◌, String, Bool, true, false, [], ◌∷◌, Option, none, some,
  ℤ, pos, max_int, Result, ok, err, arith, lookup, Option-cases, Bool-cases, int_eq,
}
use headless_csms.Clock.{Time}
use headless_csms.Config.{Config}
use headless_csms.State.Store.{Outcome}
use headless_csms.Core.Types.{Reservation, Service}
use headless_csms.Core.Persist.{persist}
use headless_csms.Core.Persist.Frame.{persist_frame}
use headless_csms.Core.Reservations.{
  CoreError, EndReason, rejected, begin_reservation, orphan_locked, orphan_reservation,
  activate_reservation, active_reservation,
}
use headless_csms.Core.Reservations.Begin.{begin_reservation-inv}
use headless_csms.Core.Reservations.Lifecycle.{activate_reservation-active_reservation}
use headless_csms.Core.Steps.{after, after_begin}
use headless_csms.Core.Steps.Table.{
  IsSound, keep-IsSound, begin_locked-IsSound, orphan_locked-IsSound,
}
use headless_csms.Control.Stop.{end_reservation-lookup}
use headless_csms.Control.Types.{
  Station, CallError, Answer, Done, is_accepted, ControlError, ReserveParams, of_call, refused,
  op_reserve,
}
use headless_csms.Control.{
  end_reason, guarded, request, recorded_for, reserve_begin, reserve_command, reserve_answered,
  activated, reserve_sent, reserve, cancel_orphan,
}

orphan_reservation-IsSound :
    (id : ℤ) (reason : EndReason) (at : Time) (s : Service)
    → IsSound s
    → IsSound (orphan_reservation id reason at s).0
unfolding orphan_reservation
orphan_reservation-IsSound id reason at s v = elim (Option-cases (orphan_locked id s)) [
  | inl e ↦ rw (e, orphan_reservation) v
  | inr (x, e) ↦
      rw (e, orphan_reservation) (subst (λ z. IsSound (after s z)) e (orphan_locked-IsSound id s v))
]

-- A failed `Reserve` leaves nothing in the end, in a sound table that other operations keep sound.
-- If the station refuses, its record is gone at once; if no answer came, it is gone when the
-- goroutine that cancels it has ended. The error is the refusal, or that of the call.
pub reserve_answered-lookup :
    (r : Reservation) (now at later : Time) (o o' : Outcome) (during : Service → Service)
    (s : Service)
    → IsSound s
    → ((u : Service) → IsSound u → IsSound (during u))
    → ((a : Answer)
        → is_accepted a.status ≡ false
        → let (t, result) = reserve_answered r now at o (ok a) s in
          (result ≡ err (refused op_reserve r.evse_uid a)) × (lookup r.id t.reservations ≡ none))
      × ((e : CallError)
          → let (t, result) = reserve_answered r now at o (err e) s in
            (result ≡ err (of_call e))
            × (lookup r.id ((cancel_orphan r e later o' during t).0).reservations ≡ none))
unfolding reserve_answered cancel_orphan
reserve_answered-lookup r now at later o o' during s v calm = (
  λ a no. rw (no, reserve_answered) (refl, end_reservation-lookup r.id rejected at o s v),
  λ e. (
    refl,
    end_reservation-lookup r.id (end_reason e) later o' _
        (calm _ (orphan_reservation-IsSound r.id (end_reason e) at s v)),
  ),
)

begin_reservation-IsSound :
    (r q : Reservation) (now : Time) (o : Outcome) (s t : Service)
    → s.next_reservation_id ≢ pos max_int
    → IsSound s
    → begin_reservation r now o s ≡ (t, ok q)
    → IsSound t
begin_reservation-IsSound r q now o s t room v h =
    let (s', p, a, _) = begin_reservation-inv r q now o s t h in
    subst IsSound a (
      keep-IsSound s' (persist o s').0
        (let frame = persist_frame o s' in
          (
            ap (λ (u : Service). u.reservations) frame,
            ap (λ (u : Service). u.next_reservation_id) frame,
          ))
        (subst (λ x. IsSound (after_begin s x)) p (begin_locked-IsSound r now s room v)))

activated-ok :
    (id : ℤ) (x : Service × Option Reservation) (q : Reservation)
    → (activated id x).1 ≡ ok q
    → ((activated id x).0 ≡ x.0) × (x.1 ≡ some q)
activated-ok id (s, none) q h = absurd (ground arith)
activated-ok id (s, some r) q h = (refl, ground arith)

-- The station has accepted a reservation that is returned, and it is the one its EVSE then holds.
reserve_answered-ok :
    (r q : Reservation) (now at : Time) (o : Outcome) (x : Result CallError Answer) (s : Service)
    → IsSound s
    → (reserve_answered r now at o x s).1 ≡ ok q
    → active_reservation q.evse_uid (reserve_answered r now at o x s).0 ≡ some q
unfolding reserve_answered
reserve_answered-ok r q now at o (err e) s v h = absurd (ground arith)
reserve_answered-ok r q now at o (ok a) s v h = elim (Bool-cases (is_accepted a.status)) [
  | inl t ↦
      let (same, got) =
        activated-ok r.id (activate_reservation r.id now at o s) q
          (rw (t, reserve_answered) at h) in
      rw (t, reserve_answered, same)
        (activate_reservation-active_reservation r.id now at o s q v got)
  | inr f ↦ absurd (ground arith)
]

recorded_for-ok :
    (c cp : Station) (x : Service × Result CoreError Reservation) (t : Service) (r : Reservation)
    → recorded_for c x ≡ (t, ok (cp, r))
    → x ≡ (t, ok r)
recorded_for-ok c cp (s, err e) t r h = absurd (ground arith)
recorded_for-ok c cp (s, ok q) t r h = ground arith

module _ (cfg : Config) (commands : String → Result CallError Station) where
  reserve_begin-IsSound :
      (closed : Bool) (p : ReserveParams) (now created : Time) (o : Outcome) (s t : Service)
      (cp : Station) (r : Reservation)
      → s.next_reservation_id ≢ pos max_int
      → IsSound s
      → reserve_begin cfg commands closed p now created o s ≡ (t, ok (cp, r))
      → IsSound t
  unfolding reserve_begin
  reserve_begin-IsSound true p now created o s t cp r room v h = absurd (ground arith)
  reserve_begin-IsSound false p now created o s t cp r room v h =
      by_guard (guarded cfg commands p.evse_uid) refl
    where
      by_guard : (g : Result ControlError Station) → guarded cfg commands p.evse_uid ≡ g → IsSound t
      by_guard (err e) k =
          absurd
            (let h' : (s, err e) ≡ (t, ok (cp, r)) = rw (k, reserve_begin) at h in ground arith)
      by_guard (ok c) k =
          let h' : recorded_for c (begin_reservation (request cfg commands c p now) created o s)
              ≡ (t, ok (cp, r)) =
            rw (k, reserve_begin) at h in
          begin_reservation-IsSound (request cfg commands c p now) r created o s t room v
            (recorded_for-ok c cp _ t r h')

  -- From a sound table whose id counter has room, a reservation that `Reserve` returns is the
  -- active one of its EVSE, if what other operations did while the station was asked kept the
  -- table sound, and exactly one ReserveNow was sent.
  pub reserve-active_reservation :
      (closed : Bool) (p : ReserveParams) (now created armed at : Time) (o o' : Outcome)
      (during : Service → Service) (s : Service) (q : Reservation)
      → s.next_reservation_id ≢ pos max_int
      → IsSound s
      → ((u : Service) → IsSound u → IsSound (during u))
      → (reserve cfg commands closed p now created armed at o o' during s).result ≡ ok q
      → let d = reserve cfg commands closed p now created armed at o o' during s in
        (active_reservation q.evse_uid d.service ≡ some q)
        × ((r : Reservation) × (d.sent ≡ reserve_command r ∷ []))
  unfolding reserve reserve_begin
  reserve-active_reservation closed p now created armed at o o' during s q room v calm h =
      by_begin (reserve_begin cfg commands closed p now created o s) refl
    where
      x : Done Reservation
      x = reserve cfg commands closed p now created armed at o o' during s

      by_begin :
          (b : Service × Result ControlError (Station × Reservation))
          → reserve_begin cfg commands closed p now created o s ≡ b
          → (active_reservation q.evse_uid x.service ≡ some q)
            × ((r : Reservation) × (x.sent ≡ reserve_command r ∷ []))
      by_begin (t, err e) b = absurd (
          let h' : (reserve_sent cfg commands armed at o' during (t, err e)).result ≡ ok q =
            subst (λ y. (reserve_sent cfg commands armed at o' during y).result ≡ ok q) b
              (unfold reserve in h) in
          ground arith)
      by_begin (t, ok (cp, r)) b =
          let y = reserve_sent cfg commands armed at o' during (t, ok (cp, r)) in
          let same : x ≡ y =
            unfold reserve in ap (reserve_sent cfg commands armed at o' during) b in
          let sound = calm t (reserve_begin-IsSound closed p now created o s t cp r room v b) in
          subst
            (λ (z : Done Reservation).
              (active_reservation q.evse_uid z.service ≡ some q)
              × ((r' : Reservation) × (z.sent ≡ reserve_command r' ∷ [])))
            (sym same)
            (
              reserve_answered-ok r q armed at o' (cp.call (reserve_command r)) (during t) sound
                  (subst (λ (z : Done Reservation). z.result ≡ ok q) same h),
              (r, refl),
            )
