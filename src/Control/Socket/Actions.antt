-- ===== src/Control/Socket/Actions.antt =====
-- The errors with which an action of internal/control/control.go has done nothing.
use headless_csms.Prelude.{
  ◌≡◌, refl, sym, subst, String, Bool, true, false, List, [], ◌∷◌, Option, none, some, Result, ok,
  err, ℤ, Bool-cases, Option-cases, inl, inr, ◌⊎◌, arith, string_eq, int_eq,
}
use headless_csms.Clock.{Time}
use headless_csms.Config.{Config}
use headless_csms.State.Store.{Outcome, StoreError}
use headless_csms.Core.Types.{Service, Reservation}
use headless_csms.Core.Reservations.{
  CoreError, already_reserved, recording, begin_reservation, begin_locked, active_reservation,
  recorded,
}
use headless_csms.Core.Transactions.{active_transactions, next_remote_start_id}
use headless_csms.Core.Persist.{persist}
use headless_csms.Control.Types.{
  op_cancel, op_reserve, op_stop, op_unlock, op_start, cancel_reservation, remote_stop,
  unlock_connector, is_unlocked,
}
use headless_csms.Control.{reserve_command}
use headless_csms.Core.Reservations.{activate_reservation}
use headless_csms.Control.Types.{
  CommandStatus, Answer, CallError, Command, Station, Op, ControlError, of_core, no_reservation,
  no_active_transaction, shutting_down, refused, ReserveParams, Done, is_accepted,
}
use headless_csms.Control.{
  check_evse, charge_point, guarded, request, recorded_for, reserve_begin, reserve_sent,
  reserve_answered, reserve, cancel_answered, cancel, answer_to, started_with, start, to_stop, stop,
  unlock, failing, activated,
}

-- The errors of an action that has asked the station nothing.
abbrev pub IsLocal : ControlError → Type 0
IsLocal (of_core (already_reserved uid)) = Unit
IsLocal shutting_down = Unit
IsLocal (no_reservation uid) = Unit
IsLocal (no_active_transaction uid) = Unit
IsLocal _ = ⊥

-- An action has done nothing.
abbrev pub IsUndone : Service → List Command → Service → Type 0
IsUndone s sent t = (sent ≡ []) × (t ≡ s)

-- If the action fails with a local error, it has done nothing.
abbrev pub IsHonest {ℓ} : {A : Type ℓ} → Service → Done A → Type ℓ
IsHonest s d = (e : ControlError) → d.result ≡ err e → IsLocal e → IsUndone s d.sent d.service

nonlocal {ℓ} :
    {A : Type ℓ} {e f : ControlError} (s : Service) (sent : List Command) (t : Service)
    → ¬ IsLocal e
    → ◌≡◌ {A = Result {0, ℓ} ControlError A} (err e) (err f)
    → IsLocal f
    → IsUndone s sent t
nonlocal {e = e} {f = f} s sent t never h local =
    let same : e ≡ f = cc (h) in absurd (never (subst IsLocal (sym same) local))

answer_to-IsHonest :
    (wanted : CommandStatus → Bool) (op : Op) (uid : String) (c : Command) (s t : Service)
    (x : Result CallError Answer)
    → IsHonest s (answer_to wanted op uid c t x)
unfolding answer_to
answer_to-IsHonest wanted op uid c s t (err e) f h local = nonlocal s (c ∷ []) t (λ l. l) h local
answer_to-IsHonest wanted op uid c s t (ok a) f h local = elim (Bool-cases (wanted a.status)) [
  | inl y ↦ absurd (ground arith)
  | inr n ↦
      let h' : ◌≡◌ {A = Result {0, 0} ControlError Unit} (err (refused op uid a)) (err f) =
        rw n at h in
      nonlocal s (c ∷ []) t (λ l. l) h' local
]

cancel_answered-local :
    (uid : String) (r : Reservation) (at : Time) (o : Outcome) (x : Result CallError Answer)
    (s t : Service) (sent : List Command) (f : ControlError)
    → (cancel_answered uid r at o x s).1 ≡ err f
    → IsLocal f
    → IsUndone t sent (cancel_answered uid r at o x s).0
unfolding cancel_answered
cancel_answered-local uid r at o (err e) s t sent f h local = nonlocal t sent _ (λ l. l) h local
cancel_answered-local uid r at o (ok a) s t sent f h local =
    elim (Bool-cases (is_accepted a.status)) [
      | inl y ↦ absurd (ground arith)
      | inr n ↦
          let h' : ◌≡◌ {A = Result {0, 0} ControlError Unit} (err (refused op_cancel uid a))
              (err f) =
            rw n at h in
          nonlocal t sent _ (λ l. l) h' local
    ]

reserve_answered-local :
    (r : Reservation) (now at : Time) (o : Outcome) (x : Result CallError Answer) (s t : Service)
    (sent : List Command) (f : ControlError)
    → (reserve_answered r now at o x s).1 ≡ err f
    → IsLocal f
    → IsUndone t sent (reserve_answered r now at o x s).0
unfolding reserve_answered
reserve_answered-local r now at o (err e) s t sent f h local = nonlocal t sent _ (λ l. l) h local
reserve_answered-local r now at o (ok a) s t sent f h local =
    elim (Bool-cases (is_accepted a.status)) [
      | inl y ↦ by_row (activate_reservation r.id now at o s) (rw y at h)
      | inr n ↦
          let h' : ◌≡◌ {A = Result {0, 0} ControlError Reservation}
              (err (refused op_reserve r.evse_uid a)) (err f) =
            rw n at h in
          nonlocal t sent _ (λ l. l) h' local
    ]
  where
    by_row :
        (x : Service × Option Reservation)
        → (activated r.id x).1 ≡ err f
        → IsUndone t sent (reserve_answered r now at o (ok a) s).0
    by_row (u, none) g = nonlocal t sent _ (λ l. l) g local
    by_row (u, some q) g = absurd (cc (g))

begin_reservation-refused :
    (r : Reservation) (now : Time) (o : Outcome) (s t : Service) (e : CoreError)
    → begin_reservation r now o s ≡ (t, err e)
    → IsLocal (of_core e)
    → t ≡ s
unfolding begin_reservation
begin_reservation-refused r now o s t e h local = by_section (begin_locked r now s) refl
  where
    by_write :
        (q : Reservation) (p : Service × Option StoreError) → recorded q p ≡ (t, err e) → t ≡ s
    by_write q (u, none) g = absurd (ground arith)
    by_write q (u, some x) g =
        let same : recording x ≡ e = ground arith in
        absurd (subst (λ y. IsLocal (of_core y)) (sym same) local)

    by_section : (x : Result CoreError (Reservation × Service)) → begin_locked r now s ≡ x → t ≡ s
    by_section (err x) k =
        let h' : ◌≡◌ {A = Service × Result {0, 0} CoreError Reservation} (s, err x) (t, err e) =
          rw (begin_reservation, k) at h in
        ground arith
    by_section (ok (q, u)) k = by_write q (persist o u) (rw (begin_reservation, k) at h)

pub Result-cases {ℓ κ} :
    {E : Type ℓ} {A : Type κ} (r : Result E A) → ((e : E) × (r ≡ err e)) ⊎ ((a : A) × (r ≡ ok a))
Result-cases (err e) = inl (e, refl)
Result-cases (ok a) = inr (a, refl)

failing-IsHonest {ℓ} :
    {A : Type ℓ} (s : Service) (e : ControlError) → IsHonest {A = A} s (failing s e)
failing-IsHonest s e f h local = (refl, refl)

module _ (cfg : Config) (commands : String → Result CallError Station) where
  pub cancel-IsHonest :
      (uid : String) (at : Time) (o : Outcome) (during : Service → Service) (s : Service)
      → IsHonest s (cancel cfg commands uid at o during s)
  unfolding cancel
  cancel-IsHonest uid at o during s = elim (Result-cases (check_evse cfg uid)) [
    | inl (e, k) ↦ rw (cancel, k) (failing-IsHonest s e)
    | inr (v, k) ↦ elim (Option-cases (active_reservation uid s)) [
      | inl none_there ↦ rw (cancel, k, none_there) (failing-IsHonest s (no_reservation uid))
      | inr (r, there) ↦ elim (Result-cases (charge_point cfg commands)) [
        | inl (e, g) ↦ rw (cancel, k, there, g) (failing-IsHonest s e)
        | inr (cp, g) ↦
            rw (cancel, k, there, g)
              (λ f h local.
                cancel_answered-local uid r at o (cp.call (cancel_reservation r.id)) (during s) s
                  (cancel_reservation r.id ∷ []) f h local)
      ]
    ]
  ]

  pub stop-IsHonest :
      (uid : String) (during : Service → Service) (s : Service)
      → IsHonest s (stop cfg commands uid during s)
  unfolding stop
  stop-IsHonest uid during s = elim (Result-cases (check_evse cfg uid)) [
    | inl (e, k) ↦ rw (stop, k) (failing-IsHonest s e)
    | inr (v, k) ↦ elim (Result-cases (to_stop cfg commands uid (active_transactions uid s))) [
      | inl (e, g) ↦ rw (stop, k, g) (failing-IsHonest s e)
      | inr (tx, g) ↦ elim (Result-cases (charge_point cfg commands)) [
        | inl (e, l) ↦ rw (stop, k, g, l) (failing-IsHonest s e)
        | inr (cp, l) ↦
            rw (stop, k, g, l)
              (answer_to-IsHonest is_accepted op_stop uid (remote_stop tx.id) s (during s)
                (cp.call (remote_stop tx.id)))
      ]
    ]
  ]

  pub unlock-IsHonest :
      (uid : String) (during : Service → Service) (s : Service)
      → IsHonest s (unlock cfg commands uid during s)
  unfolding unlock
  unlock-IsHonest uid during s = elim (Result-cases (guarded cfg commands uid)) [
    | inl (e, k) ↦ rw (unlock, k) (failing-IsHonest s e)
    | inr (cp, k) ↦
        rw (unlock, k)
          (answer_to-IsHonest is_unlocked op_unlock uid (unlock_connector uid) s (during s)
            (cp.call (unlock_connector uid)))
  ]

  started_with-IsHonest :
      (uid tag : String) (cp : Station) (during : Service → Service) (s : Service)
      (x : Service × Result StoreError ℤ)
      → IsHonest s (started_with cfg commands uid tag cp during x)
  started_with-IsHonest uid tag cp during s (t, err e) =
      λ f h local. nonlocal s [] t (λ l. l) h local
  started_with-IsHonest uid tag cp during s (t, ok id) =
      answer_to-IsHonest is_accepted op_start uid _ s (during t) (cp.call _)

  pub start-IsHonest :
      (uid tag : String) (o : Outcome) (during : Service → Service) (s : Service)
      → IsHonest s (start cfg commands uid tag o during s)
  unfolding start
  start-IsHonest uid tag o during s = elim (Result-cases (guarded cfg commands uid)) [
    | inl (e, k) ↦ rw (start, k) (failing-IsHonest s e)
    | inr (cp, k) ↦
        rw (start, k) (started_with-IsHonest uid tag cp during s (next_remote_start_id o s))
  ]

  recorded-IsHonest :
      (armed at : Time) (o : Outcome) (during : Service → Service) (s : Service) (cp : Station)
      (x : Service × Result CoreError Reservation)
      → ((t : Service) (e : CoreError) → x ≡ (t, err e) → IsLocal (of_core e) → t ≡ s)
      → IsHonest s (reserve_sent cfg commands armed at o during (recorded_for cp x))
  recorded-IsHonest armed at o during s cp (t, err e) kept f h local =
      let same : of_core e ≡ f = cc (h) in (refl, kept t e refl (subst IsLocal (sym same) local))
  recorded-IsHonest armed at o during s cp (t, ok r) kept f h local =
      reserve_answered-local r armed at o (cp.call (reserve_command r)) (during t) s
        (reserve_command r ∷ []) f h local

  pub reserve-IsHonest :
      (closed : Bool) (p : ReserveParams) (now created armed at : Time) (o o' : Outcome)
      (during : Service → Service) (s : Service)
      → IsHonest s (reserve cfg commands closed p now created armed at o o' during s)
  unfolding reserve reserve_begin
  reserve-IsHonest true p now created armed at o o' during s = failing-IsHonest s shutting_down
  reserve-IsHonest false p now created armed at o o' during s =
      elim (Result-cases (guarded cfg commands p.evse_uid)) [
        | inl (e, k) ↦ rw (reserve_begin, k) (failing-IsHonest s e)
        | inr (cp, k) ↦
            rw (reserve_begin, k)
              (recorded-IsHonest armed at o' during s cp
                (begin_reservation (request cfg commands cp p now) created o s)
                (λ t e g local.
                  begin_reservation-refused (request cfg commands cp p now) created o s t e g
                    local))
      ]
