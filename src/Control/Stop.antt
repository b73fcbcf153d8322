-- ===== src/Control/Stop.antt =====
-- Ending a reservation or a session from the caller's side. About internal/control/control.go.
use headless_csms.Prelude.{
  ◌≡◌, refl, ap, ◌∙◌, ◌⊎◌, inl, inr, String, Bool, List, [], ◌∷◌, none, some, ℤ, Result, ok, err,
  lookup, lookup-delete_self, if◌then◌else◌, Option-cases, Bool-cases, int_eq,
}
use headless_csms.Clock.{Time}
use headless_csms.Config.{Config, Evse, evse_by_uid}
use headless_csms.State.Store.{Outcome}
use headless_csms.Core.Types.{Reservation, Transaction, Service, cancelling}
use headless_csms.Core.Persist.{eq_reservation_status}
use headless_csms.Core.Persist.Frame.{persist_or_log_frame}
use headless_csms.Core.Reservations.{
  EndReason, forget, end_locked, end_by_id_locked, end_reservation, active_reservation, cancelled,
}
use headless_csms.Core.Reservations.Exclusive.{IsExclusive}
use headless_csms.Core.Transactions.{active_transactions}
use headless_csms.Control.Types.{
  Station, CallError, Answer, Command, remote_stop, cancel_reservation, is_accepted, refused,
  op_cancel, Op, ControlError, CommandStatus,
}
use headless_csms.Control.{
  check_evse, charge_point, to_stop, stop, cancel, cancel_answered, answer_to,
}

-- Whatever its status, an entry that is ended is gone from the table.
pub end_reservation-lookup :
    (id : ℤ) (reason : EndReason) (now : Time) (o : Outcome) (s : Service)
    → IsExclusive s.reservations s.next_reservation_id
    → lookup id ((end_reservation id reason now o s).0).reservations ≡ none
unfolding end_reservation end_by_id_locked end_locked forget
end_reservation-lookup id reason now o s v = elim (Option-cases (lookup id s.reservations)) [
  | inl e ↦ rw (e, end_reservation) e
  | inr (r, e) ↦ elim (Bool-cases (eq_reservation_status r.status cancelling)) [
    | inl t ↦
        rw (e, end_reservation, end_by_id_locked, t, v.keyed id r e)
          (lookup-delete_self id s.reservations)
    | inr f ↦
        rw (e, end_reservation, end_by_id_locked, f, v.keyed id r e)
          (ap (λ (t : Service). lookup id t.reservations) (persist_or_log_frame o (forget id s))
            ∙ lookup-delete_self id s.reservations)
  ]
]

module _ (cfg : Config) (commands : String → Result CallError Station) where
  -- Once the station has answered the cancellation of the active reservation on a configured EVSE,
  -- in a table that is sound by then, `Cancel` has dropped the reservation, even if the answer is
  -- a refusal, which it then returns; one CancelReservation was sent.
  pub cancel-lookup :
      (uid : String) (at : Time) (o : Outcome) (during : Service → Service) (s : Service) (e : Evse)
      (r : Reservation) (cp : Station) (a : Answer)
      → IsExclusive (during s).reservations (during s).next_reservation_id
      → evse_by_uid cfg uid ≡ some e
      → active_reservation uid s ≡ some r
      → charge_point cfg commands ≡ ok cp
      → cp.call (cancel_reservation r.id) ≡ ok a
      → let d = cancel cfg commands uid at o during s in
        (lookup r.id d.service.reservations ≡ none)
        × (d.sent ≡ cancel_reservation r.id ∷ [])
        × (d.result ≡ (if is_accepted a.status then ok tt else err (refused op_cancel uid a)))
  unfolding cancel check_evse cancel_answered
  cancel-lookup uid at o during s e r cp a v known held connected answer =
      rw (known, cancel, check_evse, held, connected, answer, cancel_answered)
        (end_reservation-lookup r.id cancelled at o (during s) v, refl, refl)

  sent-answer_to :
      (wanted : CommandStatus → Bool) (op : Op) (uid : String) (c : Command) (s : Service)
      (x : Result CallError Answer)
      → (answer_to wanted op uid c s x).sent ≡ c ∷ []
  unfolding answer_to
  sent-answer_to wanted op uid c s (ok a) = refl
  sent-answer_to wanted op uid c s (err e) = refl

  pub stop_cases :
      (uid : String) (during : Service → Service) (s : Service)
      → ((stop cfg commands uid during s).sent ≡ [])
        ⊎ ((tx : Transaction) × (active_transactions uid s ≡ tx ∷ [])
            × ((stop cfg commands uid during s).sent ≡ remote_stop tx.id ∷ []))
  unfolding stop
  stop_cases uid during s = by_check (check_evse cfg uid) refl
    where
      by_call :
          (e : Evse) (tx : Transaction) (x : Result ControlError Station)
          → check_evse cfg uid ≡ ok e
          → active_transactions uid s ≡ tx ∷ []
          → charge_point cfg commands ≡ x
          → ((stop cfg commands uid during s).sent ≡ [])
            ⊎ ((stop cfg commands uid during s).sent ≡ remote_stop tx.id ∷ [])
      by_call e tx (err _) p q h = inl (unfold to_stop in rw (p, stop, q, h) refl)
      by_call e tx (ok cp) p q h =
          inr (unfold to_stop in rw (p, stop, q, h) (sent-answer_to _ _ _ _ _ _))

      by_count :
          (e : Evse) (txs : List Transaction)
          → check_evse cfg uid ≡ ok e
          → active_transactions uid s ≡ txs
          → ((stop cfg commands uid during s).sent ≡ [])
            ⊎ ((tx : Transaction) × (active_transactions uid s ≡ tx ∷ [])
                × ((stop cfg commands uid during s).sent ≡ remote_stop tx.id ∷ []))
      by_count e [] p q = inl (unfold to_stop in rw (p, stop, q) refl)
      by_count e (tx ∷ []) p q = elim (by_call e tx (charge_point cfg commands) p q refl) [
        | inl none_sent ↦ inl none_sent
        | inr one ↦ inr (tx, q, one)
      ]
      by_count e (tx ∷ tx' ∷ txs) p q = inl (unfold to_stop in rw (p, stop, q) refl)

      by_check :
          (x : Result ControlError Evse)
          → check_evse cfg uid ≡ x
          → ((stop cfg commands uid during s).sent ≡ [])
            ⊎ ((tx : Transaction) × (active_transactions uid s ≡ tx ∷ [])
                × ((stop cfg commands uid during s).sent ≡ remote_stop tx.id ∷ []))
      by_check (err _) p = inl (rw (p, stop) refl)
      by_check (ok e) p = by_count e (active_transactions uid s) p refl
