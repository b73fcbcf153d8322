-- ===== src/Control.antt =====
-- internal/control/control.go and errors.go: the actions on the station. The station is what
-- internal/ocpp/chargepoint.go promises of it: an answer to each command, or an error.
pub mod Types
pub mod Reserve
pub mod Stop
pub mod Socket
use headless_csms.Prelude.{
  String, Bool, true, false, not, List, [], ◌∷◌, Option, none, some, if◌then◌else◌, ℤ, pos, ◌==◌,
  string_eq, Result, ok, err, map,
}
use headless_csms.Clock.{Time, is_zero, zero_time, time_add}
use headless_csms.Config.{Config, Evse, evse_by_uid}
use headless_csms.State.Store.{Outcome, StoreError}
use headless_csms.Core.Types.{Reservation, pending, Transaction, Service}
use headless_csms.Core.Reservations.{
  CoreError, EndReason, cancelled, rejected, timeout, failed, begin_reservation,
  activate_reservation, end_reservation, orphan_reservation, active_reservation,
}
use headless_csms.Core.Transactions.{active_transactions, next_remote_start_id}
use headless_csms.Control.Types.{
  is_accepted, is_unlocked, Answer, ReserveRequest, RemoteStartRequest, CallError, timed_out,
  Command, reserve_now, cancel_reservation, remote_start, remote_stop, unlock_connector, trigger,
  Station, Op, op_reserve, op_cancel, op_start, op_stop, op_unlock, op_trigger_status, ControlError,
  of_core, of_call, not_configured, no_reservation, no_active_transaction, shutting_down, refused,
  recording_start, ambiguous, vanished, ReserveParams, Done, reserve_length, CommandStatus,
}

unfoldable pub end_reason : CallError → EndReason
end_reason timed_out = timeout
end_reason _ = failed

unfoldable pub check_evse : Config → String → Result ControlError Evse
check_evse cfg uid = elim (evse_by_uid cfg uid) [ none ↦ err (not_configured uid) | some e ↦ ok e ]

unfoldable pub tag_or_default : Config → String → String
tag_or_default cfg tag = if tag == "" then cfg.auth.default_id_tag else tag

-- When a reservation is to end.
unfoldable pub expiry : ReserveParams → Time → Time
unfolding reserve_length
expiry p now =
    if is_zero p.expires_at then time_add now (reserve_length p.expires_in) else p.expires_at

abbrev pub recorded_for :
    Station
    → Service × Result CoreError Reservation
    → Service × Result ControlError (Station × Reservation)
recorded_for cp (s, err e) = (s, err (of_core e))
recorded_for cp (s, ok r) = (s, ok (cp, r))

abbrev pub activated : ℤ → Service × Option Reservation → Service × Result ControlError Reservation
activated id (s, none) = (s, err (vanished id))
activated id (s, some r) = (s, ok r)

unfoldable pub reserve_command : Reservation → Command
reserve_command r = reserve_now (record {
  reservation_id = r.id;
  evse_uid = r.evse_uid;
  id_tag = r.id_tag;
  expires_at = r.expires_at;
})

-- `Reserve` from the station's answer on: `now` arms the timer and `at` stamps the event.
unfoldable pub reserve_answered :
    Reservation
    → Time
    → Time
    → Outcome
    → Result CallError Answer
    → Service
    → Service × Result ControlError Reservation
unfolding end_reason
reserve_answered r now at o (err e) s =
    ((orphan_reservation r.id (end_reason e) at s).0, err (of_call e))
reserve_answered r now at o (ok a) s =
    if is_accepted a.status
    then activated r.id (activate_reservation r.id now at o s)
    else ((end_reservation r.id rejected at o s).0, err (refused op_reserve r.evse_uid a))

-- The goroutine after a ReserveNow without an answer: `cancelOrphan`, whose answer is only logged,
-- and then the end of the record. `during` is what other operations do to core meanwhile.
unfoldable pub cancel_orphan :
    Reservation
    → CallError
    → Time
    → Outcome
    → (Service → Service)
    → Service
    → Service × List Command
unfolding end_reason
cancel_orphan r e at o during s =
    ((end_reservation r.id (end_reason e) at o (during s)).0, cancel_reservation r.id ∷ [])

-- How an action ends whose answer changes nothing in core.
unfoldable pub answer_to :
    (CommandStatus → Bool)
    → Op
    → String
    → Command
    → Service
    → Result CallError Answer
    → Done {0} Unit
answer_to wanted op uid c s (err e) = record {
  service = s;
  sent = c ∷ [];
  result = err (of_call e);
}
answer_to wanted op uid c s (ok a) = record {
  service = s;
  sent = c ∷ [];
  result = if wanted a.status then ok tt else err (refused op uid a);
}

abbrev pub failing {ℓ} : {A : Type ℓ} → Service → ControlError → Done A
failing s e = record { service = s; sent = []; result = err e }

-- `Cancel` from the station's answer on.
unfoldable pub cancel_answered :
    String
    → Reservation
    → Time
    → Outcome
    → Result CallError Answer
    → Service
    → Service × Result {0, 0} ControlError Unit
cancel_answered uid r at o (err e) s = (s, err (of_call e))
cancel_answered uid r at o (ok a) s = (
  (end_reservation r.id cancelled at o s).0,
  if is_accepted a.status then ok tt else err (refused op_cancel uid a),
)

module _ (cfg : Config) (commands : String → Result CallError Station) where
  -- An EVSE from config, and then the station: the two guards of every command on an EVSE.
  unfoldable pub charge_point : Result ControlError Station
  charge_point = elim (commands cfg.charger.id) [ err e ↦ err (of_call e) | ok cp ↦ ok cp ]

  unfoldable pub guarded : String → Result ControlError Station
  unfolding check_evse charge_point
  guarded uid = elim (check_evse cfg uid) [ err e ↦ err e | ok e ↦ charge_point ]

  -- The reservation that `Reserve` asks core for.
  unfoldable pub request : Station → ReserveParams → Time → Reservation
  unfolding expiry tag_or_default
  request cp p now = record {
    id = pos 0;
    ocpi_reservation_id = p.ocpi_reservation_id;
    charge_point_id = cp.id;
    evse_uid = p.evse_uid;
    connector_id = pos 0;
    id_tag = tag_or_default cfg p.id_tag;
    expires_at = expiry p now;
    created_at = zero_time;
    source = p.source;
    response_url = p.response_url;
    status = pending;
  }

  -- `Reserve` up to the ReserveNow: the station to send it to and the reservation as recorded.
  unfoldable pub reserve_begin :
      Bool
      → ReserveParams
      → Time
      → Time
      → Outcome
      → Service
      → Service × Result ControlError (Station × Reservation)
  unfolding guarded request
  reserve_begin closed p now created o s =
      if closed then (s, err shutting_down) else elim (guarded p.evse_uid) [
        | err e ↦ (s, err e)
        | ok cp ↦ recorded_for cp (begin_reservation (request cp p now) created o s)
      ]

  abbrev pub reserve_sent :
      Time
      → Time
      → Outcome
      → (Service → Service)
      → Service × Result ControlError (Station × Reservation)
      → Done Reservation
  reserve_sent armed at o during (s, err e) = failing s e
  reserve_sent armed at o during (s, ok (cp, r)) =
      let (s', result) = reserve_answered r armed at o (cp.call (reserve_command r)) (during s) in
      record { service = s'; sent = reserve_command r ∷ []; result = result }

  -- `Reserve`; `during` is what other operations do to core while it waits for the answer.
  unfoldable pub reserve :
      Bool
      → ReserveParams
      → Time
      → Time
      → Time
      → Time
      → Outcome
      → Outcome
      → (Service → Service)
      → Service
      → Done Reservation
  unfolding reserve_begin reserve_command reserve_answered
  reserve closed p now created armed at o o' during s =
      reserve_sent armed at o' during (reserve_begin closed p now created o s)

  unfoldable pub cancel : String → Time → Outcome → (Service → Service) → Service → Done {0} Unit
  unfolding check_evse charge_point cancel_answered
  cancel uid at o during s = elim (check_evse cfg uid) [
    | err e ↦ failing s e
    | ok _ ↦ elim (active_reservation uid s) [
      | none ↦ failing s (no_reservation uid)
      | some r ↦ elim charge_point [
        | err e ↦ failing s e
        | ok cp ↦
            let (s', result) =
              cancel_answered uid r at o (cp.call (cancel_reservation r.id)) (during s) in
            record { service = s'; sent = cancel_reservation r.id ∷ []; result = result }
      ]
    ]
  ]

  abbrev pub started_with :
      String
      → String
      → Station
      → (Service → Service)
      → Service × Result StoreError ℤ
      → Done {0} Unit
  started_with uid tag cp during (s, err e) = failing s (recording_start e)
  started_with uid tag cp during (s, ok id) =
      let c =
        remote_start
          (record { remote_start_id = id; evse_uid = uid; id_tag = tag_or_default cfg tag }) in
      answer_to is_accepted op_start uid c (during s) (cp.call c)

  unfoldable pub start : String → String → Outcome → (Service → Service) → Service → Done {0} Unit
  unfolding guarded tag_or_default answer_to
  start uid tag o during s = elim (guarded uid) [
    | err e ↦ failing s e
    | ok cp ↦ started_with uid tag cp during (next_remote_start_id o s)
  ]

  -- The transaction to stop, if the EVSE runs exactly one.
  unfoldable pub to_stop : String → List Transaction → Result ControlError Transaction
  to_stop uid [] = err (no_active_transaction uid)
  to_stop uid (tx ∷ []) = ok tx
  to_stop uid (tx ∷ tx' ∷ txs) =
      err (ambiguous uid (map (λ (t : Transaction). t.id) (tx ∷ tx' ∷ txs)))

  unfoldable pub stop : String → (Service → Service) → Service → Done {0} Unit
  unfolding check_evse charge_point to_stop answer_to
  stop uid during s = elim (check_evse cfg uid) [
    | err e ↦ failing s e
    | ok _ ↦ elim (to_stop uid (active_transactions uid s)) [
      | err e ↦ failing s e
      | ok tx ↦ elim charge_point [
        | err e ↦ failing s e
        | ok cp ↦
            answer_to is_accepted op_stop uid (remote_stop tx.id) (during s)
              (cp.call (remote_stop tx.id))
      ]
    ]
  ]

  unfoldable pub unlock : String → (Service → Service) → Service → Done {0} Unit
  unfolding guarded answer_to
  unlock uid during s = elim (guarded uid) [
    | err e ↦ failing s e
    | ok cp ↦
        answer_to is_unlocked op_unlock uid (unlock_connector uid) (during s)
          (cp.call (unlock_connector uid))
  ]

  unfoldable pub trigger_status : String → (Service → Service) → Service → Done {0} Unit
  unfolding guarded answer_to
  trigger_status uid during s = elim (guarded uid) [
    | err e ↦ failing s e
    | ok cp ↦
        answer_to is_accepted op_trigger_status uid (trigger uid) (during s) (cp.call (trigger uid))
  ]
