-- ===== src/Core/Transactions.antt =====
-- internal/core/transactions.go.
pub mod Held
pub mod Redeem
pub mod Session
use headless_csms.Prelude.{
  ℕ, ◌+◌, ◌%◌, ◌^◌, String, Bool, true, false, ◌&&◌, not, List, [], ◌∷◌, ◌++◌, Option, none, some,
  if◌then◌else◌, ℤ, pos, succ, ◌==◌, string_eq, int_eq, lookup, insert, Result, ok, err,
}
use headless_csms.Text.{equal_fold}
use headless_csms.Clock.{Time, zero_time, is_zero}
use headless_csms.State.Store.{StoreError, Outcome}
use headless_csms.Core.Event.{
  Event, transaction_started, transaction_stopped, new_event, publish_all,
}
use headless_csms.Core.Types.{
  Transaction, TransactionStart, is_active, TimedReservation, ChargePointState, Service,
}
use headless_csms.Core.ChargePoint.{add_evse}
use headless_csms.Core.Service.{ensure, put, evse_uid, with_bus}
use headless_csms.Core.Persist.{is_held, persist, persist_or_log}
use headless_csms.Core.Reservations.{EndReason, consumed, failed, end_locked, publishing}

unfoldable pub next_transaction_id : Outcome → Service → Service × ℤ
next_transaction_id o s = (
  persist_or_log o (record s { next_transaction_id = succ s.next_transaction_id }),
  s.next_transaction_id,
)

abbrev pub sent_id : ℤ → Service × Option StoreError → Service × Result StoreError ℤ
sent_id id (s, none) = (s, ok id)
sent_id id (s, some e) = (s, err e)

unfoldable pub next_remote_start_id : Outcome → Service → Service × Result StoreError ℤ
next_remote_start_id o s =
    sent_id s.next_remote_start_id
      (persist o (record s { next_remote_start_id = succ s.next_remote_start_id }))

-- The tests of the two loops over the reservations.
abbrev pub is_held_on : String → String → TimedReservation → Bool
is_held_on cp_id uid r = r.charge_point_id == cp_id && r.evse_uid == uid && is_held r.status

unfoldable pub find_tagged :
    String → String → String → List (ℤ × TimedReservation) → Option TimedReservation
find_tagged cp_id uid tag [] = none
find_tagged cp_id uid tag ((k, r) ∷ rs) =
    if is_held_on cp_id uid r && equal_fold r.id_tag tag
    then some r
    else find_tagged cp_id uid tag rs

unfoldable pub find_held : String → String → List (ℤ × TimedReservation) → Option TimedReservation
find_held cp_id uid [] = none
find_held cp_id uid ((k, r) ∷ rs) =
    if is_held_on cp_id uid r then some r else find_held cp_id uid rs

-- The reservation that the station names, if it is an active one of this station.
unfoldable pub named : String → ℤ → Service → Option TimedReservation
named cp_id id s = if id == pos 0 then none else elim (lookup id s.reservations) [
  | none ↦ none
  | some r ↦ if r.charge_point_id == cp_id && is_held r.status then some r else none
]

unfoldable pub redeemed : String → String → TransactionStart → Service → Option TimedReservation
unfolding named find_tagged
redeemed cp_id uid t s = elim (named cp_id t.reservation_id s) [
  | some r ↦ some r
  | none ↦ find_tagged cp_id uid t.id_tag s.reservations
]

-- What a starting session does to the reservations: which one it redeems, and the event.
pub record Settled : Type 0 where
  pub service : Service
  pub redeems : Option ℤ
  pub events : List Event

abbrev pub settled : Option ℤ → Service × Event → Settled
settled redeems (s, e) = record { service = s; redeems = redeems; events = e ∷ [] }

unfoldable pub settle : String → String → TransactionStart → Time → Service → Settled
unfolding redeemed find_held
settle cp_id uid t now s = elim (redeemed cp_id uid t s) [
  | some r ↦ settled (some r.id) (end_locked r consumed now s)
  | none ↦ elim (find_held cp_id uid s.reservations) [
    | some r ↦ settled none (end_locked r failed now s)
    | none ↦ record { service = s; redeems = none; events = [] }
  ]
]

abbrev pub or_id : Option ℤ → ℤ → ℤ
or_id none id = id
or_id (some r) id = r

abbrev pub or_now : Time → Time → Time
or_now at now = if is_zero at then now else at

abbrev pub started : String → Time → TransactionStart → Option ℤ → ℕ → Transaction
started uid at t redeems seq = record {
  id = t.id;
  evse_uid = uid;
  connector_id = t.connector_id;
  id_tag = t.id_tag;
  meter_start = t.meter_start;
  started_at = at;
  reservation_id = or_id redeems t.reservation_id;
  stopped_at = zero_time;
  meter_stop = pos 0;
  reason = "";
  seq = seq;
}

-- The locked section: the transaction, the new state, and the events of a reservation's end. `now`
-- is read for a start without a time, `ended` for that end and `last` for the sign of life.
unfoldable pub start_locked :
    String → TransactionStart → Time → Time → Time → Service → Transaction × Service × List Event
unfolding settle
start_locked cp_id t now ended last s =
    let uid = evse_uid s.cfg cp_id t.connector_id in
    let cp = add_evse uid t.connector_id (ensure cp_id s) in
    let seq = (s.tx_seq + 1) % 2 ^ 64 in
    let done = settle cp_id uid t ended s in
    let tx = started uid (or_now t.at now) t done.redeems seq in
    let cp' = record cp { transactions = insert t.id tx cp.transactions; last_seen = last } in
    (tx, record (put cp_id cp' done.service) { tx_seq = seq }, done.events)

unfoldable pub start_transaction :
    String → TransactionStart → Time → Time → Time → Outcome → Service → Service × Transaction
unfolding start_locked
start_transaction cp_id t now ended last o s =
    let (tx, s', events) = start_locked cp_id t now ended last s in
    let event = record (new_event transaction_started (or_now t.at now) cp_id) {
      evse_uid = tx.evse_uid;
      transaction_id = t.id;
      id_tag = t.id_tag;
    } in
    (with_bus (event ∷ events) (persist_or_log o s'), tx)

-- The locked section of `StopTransaction`. An unknown station is registered by `ensure` all the same.
unfoldable pub stop_locked :
    String → String → ℤ → String → Time → Time → Service → Service × Option Transaction
stop_locked cp_id tx_id meter_stop reason at last s =
    let cp = ensure cp_id s in
    elim (lookup tx_id cp.transactions) [
      | none ↦ (put cp_id cp s, none)
      | some tx ↦
          if not (is_active tx)
          then (put cp_id cp s, none)
          else (let tx' = record tx { stopped_at = at; meter_stop = meter_stop; reason = reason } in
              (
                put cp_id
                    (record cp {
                      transactions = insert tx_id tx' cp.transactions;
                      last_seen = last;
                    })
                    s,
                some tx',
              ))
    ]

abbrev pub stopped :
    String
    → String
    → String
    → Time
    → Outcome
    → Service × Option Transaction
    → Service × Option Transaction
stopped cp_id tx_id reason at o (s, none) = (s, none)
stopped cp_id tx_id reason at o (s, some tx) = (
  publishing
      (record (new_event transaction_stopped at cp_id) {
        evse_uid = tx.evse_uid;
        transaction_id = tx_id;
        id_tag = tx.id_tag;
        detail = reason;
      })
      (persist_or_log o s),
  some tx,
)

unfoldable pub stop_transaction :
    String
    → String
    → ℤ
    → String
    → Time
    → Time
    → Time
    → Outcome
    → Service
    → Service × Option Transaction
unfolding stop_locked
stop_transaction cp_id tx_id meter_stop reason at now last o s =
    stopped cp_id tx_id reason (or_now at now) o
      (stop_locked cp_id tx_id meter_stop reason (or_now at now) last s)

unfoldable pub active_on : String → List (String × Transaction) → List Transaction
active_on uid [] = []
active_on uid ((k, tx) ∷ txs) =
    let rest = active_on uid txs in if tx.evse_uid == uid && is_active tx then tx ∷ rest else rest

unfoldable pub active_in : String → List (String × ChargePointState) → List Transaction
unfolding active_on
active_in uid [] = []
active_in uid ((k, cp) ∷ cps) = active_on uid cp.transactions ++ active_in uid cps

unfoldable pub active_transactions : String → Service → List Transaction
unfolding active_in
active_transactions uid s = active_in uid s.cps
