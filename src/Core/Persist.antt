-- ===== src/Core/Persist.antt =====
-- internal/core/persist.go. A nil store keeps everything in memory; the outcome of a write to the
-- file system is an argument.
pub mod Frame
pub mod Listed
pub mod Restart
pub mod Saved
use headless_csms.Prelude.{
  ℕ, ◌+◌, ◌%◌, ◌^◌, String, Bool, true, false, ◌&&◌, not, List, [], ◌∷◌, ◌++◌, map, Option, none,
  some, if◌then◌else◌, ltb, ltb_ℤ, ℤ, pos, succ, max, ◌==◌, string_eq, int_eq, lookup, insert,
  Result, ok, err,
}
use headless_csms.Text.{atoi}
use headless_csms.Clock.{Time, zero_time, is_after, time_sub}
use headless_csms.Config.{Config, Evse, evse_by_uid}
use headless_csms.State
use headless_csms.State.{State}
use headless_csms.State.Store.{Store, StoreError, Outcome, update, get}
use headless_csms.Core.Sort.{sort}
use headless_csms.Core.Event.{new_bus}
use headless_csms.Core.Types.{
  Transaction, is_active, Reservation, ReservationStatus, pending, active, cancelling, Timer,
  TimedReservation, ChargePointState, Service, new_charge_point,
}
use headless_csms.Core.ChargePoint.{add_evse}
use headless_csms.Core.Service.{ensure, put}

abbrev pub eq_reservation_status : ReservationStatus → ReservationStatus → Bool
eq_reservation_status pending pending = true
eq_reservation_status active active = true
eq_reservation_status cancelling cancelling = true
eq_reservation_status _ _ = false

abbrev pub is_held : ReservationStatus → Bool
is_held active = true
is_held _ = false

abbrev pub reservation_dto : Reservation → State.Reservation
reservation_dto r = record {
  id = r.id;
  ocpi_reservation_id = r.ocpi_reservation_id;
  charge_point_id = r.charge_point_id;
  evse_uid = r.evse_uid;
  id_tag = r.id_tag;
  expires_at = r.expires_at;
  created_at = r.created_at;
  source = r.source;
  response_url = r.response_url;
}

abbrev pub transaction_dto : String × Transaction → State.Transaction
transaction_dto (cp_id, tx) = record {
  id = tx.id;
  charge_point_id = cp_id;
  evse_uid = tx.evse_uid;
  connector_id = tx.connector_id;
  id_tag = tx.id_tag;
  meter_start = tx.meter_start;
  started_at = tx.started_at;
  reservation_id = tx.reservation_id;
}

-- The loop over `s.reservations`: the active ones.
unfoldable pub held : List (ℤ × TimedReservation) → List State.Reservation
held [] = []
held ((k, r) ∷ rs) =
    let rest = held rs in if is_held r.status then reservation_dto r.reservation ∷ rest else rest

unfoldable pub running : String → List (String × Transaction) → List (String × Transaction)
running cp_id [] = []
running cp_id ((k, tx) ∷ txs) =
    let rest = running cp_id txs in if is_active tx then (cp_id, tx) ∷ rest else rest

unfoldable pub all_running : List (String × ChargePointState) → List (String × Transaction)
unfolding running
all_running [] = []
all_running ((k, cp) ∷ cps) = running cp.id cp.transactions ++ all_running cps

unfoldable pub persistable_reservations : Service → List State.Reservation
unfolding held sort
persistable_reservations s = sort (λ a b. ltb_ℤ a.id b.id) (held s.reservations)

unfoldable pub persistable_transactions : Service → List State.Transaction
unfolding all_running sort
persistable_transactions s =
    map transaction_dto (sort (λ a b. ltb (a.1).seq (b.1).seq) (all_running s.cps))

-- The function that `persist` hands to `Update`.
unfoldable pub write_domain : Service → State → Result StoreError State
unfolding persistable_reservations persistable_transactions
write_domain s st = ok (record st {
  next_reservation_id = s.next_reservation_id;
  next_transaction_id = s.next_transaction_id;
  next_remote_start_id = s.next_remote_start_id;
  reservations = persistable_reservations s;
  transactions = persistable_transactions s;
})

abbrev pub stored : Service → Store × Option StoreError → Service × Option StoreError
stored s (st, e) = (record s { store = some st }, e)

-- The body of `persist`, on the store that there may be.
unfoldable pub persist_to : Outcome → Service → Option Store → Service × Option StoreError
unfolding write_domain
persist_to o s none = (s, none)
persist_to o s (some st) = stored s (update (write_domain s) o st)

unfoldable pub persist : Outcome → Service → Service × Option StoreError
unfolding persist_to
persist o s = persist_to o s s.store

-- `persistOrLog`, and every caller that logs a failed write and goes on.
unfoldable pub persist_or_log : Outcome → Service → Service
unfolding persist
persist_or_log o s = (persist o s).0

unfoldable pub connector_id : Option Config → String → Option ℤ
connector_id none uid = none
connector_id (some cfg) uid = elim (evse_by_uid cfg uid) [
  | none ↦ none
  | some e ↦ some e.ocpp_connector_id
]

-- `armLocked`, on the reservation itself.
unfoldable pub arm : Time → TimedReservation → TimedReservation
arm now r = record r {
  timer = some (record { after = time_sub r.expires_at now; id = r.id; expires_at = r.expires_at });
}

-- The loop over the stored transactions.
abbrev pub loaded_transaction : ℕ → State.Transaction → Transaction
loaded_transaction seq t = record {
  id = t.id;
  evse_uid = t.evse_uid;
  connector_id = t.connector_id;
  id_tag = t.id_tag;
  meter_start = t.meter_start;
  started_at = t.started_at;
  reservation_id = t.reservation_id;
  stopped_at = zero_time;
  meter_stop = pos 0;
  reason = "";
  seq = seq;
}

abbrev pub above_id : Option ℤ → ℤ → ℤ
above_id none next = next
above_id (some n) next = max next (succ n)

unfoldable pub load_transaction : State.Transaction → Service → Service
unfolding ensure put
load_transaction t s =
    let seq = (s.tx_seq + 1) % 2 ^ 64 in
    let cp = add_evse t.evse_uid t.connector_id (ensure t.charge_point_id s) in
    let cp' = record cp { transactions = insert t.id (loaded_transaction seq t) cp.transactions } in
    record (put t.charge_point_id cp' s) {
      tx_seq = seq;
      next_transaction_id = above_id (atoi t.id) s.next_transaction_id;
    }

unfoldable pub load_transactions : List State.Transaction → Service → Service
unfolding load_transaction
load_transactions [] s = s
load_transactions (t ∷ ts) s = load_transactions ts (load_transaction t s)

abbrev pub loaded_reservation : ℤ → State.Reservation → TimedReservation
loaded_reservation connector r = record {
  reservation = record {
    id = r.id;
    ocpi_reservation_id = r.ocpi_reservation_id;
    charge_point_id = r.charge_point_id;
    evse_uid = r.evse_uid;
    connector_id = connector;
    id_tag = r.id_tag;
    expires_at = r.expires_at;
    created_at = r.created_at;
    source = r.source;
    response_url = r.response_url;
    status = active;
  };
  timer = none;
}

-- One round of the loop over the stored reservations, with `dropped` so far. `now` is read before the
-- loop, and `clock` is what `armLocked` reads again for the reservation with an id.
unfoldable pub load_reservation :
    Time → (ℤ → Time) → State.Reservation → Service × Bool → Service × Bool
unfolding arm connector_id
load_reservation now clock r (s, dropped) =
    if not (is_after r.expires_at now) then (s, true) else elim (connector_id s.cfg r.evse_uid) [
      | none ↦ (s, true)
      | some c ↦ (
        record s {
          reservations = insert r.id (arm (clock r.id) (loaded_reservation c r)) s.reservations;
          next_reservation_id = max s.next_reservation_id (succ r.id);
        },
        dropped,
      )
    ]

unfoldable pub load_reservations :
    Time → (ℤ → Time) → List State.Reservation → Service × Bool → Service × Bool
unfolding load_reservation
load_reservations now clock [] acc = acc
load_reservations now clock (r ∷ rs) acc =
    load_reservations now clock rs (load_reservation now clock r acc)

unfoldable pub load_locked : Time → (ℤ → Time) → State → Service → Service × Bool
unfolding load_transactions load_reservations
load_locked now clock st s =
    let counted = record s {
      next_reservation_id = max st.next_reservation_id (pos 1);
      next_transaction_id = max st.next_transaction_id (pos 1);
      next_remote_start_id = max st.next_remote_start_id (pos 1);
    } in
    load_reservations now clock st.reservations (load_transactions st.transactions counted, false)

unfoldable pub load : Time → (ℤ → Time) → Outcome → Store → Service → Service
unfolding load_locked persist_or_log
load now clock o st s =
    let (s', dropped) = load_locked now clock (get st) s in
    if dropped then persist_or_log o s' else s'

-- `New` with the configuration and the store that its options give it.
unfoldable pub blank : Option Config → Option Store → Service
blank cfg store = record {
  cfg = cfg;
  bus = new_bus;
  store = store;
  cps = [];
  reservations = [];
  tx_seq = 0;
  next_reservation_id = pos 1;
  next_transaction_id = pos 1;
  next_remote_start_id = pos 1;
}

unfoldable pub add_evses : List Evse → ChargePointState → ChargePointState
add_evses [] cp = cp
add_evses (e ∷ es) cp = add_evses es (add_evse e.uid e.ocpp_connector_id cp)

unfoldable pub configured : Option Config → Service → Service
unfolding add_evses
configured none s = s
configured (some cfg) s =
    put cfg.charger.id (add_evses cfg.location.evses (new_charge_point cfg.charger.id)) s

unfoldable pub new : Option Config → Option Store → Time → (ℤ → Time) → Outcome → Service
unfolding blank configured load
new cfg none now clock o = configured cfg (blank cfg none)
new cfg (some st) now clock o = load now clock o st (configured cfg (blank cfg (some st)))
