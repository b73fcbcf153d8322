-- ===== src/Ocpp/V16/Handler/Sessions.antt =====
-- A session from its StartTransaction to its StopTransaction. About internal/ocpp/v16/handler.go.
use headless_csms.Prelude.{lookup, ◌≡◌, refl, String, true, none, some, ok}
use headless_csms.Text.{itoa}
use headless_csms.Config.{Config}
use headless_csms.Core.Types.{Service, Transaction}
use headless_csms.Core.Transactions.{
  start_locked, stop_transaction, or_now, next_transaction_id, start_transaction,
}
use headless_csms.Core.Transactions.Session.{find, find-start_transaction, find-stop_transaction}
use headless_csms.Ocpp.V16.Messages.{
  Wire, StartTransactionReq, StopTransactionReq, decode_start, decode_stop, validate_start,
  parse_time,
}
use headless_csms.Ocpp.V16.Handler.{
  Moment, known_tag, start_of, start_transaction_req, stop_transaction_req, start_transaction_conf,
  auth_accepted, handle_call, take_action, stopped_by,
}

module _ (w : Wire) (cfg : Config) (cp_id : String) where
  -- The transaction that two messages of a station leave: who, where and from which reading by the
  -- first, and up to which reading, why and when by the second.
  pub record IsSession (first second : Moment) (req : StartTransactionReq)
      (stop : StopTransactionReq) (tx : Transaction) : Type 0 where
    pub connector : tx.connector_id ≡ req.connector_id
    pub tag : tx.id_tag ≡ req.id_tag
    pub meter_start : tx.meter_start ≡ req.meter_start
    pub started :
        tx.started_at ≡ or_now (parse_time w req.timestamp first.handler_now) first.core_now
    pub meter_stop : tx.meter_stop ≡ stop.meter_stop
    pub reason : tx.reason ≡ stop.reason
    pub stopped :
        tx.stopped_at ≡ or_now (parse_time w stop.timestamp second.handler_now) second.core_now

  start_lem :
      (m : Moment) (raw : w.Raw) (req : StartTransactionReq) (s : Service)
      → decode_start w raw ≡ ok req
      → validate_start w req ≡ none
      → known_tag cfg req.id_tag ≡ true
      → handle_call w cfg m cp_id "StartTransaction" raw s ≡ (
        ok (start_transaction_conf s.next_transaction_id auth_accepted),
        (start_transaction cp_id
            (start_of w cfg m cp_id req s.next_transaction_id)
            m.core_now
            m.ended
            m.last
            m.saved
            (next_transaction_id m.id_saved s).0).0,
      )
  unfolding handle_call take_action start_transaction_req next_transaction_id lookup
      start_transaction
  start_lem m raw req s read valid known = rw (read, start_transaction_req, valid, known) refl

  stop_lem :
      (m : Moment) (raw : w.Raw) (stop : StopTransactionReq) (s : Service)
      → decode_stop w raw ≡ ok stop
      → handle_call w cfg m cp_id "StopTransaction" raw s ≡ stopped_by w cfg m cp_id stop s
  unfolding handle_call take_action stop_transaction_req lookup stop_transaction
  stop_lem m raw stop s read = rw (read, stop_transaction_req) refl

  -- A StartTransaction that decodes, is valid and has the configured tag is answered by an id. A
  -- StopTransaction of that id, the next message of the station, leaves under the id the transaction
  -- that the two messages describe.
  pub handle_call-IsSession :
      (first second : Moment) (raw raw' : w.Raw) (req : StartTransactionReq)
      (stop : StopTransactionReq) (s : Service)
      → decode_start w raw ≡ ok req
      → validate_start w req ≡ none
      → known_tag cfg req.id_tag ≡ true
      → decode_stop w raw' ≡ ok stop
      → stop.transaction_id ≡ s.next_transaction_id
      → let (answer, t) = handle_call w cfg first cp_id "StartTransaction" raw s in
        (answer ≡ ok (start_transaction_conf stop.transaction_id auth_accepted))
        × ((tx : Transaction) × (find cp_id
                (itoa stop.transaction_id)
                (handle_call w cfg second cp_id "StopTransaction" raw' t).1
              ≡ some tx)
            × IsSession first second req stop tx)
  handle_call-IsSession first second raw raw' req stop s read valid known read' same =
      let id = s.next_transaction_id in
      let began = (next_transaction_id first.id_saved s).0 in
      let given = start_of w cfg first cp_id req id in
      let made =
        start_transaction cp_id given first.core_now first.ended first.last first.saved began in
      let at = parse_time w stop.timestamp second.handler_now in
      rw (start_lem first raw req s read valid known, stop_lem second raw' stop made.0 read', same)
        (
          refl,
          (
            _,
            find-stop_transaction cp_id (itoa id) stop.meter_stop stop.reason at second.core_now
                second.last second.saved made.0 made.1
                (find-start_transaction cp_id given first.core_now first.ended first.last
                  first.saved began)
                (unfold start_transaction start_locked in refl),
            record {
              connector = unfold start_transaction start_locked in refl;
              tag = unfold start_transaction start_locked in refl;
              meter_start = unfold start_transaction start_locked in refl;
              started = unfold start_transaction start_locked in refl;
              meter_stop = refl;
              reason = refl;
              stopped = refl;
            },
          ),
        )
