-- ===== src/Examples/Calls.antt =====
-- The results about the messages of a charge point at concrete inputs.
use headless_csms.Prelude.{◌≡◌, refl, String, false, none, some, ok, err, pos}
use headless_csms.Text.{itoa, equal_fold}
use headless_csms.Core.Types.{Transaction}
use headless_csms.Core.Transactions.Session.{find}
use headless_csms.Ocpp.V16.Messages.{
  Wire, StartTransactionReq, StopTransactionReq, decode, validate_start,
}
use headless_csms.Ocpp.V16.Handler.{
  Moment, handle_call, known_tag, start_transaction_conf, auth_accepted,
}
use headless_csms.Ocpp.V16.Handler.Refusals.{IsHonest, handle_call-IsHonest}
use headless_csms.Ocpp.V16.Handler.Sessions.{IsSession, handle_call-IsSession}
use headless_csms.Prelude.{get, lookup}
use headless_csms.Config.{evse_by_uid, find_uid}
use headless_csms.Control.Types.{Command, reserve_now, accepted}
use headless_csms.Ocpp.V16.{map_command_status}
use headless_csms.Ocpp.V16.ChargePoint.{Caller, send, send_reserve_now, with_connector, command}
use headless_csms.Ocpp.V16.ChargePoint.Wired.{IsAnswered, send-IsAnswered}
use headless_csms.Examples.Fixtures.{noon, one_o_clock, fresh, two_evses, all_works}

abbrev begin_req : StartTransactionReq
begin_req = record {
  connector_id = pos 1;
  id_tag = "tag";
  meter_start = pos 100;
  timestamp = "";
  reservation_id = none;
}

abbrev end_req : StopTransactionReq
end_req = record { transaction_id = pos 1; meter_stop = pos 250; timestamp = ""; reason = "Local" }

-- Every payload is of the one request of its kind.
abbrev fixed : Wire
fixed = record {
  Raw = String;
  is_empty = λ s. false;
  boot = λ s. err "bad";
  status = λ s. err "bad";
  authorize = λ s. err "bad";
  start = λ s. ok begin_req;
  stop = λ s. ok end_req;
  meters = λ s. err "bad";
  transfer = λ s. err "bad";
  only = λ s. err "bad";
  parse = λ s. none;
  quote = λ s. s;
  whole_seconds = λ n. n;
}

abbrev at_noon : Moment
at_noon = record {
  handler_now = noon;
  core_now = noon;
  ended = noon;
  last = noon;
  id_saved = all_works;
  saved = all_works;
}

abbrev at_one : Moment
at_one = record at_noon { handler_now = one_o_clock; core_now = one_o_clock; last = one_o_clock }

handle_call-IsHonest_example :
    IsHonest fresh (handle_call fixed two_evses at_noon "cp1" "Authorize" "{" fresh)
handle_call-IsHonest_example =
    handle_call-IsHonest fixed two_evses at_noon "cp1" "Authorize" "{" fresh

handle_call-IsSession_example :
    let (answer, t) = handle_call fixed two_evses at_noon "cp1" "StartTransaction" "{}" fresh in
    (answer ≡ ok (start_transaction_conf (pos 1) auth_accepted))
    × ((tx : Transaction) × (find "cp1"
            (itoa (pos 1))
            (handle_call fixed two_evses at_one "cp1" "StopTransaction" "{}" t).1
          ≡ some tx)
        × IsSession fixed two_evses "cp1" at_noon at_one begin_req end_req tx)
unfolding decode validate_start known_tag equal_fold
handle_call-IsSession_example =
    handle_call-IsSession fixed two_evses "cp1" at_noon at_one "{}" "{}" begin_req end_req fresh
      refl refl refl refl refl

-- A station that accepts everything.
abbrev pub willing : Caller
willing = record {
  Raw = String;
  id = "cp1";
  call = λ action req. ok "Accepted";
  read_status = λ s. ok s;
  quote = λ s. s;
}

abbrev hold_evse2 : Command
hold_evse2 = reserve_now (record {
  reservation_id = pos 7;
  evse_uid = "evse-2";
  id_tag = "TAG";
  expires_at = one_o_clock;
})

send-IsAnswered_example :
    IsAnswered willing two_evses hold_evse2 (record { status = accepted; raw = "Accepted" })
unfolding send send_reserve_now with_connector command evse_by_uid find_uid map_command_status get
    lookup
send-IsAnswered_example =
    send-IsAnswered willing two_evses hold_evse2 (record { status = accepted; raw = "Accepted" })
      refl
