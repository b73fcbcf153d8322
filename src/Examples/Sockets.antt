-- ===== src/Examples/Sockets.antt =====
-- The result about the control socket at a concrete request.
use headless_csms.Prelude.{◌≡◌, refl, String, false, [], none, ok, err, pos, Result, lookup}
use headless_csms.Config.{evse_by_uid, find_uid}
use headless_csms.Core.Reservations.{active_reservation, find_on}
use headless_csms.Control.{cancel, check_evse}
use headless_csms.Control.Types.{CallError, not_connected, Station}
use headless_csms.Control.Socket.{
  Words, Course, Request, plain, code_refused, classify, served, dispatch, act,
}
use headless_csms.Control.Socket.Local.{dispatch-refused}
use headless_csms.Examples.Fixtures.{noon, two_evses, all_works, fresh}

abbrev words : Words
words = record {
  probe = ok "";
  error_text = λ e. "no";
  quote = λ s. s;
  parse_duration = λ s. none;
  less = λ s t. false;
}

abbrev course : Course
course = record {
  closed = false;
  now = noon;
  created = noon;
  armed = noon;
  at = noon;
  first_write = all_works;
  second_write = all_works;
  during = λ s. s;
}

abbrev offline : String → Result CallError Station
offline id = err not_connected

-- There is nothing to cancel.
abbrev cancel_evse1 : Request
cancel_evse1 = record { v = pos 1; op = "cancel"; evse = "evse-1"; id_tag = ""; expires_in = "" }

dispatch-refused_example :
    ((dispatch words two_evses offline "cp1" course cancel_evse1 fresh).sent ≡ [])
    × ((dispatch words two_evses offline "cp1" course cancel_evse1 fresh).service ≡ fresh)
unfolding dispatch act served classify cancel check_evse evse_by_uid find_uid active_reservation
    find_on lookup
dispatch-refused_example =
    dispatch-refused words two_evses offline "cp1" course cancel_evse1 fresh
      (plain code_refused "no") refl refl
