-- ===== src/Examples/Fixtures.antt =====
-- A configuration with two EVSEs, and core before and after a reservation on the first of them.
use headless_csms.Prelude.{
  refl, ◌≢◌, String, true, false, [], ◌∷◌, none, some, pos, max_int, arith, lookup, insert, succ,
}
use headless_csms.Clock.{Time}
use headless_csms.Config.{Config, Evse, find_uid, evse_by_uid}
use headless_csms.State.{State}
use headless_csms.State.Store.{Store, Outcome, absent}
use headless_csms.Core.Event.{Bus}
use headless_csms.Core.Types.{Reservation, pending, active, TimedReservation, Service}
use headless_csms.Core.Persist.{connector_id}
use headless_csms.Core.Reservations.{reservation_on, find_on, begun, begin_locked}
use headless_csms.Core.Reservations.Exclusive.{replace-IsExclusive}
use headless_csms.Core.Steps.Table.{IsSound, begin_locked-IsSound}

abbrev pub noon : Time
noon = record { nanos = 63000000000000000000; zone = pos 0; monotonic = false }

abbrev pub one_o_clock : Time
one_o_clock = record { nanos = 63000003600000000000; zone = pos 0; monotonic = false }

abbrev pub evse1 : Evse
evse1 = record { uid = "evse-1"; evse_id = "DE*ABC*E1"; ocpp_connector_id = pos 1; connectors = [] }

abbrev pub evse2 : Evse
evse2 = record { uid = "evse-2"; evse_id = "DE*ABC*E2"; ocpp_connector_id = pos 2; connectors = [] }

abbrev pub two_evses : Config
two_evses = record {
  charger = record {
    id = "cp1";
    ip = "192.0.2.7";
    ocpp_version = "1.6";
    heartbeat_interval = pos 60;
    heartbeat_timeout = pos 180;
    call_timeout = pos 30;
  };
  server = record { ocpp_bind = ":9000"; ocpi_bind = ":8080" };
  auth = record { default_id_tag = "TAG" };
  ocpi = record {
    country_code = "DE";
    party_id = "ABC";
    public_base_url = "";
    token_a = "";
    token_c = "";
    push = record { debounce = pos 0; max_retries = pos 0 };
  };
  location = record {
    id = "loc";
    name = "";
    address = "";
    city = "";
    postal_code = "";
    country = "";
    coordinates = record { latitude = ""; longitude = "" };
    evses = evse1 ∷ evse2 ∷ [];
  };
}

abbrev pub all_works : Outcome
all_works = record {
  encodes = true;
  creates = true;
  writes = true;
  syncs = true;
  closes = true;
  renames = true;
  removes = true;
}

abbrev pub rename_fails : Outcome
rename_fails = record all_works { renames = false }

abbrev pub no_state : State
no_state = record {
  version = pos 1;
  ocpi = none;
  next_reservation_id = pos 0;
  next_transaction_id = pos 0;
  next_remote_start_id = pos 0;
  reservations = [];
  transactions = [];
}

abbrev pub new_store : Store
new_store = record {
  path = "/var/lib/cpms/state.json";
  state = no_state;
  disk = record { target = none; temp = absent };
}

abbrev pub one_subscriber : Bus
one_subscriber = record {
  next_handle = 1;
  subs = record { handle = 0; name = "tui"; ch = []; drops = 0 } ∷ [];
}

abbrev pub fresh : Service
fresh = record {
  cfg = some two_evses;
  bus = one_subscriber;
  store = some new_store;
  cps = [];
  reservations = [];
  tx_seq = 0;
  next_reservation_id = pos 1;
  next_transaction_id = pos 1;
  next_remote_start_id = pos 1;
}

abbrev pub request_on : String → Reservation
request_on uid = record {
  id = pos 0;
  ocpi_reservation_id = "";
  charge_point_id = "cp1";
  evse_uid = uid;
  connector_id = pos 0;
  id_tag = "TAG";
  expires_at = one_o_clock;
  created_at = noon;
  source = "cli";
  response_url = "";
  status = pending;
}

abbrev pub asked : Reservation
asked = begun (request_on "evse-1") (pos 1) (pos 1) noon

abbrev pub accepted_one : Reservation
accepted_one = record asked { status = active }

abbrev pub with_table : TimedReservation → Service
with_table r = record fresh { reservations = (pos 1, r) ∷ []; next_reservation_id = pos 2 }

-- Core with one pending reservation, and with one active one.
abbrev pub holding_pending : Service
holding_pending = with_table (record { reservation = asked; timer = none })

abbrev pub holding_active : Service
holding_active = with_table (record { reservation = accepted_one; timer = none })

pub fresh-IsSound : IsSound fresh
unfolding lookup
fresh-IsSound = record {
  is_map = tt;
  keyed = λ k r h. absurd (cc (h));
  single = λ j k r q h i u. absurd (cc (h));
  fresh = λ k r h. absurd (cc (h));
}

pub room : (fresh.next_reservation_id) ≢ pos max_int
room h = ground arith

pub holding_pending-IsSound : IsSound holding_pending
unfolding begin_locked reservation_on find_on connector_id evse_by_uid find_uid insert succ
holding_pending-IsSound = begin_locked-IsSound (request_on "evse-1") noon fresh room fresh-IsSound

pub holding_active-IsSound : IsSound holding_active
unfolding insert lookup
holding_active-IsSound =
    replace-IsExclusive holding_pending-IsSound (pos 1)
      (record { reservation = asked; timer = none })
      (record { reservation = accepted_one; timer = none }) refl refl refl
