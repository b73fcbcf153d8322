-- ===== src/Examples/Servers.antt =====
-- The results about the server at concrete inputs.
use headless_csms.Prelude.{◌≡◌, ◌≢◌, refl, true, false, [], ◌∷◌, none, some, lookup, string_eq}
use headless_csms.Ocpp.{v16, v201, version_from_subprotocol, subprotocol}
use headless_csms.Core.Service.{is_online}
use headless_csms.Csms.Handshake.{Handshaken, handshake, accepts, charge_point_id, negotiate, clean}
use headless_csms.Csms.Handshake.Agreed.{IsFirst, handshake-ok}
use headless_csms.Csms.Registry.{Server, stopped, registers, reports, unregisters, tells, run}
use headless_csms.Csms.Whole.{arrives, departs, run_whole}
use headless_csms.Csms.Agreement.{IsQuiet, run_whole-IsQuiet}
use headless_csms.Csms.Race.{replaced-not_online}
use headless_csms.Examples.Fixtures.{noon, one_o_clock, fresh}

abbrev garage : Handshaken
garage = record { id = "garage"; version = v16; subprotocol = "ocpp1.6" }

handshake-ok_example :
    (garage.id ≢ "")
    × (garage.id ≡ charge_point_id "/ocpp/garage")
    × (accepts none garage.id ≡ true)
    × IsFirst (v201 ∷ v16 ∷ []) ("ocpp2.1" ∷ "ocpp1.6" ∷ []) garage.version garage.subprotocol
unfolding handshake negotiate charge_point_id clean version_from_subprotocol subprotocol
handshake-ok_example =
    handshake-ok none (v201 ∷ v16 ∷ []) "/ocpp/garage" ("ocpp2.1" ∷ "ocpp1.6" ∷ []) garage refl

abbrev no_conns : Server
no_conns = record { conns = []; closed = []; sessions = []; core = fresh }

no_conns-IsQuiet : IsQuiet no_conns
unfolding lookup is_online
no_conns-IsQuiet = record { settled = λ c x h. absurd (cc (h)); agreed = λ id. refl }

run_whole-IsQuiet_example : IsQuiet (
    run_whole
      (arrives 0 "cp1" noon ∷ arrives 1 "cp1" noon ∷ departs 0 "closed" one_o_clock ∷ [])
      no_conns)
run_whole-IsQuiet_example =
    run_whole-IsQuiet
      (arrives 0 "cp1" noon ∷ arrives 1 "cp1" noon ∷ departs 0 "closed" one_o_clock ∷ []) no_conns
      no_conns-IsQuiet

-- A connection that has stopped and still stands in the registry.
abbrev one_stopped : Server
one_stopped = record no_conns {
  conns = ("cp1", 0) ∷ [];
  sessions = (0, record { id = "cp1"; phase = stopped "eof" }) ∷ [];
}

replaced-not_online_example :
    let after =
      run
        (unregisters 0 ∷ registers 1 "cp1" ∷ reports 1 noon ∷ tells 0 one_o_clock ∷ [])
        one_stopped in
    (lookup "cp1" after.conns ≡ some 1) × (is_online "cp1" after.core ≡ false)
unfolding lookup
replaced-not_online_example =
    replaced-not_online 0 1 "cp1" "eof" noon one_o_clock one_stopped refl refl refl refl
