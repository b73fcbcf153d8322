-- ===== src/Examples/Messages.antt =====
-- The results about the statuses of OCPP 1.6 at concrete inputs.
use headless_csms.Prelude.{String, ◌≡◌, true, [], ◌∷◌, pos, string_eq, lookup, get, arith}
use headless_csms.Config.{find_connector, evse_by_connector_id}
use headless_csms.Core.Status.{charging, unset}
use headless_csms.Core.Types.{ChargePointState, Service, new_charge_point}
use headless_csms.Core.ChargePoint.Honest.{IsHonest}
use headless_csms.Core.Service.{ensure, evse_uid, set_connector_status_locked}
use headless_csms.Ocpp.V16.{map_status}
use headless_csms.Ocpp.V16.Shown.{map_status-shown}
use headless_csms.Examples.Fixtures.{noon, fresh}

abbrev idle_station : ChargePointState
unfolding new_charge_point
idle_station = record (new_charge_point "cp1") { online = true }

abbrev online_service : Service
online_service = record fresh { cps = ("cp1", idle_station) ∷ [] }

idle_station-IsHonest : IsHonest (ensure "cp1" online_service)
unfolding ensure lookup idle_station new_charge_point
idle_station-IsHonest = record {
  covered = λ u st h. absurd (cc (h));
  honest = λ u st h. absurd (cc (h));
}

map_status-shown_example :
    get unset "evse-1"
      (ensure "cp1"
        (set_connector_status_locked "cp1"
          (pos 1)
          (map_status "SuspendedEV")
          "NoError"
          noon
          online_service).0).effective
    ≡ charging
unfolding ensure lookup get idle_station new_charge_point evse_uid evse_by_connector_id
    find_connector map_status
map_status-shown_example =
    map_status-shown "cp1" (pos 1) "SuspendedEV" "NoError" noon online_service (λ p. ground arith)
      idle_station-IsHonest

abbrev yes_word : String
yes_word = "Accepted"

abbrev reserve_action : String
reserve_action = "ReserveNow"
