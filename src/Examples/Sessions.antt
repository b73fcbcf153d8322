-- ===== src/Examples/Sessions.antt =====
-- The results about sessions at concrete inputs.
use headless_csms.Prelude.{◌≡◌, refl, ◌⊎◌, true, [], ◌∷◌, none, some, pos, int_eq, lookup}
use headless_csms.Text.{equal_fold, fold}
use headless_csms.Core.Types.{TimedReservation, TransactionStart, active}
use headless_csms.Core.Reservations.{reservation_event}
use headless_csms.Core.Transactions.{named, find_tagged, redeemed, find_held, settle}
use headless_csms.Core.Transactions.Redeem.{IsElsewhere, settle-find_held, settle-redeems}
use headless_csms.Examples.Fixtures.{noon, holding_active, holding_active-IsSound}

-- The station does not name the reservation; the tag is the same but for its case.
abbrev start_by_tag : TransactionStart
start_by_tag = record {
  id = "1";
  connector_id = pos 1;
  id_tag = "tag";
  meter_start = pos 0;
  reservation_id = pos 0;
  at = noon;
}

settle-find_held_example :
    (find_held "cp1" "evse-1"
        (settle "cp1" "evse-1" start_by_tag noon holding_active).service.reservations
      ≡ none)
    ⊎ IsElsewhere "cp1" "evse-1" start_by_tag holding_active
        (settle "cp1" "evse-1" start_by_tag noon holding_active).service
settle-find_held_example =
    settle-find_held "cp1" "evse-1" start_by_tag noon holding_active holding_active-IsSound

settle-redeems_example :
    (r : TimedReservation) × (redeemed "cp1" "evse-1" start_by_tag holding_active ≡ some r)
    × (r.id ≡ pos 1)
    × (r.status ≡ active)
    × (r.charge_point_id ≡ "cp1")
    × ((pos 0 ≡ pos 1) ⊎ ((r.evse_uid ≡ "evse-1") × (equal_fold r.id_tag "tag" ≡ true)))
    × (lookup (pos 1) (settle "cp1" "evse-1" start_by_tag noon holding_active).service.reservations
        ≡ none)
    × ((settle "cp1" "evse-1" start_by_tag noon holding_active).events
        ≡ reservation_event "consumed" noon r.reservation ∷ [])
unfolding settle redeemed named find_tagged equal_fold fold
settle-redeems_example =
    settle-redeems "cp1" "evse-1" start_by_tag noon holding_active (pos 1) holding_active-IsSound
      refl
