-- ===== src/Core/ChargePoint.antt =====
-- internal/core/service.go: the methods of one charge point's state.
pub mod Effective
pub mod Honest
use headless_csms.Prelude.{
  String, Bool, true, false, List, [], ◌∷◌, ◌++◌, Option, none, some, if◌then◌else◌, ℤ, ◌==◌,
  string_eq, lookup, get, insert,
}
use headless_csms.Clock.{Time}
use headless_csms.Core.Status.{EvseStatus, unknown, unset, status_eq, effective_status}
use headless_csms.Core.Event.{Event, evse_status_changed, new_event}
use headless_csms.Core.Types.{ChargePointState}

abbrev pub is_known : Option EvseStatus → Bool
is_known none = false
is_known (some s) = true

unfoldable pub add_evse : String → ℤ → ChargePointState → ChargePointState
add_evse uid connector_id cp = if is_known (lookup uid cp.effective) then cp else record cp {
  order = cp.order ++ uid ∷ [];
  connector_ids = insert uid connector_id cp.connector_ids;
  effective = insert uid unknown cp.effective;
}

-- What `recompute` wants an EVSE's status to be.
unfoldable pub wanted : ChargePointState → String → EvseStatus
wanted cp uid = effective_status cp.online cp.station (get unset uid cp.reported)

-- One round of the loop of `recompute`.
unfoldable pub recompute_one : Time → ChargePointState → String → ChargePointState × List Event
unfolding wanted
recompute_one at cp uid =
    let want = wanted cp uid in
    let got = get unset uid cp.effective in
    if got == want then (cp, []) else (
      record cp { effective = insert uid want cp.effective },
      record (new_event evse_status_changed at cp.id) {
        evse_uid = uid;
        from = got;
        to = want;
        error_code = get "" uid cp.error_code;
      }
          ∷ [],
    )

unfoldable pub recompute_from :
    Time → ChargePointState → List String → ChargePointState × List Event
unfolding recompute_one
recompute_from at cp [] = (cp, [])
recompute_from at cp (uid ∷ uids) =
    let (cp', events) = recompute_one at cp uid in
    let (cp'', more) = recompute_from at cp' uids in (cp'', events ++ more)

unfoldable pub recompute : Time → ChargePointState → ChargePointState × List Event
unfolding recompute_from
recompute at cp = recompute_from at cp cp.order
