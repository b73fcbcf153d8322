-- ===== src/Ocpp/V16/Shown.antt =====
-- What a StatusNotification of OCPP 1.6 makes an EVSE show, and which answers count as a yes. About
-- internal/ocpp/v16/status.go and internal/core/service.go.
use headless_csms.Prelude.{
  ◌≡◌, refl, sym, ap, ◌∙◌, subst, ◌≢◌, inl, inr, String, Bool, true, false, List, [], ◌∷◌, All, ℤ,
  pos, lookup, get, contains, Option-cases, ==_cases, ◌&&◌, not, if◌then◌else◌, ==_false, arith,
  string_eq, int_eq, ◌==◌, get-insert, ==_refl,
}
use headless_csms.Clock.{Time}
use headless_csms.Core.Status.{
  EvseStatus, unknown, unset, eq_status, overrides, reported_or_unknown, effective_status,
}
use headless_csms.Core.Types.{ChargePointState, Service}
use headless_csms.Core.ChargePoint.{wanted, add_evse, recompute, is_known}
use headless_csms.Core.ChargePoint.Effective.{recompute_lem}
use headless_csms.Core.ChargePoint.Honest.{IsHonest, add_evse-IsHonest}
use headless_csms.Core.Service.{
  ensure, evse_uid, set_reported, change_status, set_connector_status_locked,
}
use headless_csms.Core.Service.Repeat.{ensure-put, add_evse-Knows}
use headless_csms.Control.Types.{unknown as unknown_answer, CommandStatus, is_accepted, is_unlocked}
use headless_csms.Ocpp.V16.{status_map, map_status, command_status_map, map_command_status}

-- What holds of every entry under its key, and of the default, holds of what is looked up.
get-All {ℓ} :
    {V : Type ℓ} (P : String → V → Type 0) (d : V) (k : String) (m : List (String × V))
    → P k d
    → All (λ (e : String × V). P e.0 e.1) m
    → P k (get d k m)
unfolding get lookup
get-All P d k [] h hs = h
get-All P d k ((j, v) ∷ m) h hs = elim (==_cases j k) [
  | inl t ↦ rw (t.0, get, lookup) (subst (λ i. P i v) t.1 hs.0)
  | inr f ↦ rw (f.0, get, lookup) (get-All P d k m h hs.1)
]

map_status-set : (w : String) → eq_status (map_status w) unset ≡ false
unfolding map_status eq_status
map_status-set w =
    get-All (λ k st. eq_status st unset ≡ false) unknown w status_map refl
      (refl, (refl, (refl, (refl, (refl, (refl, (refl, (refl, (refl, tt)))))))))

reported_or_unknown-set :
    (st : EvseStatus) → eq_status st unset ≡ false → reported_or_unknown st ≡ st
unfolding eq_status
reported_or_unknown-set st h = ground arith

add_evse-covers :
    (uid : String) (c : ℤ) (cp : ChargePointState)
    → IsHonest cp
    → contains uid (add_evse uid c cp).order ≡ true
add_evse-covers uid c cp v = elim (Option-cases (lookup uid (add_evse uid c cp).effective)) [
  | inl e ↦ absurd (let known = add_evse-Knows uid c cp in cc (sym known ∙ ap is_known e))
  | inr (st, e) ↦ (add_evse-IsHonest uid c cp v).covered uid st e
]

add_evse-frame :
    (uid : String) (c : ℤ) (cp : ChargePointState)
    → ((add_evse uid c cp).online ≡ cp.online) × ((add_evse uid c cp).station ≡ cp.station)
unfolding add_evse
add_evse-frame uid c cp = (ground arith, ground arith)

set_reported-shown :
    (uid : String) (c : ℤ) (st : EvseStatus) (e : String) (at : Time) (cp : ChargePointState)
    → IsHonest cp
    → get unset uid ((recompute at (set_reported uid c st e cp)).0).effective
      ≡ effective_status cp.online cp.station st
unfolding set_reported
set_reported-shown uid c st e at cp v =
    let (online, station) = add_evse-frame uid c cp in
    (recompute_lem at (set_reported uid c st e cp)).0 uid (add_evse-covers uid c cp v)
    ∙ rw (online, station, get-insert unset uid uid st (add_evse uid c cp).reported, ==_refl uid)
        refl

effective_status-set :
    (online : Bool) (station st : EvseStatus)
    → eq_status st unset ≡ false
    → effective_status online station st
      ≡ (if not online then unknown else if overrides station then station else st)
unfolding effective_status
effective_status-set false station st h = refl
effective_status-set true station st h = rw (reported_or_unknown-set st h) refl

-- After a StatusNotification about a connector, its EVSE shows the effective status: UNKNOWN while the
-- station is offline, the station's own status where that overrides, and else the OCPI status that
-- the OCPP one maps to. On a station that is honest, as it is in every interleaving.
pub map_status-shown :
    (cp_id : String) (c : ℤ) (w e : String) (at : Time) (s : Service)
    → c ≢ pos 0
    → IsHonest (ensure cp_id s)
    → let t = (set_connector_status_locked cp_id c (map_status w) e at s).0 in
      let cp = ensure cp_id s in
      get unset (evse_uid s.cfg cp_id c) (ensure cp_id t).effective ≡ (
        if not cp.online
        then unknown
        else if overrides cp.station
        then cp.station
        else map_status w)
unfolding set_connector_status_locked
map_status-shown cp_id c w e at s nonzero v =
    let cp : ChargePointState = record (ensure cp_id s) { last_seen = at } in
    let uid = evse_uid s.cfg cp_id c in
    let honest : IsHonest cp = record { covered = v.covered; honest = unfold wanted in v.honest } in
    let connector : change_status cp_id uid c (map_status w) e at cp
        ≡ (set_reported uid c (map_status w) e cp, []) =
      unfold change_status in rw (==_false c (pos 0) nonzero, change_status) refl in
    ap (λ (d : ChargePointState). get unset uid d.effective)
      (ensure-put cp_id (recompute at (change_status cp_id uid c (map_status w) e at cp).0).0 s)
    ∙ ap (λ x. get unset uid ((recompute at x.0).0).effective) connector
    ∙ set_reported-shown uid c (map_status w) e at cp honest
    ∙ effective_status-set cp.online cp.station (map_status w) (map_status-set w)

-- Whether a status is read as a yes only where the specification says it: on this action, by this
-- word.
is_said : String → String → CommandStatus → Bool
is_said action word status =
    if is_accepted status
    then word == "Accepted" && not (action == "UnlockConnector")
    else if is_unlocked status
    then word == "Unlocked" && action == "UnlockConnector"
    else true

map_command_status-is_said :
    (action w : String) → is_said action w (map_command_status action w) ≡ true
unfolding map_command_status is_said
map_command_status-is_said action w =
    get-All (λ a table. (w : String) → is_said a w (get unknown_answer w table) ≡ true) [] action
      command_status_map (λ w. unfold get lookup in refl)
      (
        by "ReserveNow" _ (refl, (refl, (refl, (refl, (refl, tt))))),
        (
          by "CancelReservation" _ (refl, (refl, tt)),
          (
            by "RemoteStartTransaction" _ (refl, (refl, tt)),
            (
              by "RemoteStopTransaction" _ (refl, (refl, tt)),
              (
                by "UnlockConnector" _ (refl, (refl, (refl, tt))),
                (by "TriggerMessage" _ (refl, (refl, (refl, tt))), tt),
              ),
            ),
          ),
        ),
      )
      w
  where
    by :
        (a : String) (table : List (String × CommandStatus))
        → All (λ (e : String × CommandStatus). is_said a e.0 e.1 ≡ true) table
        → (w : String) → is_said a w (get unknown_answer w table) ≡ true
    by a table h w = get-All (is_said_on a) unknown_answer w table refl h
      where
        is_said_on : String → String → CommandStatus → Type 0
        is_said_on a k st = is_said a k st ≡ true

is_said-yes :
    (action w : String) (st : CommandStatus)
    → is_said action w st ≡ true
    → (is_accepted st ≡ true → (w ≡ "Accepted") × (action ≢ "UnlockConnector"))
      × (is_unlocked st ≡ true → (w ≡ "Unlocked") × (action ≡ "UnlockConnector"))
unfolding is_said
is_said-yes action w st h =
    let iff = string_eq.beq_iff in
    (
      λ k. ground (arith, iff w "Accepted", iff action "UnlockConnector"),
      λ k. ground (arith, iff w "Unlocked", iff action "UnlockConnector"),
    )

-- An answer counts as accepted only if it says "Accepted", to any command but UnlockConnector, and as
-- unlocked only if it says "Unlocked" to UnlockConnector.
pub map_command_status-yes :
    (action w : String)
    → (is_accepted (map_command_status action w) ≡ true
        → (w ≡ "Accepted") × (action ≢ "UnlockConnector"))
      × (is_unlocked (map_command_status action w) ≡ true
          → (w ≡ "Unlocked") × (action ≡ "UnlockConnector"))
map_command_status-yes action w =
    is_said-yes action w (map_command_status action w) (map_command_status-is_said action w)
