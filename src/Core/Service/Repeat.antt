-- ===== src/Core/Service/Repeat.antt =====
-- A StatusNotification that says nothing new. About internal/core/service.go.
use headless_csms.Prelude.{
  ◌≡◌, refl, sym, ap, ◌∙◌, subst, inl, inr, String, true, List, [], ◌∷◌, ℤ, pos, Bool-cases, lookup,
  get, insert, lookup-insert, lookup-insert_self, get-insert, arith, string_eq, int_eq, ◌==◌, ◌++◌,
  ==_cases,
}
use headless_csms.Clock.{Time}
use headless_csms.Core.Status.{
  EvseStatus, unknown, unset, status_eq, effective_status, eq_status_iff,
}
use headless_csms.Core.Types.{ChargePointState, Service}
use headless_csms.Core.ChargePoint.{
  add_evse, wanted, recompute_one, recompute_from, recompute, is_known,
}
use headless_csms.Core.ChargePoint.Effective.{
  IsCurrent, recompute_lem, recompute-IsCurrent, recompute_quiet,
}
use headless_csms.Core.Service.{
  ensure, put, evse_uid, set_station, set_reported, change_status, set_connector_status_locked,
}

abbrev pub Knows : String → ChargePointState → Type 0
Knows u cp = is_known (lookup u cp.effective) ≡ true

recompute_one-Knows :
    (at : Time) (cp : ChargePointState) (x u : String)
    → Knows u cp
    → Knows u (recompute_one at cp x).0
unfolding recompute_one
recompute_one-Knows at cp x u h = ground (arith, lookup-insert x u (wanted cp x) cp.effective)

recompute_from-Knows :
    (at : Time) (cp : ChargePointState) (uids : List String) (u : String)
    → Knows u cp
    → Knows u (recompute_from at cp uids).0
unfolding recompute_from
recompute_from-Knows at cp [] u h = h
recompute_from-Knows at cp (x ∷ xs) u h =
    recompute_from-Knows at (recompute_one at cp x).0 xs u (recompute_one-Knows at cp x u h)

pub add_evse-Knows : (uid : String) (c : ℤ) (cp : ChargePointState) → Knows uid (add_evse uid c cp)
unfolding add_evse
add_evse-Knows uid c cp = ground (arith, lookup-insert_self uid unknown cp.effective)

-- The station, once it has taken in a StatusNotification and recomputed.
abbrev taken_in :
    String → String → ℤ → EvseStatus → String → Time → ChargePointState → ChargePointState
taken_in cp_id uid c st e at cp = (recompute at (change_status cp_id uid c st e at cp).0).0

set_station-station :
    (cp_id : String) (st : EvseStatus) (e : String) (at : Time) (cp : ChargePointState)
    → (set_station cp_id st e at cp).0.station ≡ st
unfolding set_station
set_station-station cp_id st e at cp = ground (arith, eq_status_iff cp.station st)

-- The same about the station as a whole changes nothing and reports nothing.
again_station :
    (cp_id : String) (st : EvseStatus) (e : String) (at later : Time) (cp : ChargePointState)
    → let cp' = record ((recompute at (set_station cp_id st e at cp).0).0) { last_seen = later } in
      (set_station cp_id st e later cp' ≡ (cp', [])) × IsCurrent cp'
again_station cp_id st e at later cp =
    let x = (set_station cp_id st e at cp).0 in
    let same : (recompute at x).0.station ≡ st =
      ap (λ (c : ChargePointState). c.station) (recompute_lem at x).1
      ∙ set_station-station cp_id st e at cp in
    (
      unfold set_station in (ground (arith, eq_status_iff (recompute at x).0.station st, same)),
      unfold wanted in (recompute-IsCurrent at x),
    )

-- The same about a connector leaves what the station should show as it is.
again_connector :
    (uid : String) (c : ℤ) (st : EvseStatus) (e : String) (at later : Time) (cp : ChargePointState)
    → let cp' = record ((recompute at (set_reported uid c st e cp)).0) { last_seen = later } in
      IsCurrent (set_reported uid c st e cp')
again_connector uid c st e at later cp = subst IsCurrent (sym again) told
  where
    x : ChargePointState
    x = set_reported uid c st e cp

    y : ChargePointState
    y = record ((recompute at x).0) { last_seen = later }

    known : Knows uid y
    known =
        unfold recompute set_reported in
        (recompute_from-Knows at x x.order uid (unfold set_reported in add_evse-Knows uid c cp))

    reported : get unset uid y.reported ≡ st
    reported =
        ap (λ (d : ChargePointState). get unset uid d.reported) (recompute_lem at x).1
        ∙ unfold set_reported in
          ground (
            arith,
            string_eq.beq_iff uid uid,
            get-insert unset uid uid st (add_evse uid c cp).reported,
          )

    same : add_evse uid c y ≡ y
    same = unfold add_evse in ground (arith, known)

    again :
        set_reported uid c st e y
        ≡ record y { reported = insert uid st y.reported; error_code = insert uid e y.error_code }
    again =
        unfold set_reported in
        ap
          (λ (d : ChargePointState). record d {
            reported = insert uid st d.reported;
            error_code = insert uid e d.error_code;
          })
          same

    current : IsCurrent y
    current = unfold wanted in (recompute-IsCurrent at x)

    unchanged : (u : String) → get unset u (insert uid st y.reported) ≡ get unset u y.reported
    unchanged u = get-insert unset uid u st y.reported ∙ elim (==_cases uid u) [
      | inl t ↦ rw t.0 (sym reported ∙ ap (λ v. get unset v y.reported) t.1)
      | inr f ↦ rw f.0 refl
    ]

    told :
        IsCurrent
          (record y { reported = insert uid st y.reported; error_code = insert uid e y.error_code })
    told u h =
        current u h ∙ unfold wanted in ap (effective_status y.online y.station) (sym (unchanged u))

again_change :
    (cp_id uid : String) (c : ℤ) (st : EvseStatus) (e : String) (at later : Time)
    (cp : ChargePointState)
    → let y = record ((recompute at (change_status cp_id uid c st e at cp).0).0) {
      last_seen = later;
    } in
      ((change_status cp_id uid c st e later y).1 ≡ [])
      × IsCurrent (change_status cp_id uid c st e later y).0
unfolding change_status
again_change cp_id uid c st e at later cp = elim (Bool-cases (c == pos 0)) [
  | inl t ↦
      rw (t, change_status)
        (let (same, current) = again_station cp_id st e at later cp in
          (ap (λ r. r.1) same, subst (λ r. IsCurrent r.0) (sym same) current))
  | inr f ↦ rw (f, change_status) (refl, again_connector uid c st e at later cp)
]

pub ensure-put : (id : String) (cp : ChargePointState) (s : Service) → ensure id (put id cp s) ≡ cp
unfolding ensure put
ensure-put id cp s = rw (lookup-insert_self id cp s.cps) refl

-- The same StatusNotification again publishes nothing, whenever it arrives.
pub set_connector_status_locked_repeat :
    (cp_id : String) (c : ℤ) (st : EvseStatus) (e : String) (at later : Time) (s : Service)
    → (set_connector_status_locked cp_id c st e later
        (set_connector_status_locked cp_id c st e at s).0).1
      ≡ []
unfolding set_connector_status_locked
set_connector_status_locked_repeat cp_id c st e at later s =
    let uid = evse_uid s.cfg cp_id c in
    let x = (change_status cp_id uid c st e at (record (ensure cp_id s) { last_seen = at })).0 in
    let cp' = (recompute at x).0 in
    let (quiet, current) =
      again_change cp_id uid c st e at later (record (ensure cp_id s) { last_seen = at }) in
    subst
      (λ d.
        let r = change_status cp_id uid c st e later (record d { last_seen = later }) in
        r.1 ++ (recompute later r.0).1 ≡ [])
      (sym (ensure-put cp_id cp' s))
      (rw (quiet) (
        ap (λ r. r.1)
          (recompute_quiet later
            (change_status cp_id uid c st e later (record cp' { last_seen = later })).0 current)))
