-- ===== src/Core/Steps/Statuses.antt =====
-- What every interleaving keeps of the statuses shown. About internal/core.
use headless_csms.Prelude.{
  ◌≡◌, refl, sym, ap, subst, ◌⊎◌, inl, inr, String, true, false, not, List, [], ◌∷◌, Option, none,
  some, ℤ, pos, Option-cases, Bool-cases, lookup, get, lookup-insert-some, arith, string_eq, int_eq,
  ◌==◌,
}
use headless_csms.Clock.{Time}
use headless_csms.Core.Status.{EvseStatus, unknown, overrides, effective_status, status_eq}
use headless_csms.Core.Types.{
  BootInfo, Transaction, is_active, ChargePointState, Service, TransactionStart,
}
use headless_csms.Core.ChargePoint.{add_evse, wanted}
use headless_csms.Core.ChargePoint.Honest.{
  IsCovered, IsHonest, new_charge_point-IsHonest, add_evse-IsHonest, recompute-IsHonest,
}
use headless_csms.Core.Service.{
  or_new, ensure, put, evse_uid, connected_locked, disconnected_locked, booted_locked, seen,
  change_status, set_station, set_connector_status_locked, record_meter_values_locked,
}
use headless_csms.Core.Persist.Frame.{persist_or_log_frame}
use headless_csms.Core.Reservations.{
  begin_locked, forget, activate_locked, end_locked, end_by_id_locked, orphan_locked, expire_locked,
}
use headless_csms.Core.Transactions.{settle, start_locked, stop_locked}
use headless_csms.Core.Steps.{
  Section, connects, disconnects, boots, sees, reports, meters, begins, forgets, activates, ends,
  orphans, expires, takes_transaction_id, takes_remote_start_id, starts, stops, persists, publishes,
  apply, run,
}

-- Every station that core knows is honest about its EVSEs.
abbrev pub AllHonest : List (String × ChargePointState) → Type 0
AllHonest cps = (id : String) (cp : ChargePointState) → lookup id cps ≡ some cp → IsHonest cp

or_new-IsHonest :
    (id : String) (o : Option ChargePointState)
    → ((cp : ChargePointState) → o ≡ some cp → IsHonest cp)
    → IsHonest (or_new id o)
or_new-IsHonest id none h = new_charge_point-IsHonest id
or_new-IsHonest id (some cp) h = h cp refl

-- The fields that have no part in the statuses.
touch-IsHonest :
    (cp : ChargePointState) (boot : BootInfo) (at : Time) (txs : List (String × Transaction))
    → IsHonest cp
    → IsHonest (record cp { boot = boot; last_seen = at; transactions = txs })
touch-IsHonest cp boot at txs v = record { covered = v.covered; honest = unfold wanted in v.honest }

change_status-IsCovered :
    (cp_id uid : String) (c : ℤ) (st : EvseStatus) (e : String) (at : Time) (cp : ChargePointState)
    → IsHonest cp
    → IsCovered (change_status cp_id uid c st e at cp).0
unfolding change_status
change_status-IsCovered cp_id uid c st e at cp v = elim (Bool-cases (c == pos 0)) [
  | inl t ↦ elim (Bool-cases (cp.station == st)) [
    | inl y ↦ rw (t, change_status, y, set_station) v.covered
    | inr n ↦ rw (t, change_status, n, set_station) v.covered
  ]
  | inr f ↦ rw (f, change_status) (add_evse-IsHonest uid c cp v).covered
]

module _ (s : Service) (v : AllHonest s.cps) where
  ensure-IsHonest : (id : String) → IsHonest (ensure id s)
  unfolding ensure
  ensure-IsHonest id = or_new-IsHonest id (lookup id s.cps) (v id)

  put-AllHonest : (id : String) (cp : ChargePointState) → IsHonest cp → AllHonest (put id cp s).cps
  unfolding put
  put-AllHonest id cp h j q e = elim (lookup-insert-some id j cp s.cps e) [
    | inl (_, same) ↦ subst IsHonest same h
    | inr old ↦ v j q old
  ]

  added-IsHonest : (id uid : String) (c : ℤ) → IsHonest (add_evse uid c (ensure id s))
  added-IsHonest id uid c = add_evse-IsHonest uid c (ensure id s) (ensure-IsHonest id)

  disconnected-AllHonest :
      (cp reason : String) (at : Time) → AllHonest (disconnected_locked cp reason at s).0.cps
  unfolding disconnected_locked
  disconnected-AllHonest cp reason at = elim (Bool-cases (not (ensure cp s).online)) [
    | inl t ↦ rw (t, disconnected_locked) (put-AllHonest cp (ensure cp s) (ensure-IsHonest cp))
    | inr f ↦
        rw (f, disconnected_locked)
          (put-AllHonest cp _ (recompute-IsHonest at _ (ensure-IsHonest cp).covered))
  ]

  reports-AllHonest :
      (cp : String) (c : ℤ) (st : EvseStatus) (e : String) (at : Time)
      → AllHonest (set_connector_status_locked cp c st e at s).0.cps
  unfolding set_connector_status_locked
  reports-AllHonest cp c st e at = put-AllHonest cp _ (
      recompute-IsHonest at _ (
        change_status-IsCovered cp (evse_uid s.cfg cp c) c st e at _ (
          touch-IsHonest (ensure cp s) (ensure cp s).boot at (ensure cp s).transactions
            (ensure-IsHonest cp))))

  stops-AllHonest :
      (cp id : String) (meter : ℤ) (reason : String) (at last : Time)
      → AllHonest (stop_locked cp id meter reason at last s).0.cps
  unfolding stop_locked
  stops-AllHonest cp id meter reason at last =
      elim (Option-cases (lookup id (ensure cp s).transactions)) [
        | inl e ↦ rw (e, stop_locked) (put-AllHonest cp (ensure cp s) (ensure-IsHonest cp))
        | inr (tx, e) ↦ elim (Bool-cases (not (is_active tx))) [
          | inl t ↦ rw (e, stop_locked, t) (put-AllHonest cp (ensure cp s) (ensure-IsHonest cp))
          | inr f ↦
              rw (e, stop_locked, f)
                (put-AllHonest cp _
                  (touch-IsHonest (ensure cp s) (ensure cp s).boot last _ (ensure-IsHonest cp)))
        ]
      ]

settle-cps :
    (cp uid : String) (t : TransactionStart) (now : Time) (s : Service)
    → (settle cp uid t now s).service.cps ≡ s.cps
unfolding settle end_locked
settle-cps cp uid t now s = ground arith

starts-AllHonest :
    (cp : String) (t : TransactionStart) (now ended last : Time) (s : Service)
    → AllHonest s.cps
    → AllHonest (start_locked cp t now ended last s).1.cps
unfolding start_locked
starts-AllHonest cp t now ended last s v =
    let uid = evse_uid s.cfg cp t.connector_id in
    let done : Service = (settle cp uid t ended s).service in
    let keeps : AllHonest done.cps = subst AllHonest (sym (settle-cps cp uid t ended s)) v in
    put-AllHonest done keeps cp _ (
      touch-IsHonest (add_evse uid t.connector_id (ensure cp s)) _ last _
        (added-IsHonest s v cp uid t.connector_id))

keep-AllHonest : (s t : Service) → t.cps ≡ s.cps → AllHonest s.cps → AllHonest t.cps
keep-AllHonest s t e v = subst AllHonest (sym e) v

apply-AllHonest : (c : Section) (s : Service) → AllHonest s.cps → AllHonest (apply c s).cps
unfolding apply
apply-AllHonest (connects cp at) s v =
    unfold connected_locked in
    put-AllHonest s v cp _ (recompute-IsHonest at _ (ensure-IsHonest s v cp).covered)
apply-AllHonest (disconnects cp reason at) s v = disconnected-AllHonest s v cp reason at
apply-AllHonest (boots cp info at) s v =
    unfold booted_locked in
    put-AllHonest s v cp _
      (touch-IsHonest (ensure cp s) _ at (ensure cp s).transactions (ensure-IsHonest s v cp))
apply-AllHonest (sees cp at) s v =
    unfold seen in
    put-AllHonest s v cp _ (
      touch-IsHonest (ensure cp s) (ensure cp s).boot at (ensure cp s).transactions
        (ensure-IsHonest s v cp))
apply-AllHonest (reports cp c st e at) s v = reports-AllHonest s v cp c st e at
apply-AllHonest (meters cp c at) s v =
    unfold record_meter_values_locked in
    put-AllHonest s v cp _ (
      touch-IsHonest (add_evse (evse_uid s.cfg cp c) c (ensure cp s)) _ at _
        (added-IsHonest s v cp (evse_uid s.cfg cp c) c))
apply-AllHonest (begins r now) s v =
    keep-AllHonest s (apply (begins r now) s) (unfold begin_locked in ground arith) v
apply-AllHonest (forgets id) s v = unfold forget in v
apply-AllHonest (activates id now) s v =
    keep-AllHonest s (apply (activates id now) s) (unfold activate_locked in ground arith) v
apply-AllHonest (ends id reason now) s v =
    keep-AllHonest s (apply (ends id reason now) s)
      (unfold end_by_id_locked end_locked in ground arith) v
apply-AllHonest (orphans id) s v =
    keep-AllHonest s (apply (orphans id) s) (unfold orphan_locked in ground arith) v
apply-AllHonest (expires id t now) s v =
    keep-AllHonest s (apply (expires id t now) s) (unfold expire_locked end_locked in ground arith)
      v
apply-AllHonest takes_transaction_id s v = v
apply-AllHonest takes_remote_start_id s v = v
apply-AllHonest (starts cp t now ended last) s v = starts-AllHonest cp t now ended last s v
apply-AllHonest (stops cp id meter reason at last) s v =
    stops-AllHonest s v cp id meter reason at last
apply-AllHonest (persists o) s v =
    subst AllHonest (sym (ap (λ (t : Service). t.cps) (persist_or_log_frame o s))) v
apply-AllHonest (publishes e) s v = v

run-AllHonest : (cs : List Section) (s : Service) → AllHonest s.cps → AllHonest (run cs s).cps
unfolding run
run-AllHonest [] s v = v
run-AllHonest (c ∷ cs) s v = run-AllHonest cs (apply c s) (apply-AllHonest c s v)

-- What may be shown, by what is known of the station and of the connector.
abbrev pub MayShow : ChargePointState → String → EvseStatus → Type 0
MayShow cp u st =
    (st ≡ unknown)
    ⊎ ((cp.online ≡ true) × (overrides cp.station ≡ true) × (st ≡ cp.station))
    ⊎ ((cp.online ≡ true) × (overrides cp.station ≡ false) × (lookup u cp.reported ≡ some st))

wanted-MayShow :
    (cp : ChargePointState) (u : String) (st : EvseStatus) → st ≡ wanted cp u → MayShow cp u st
unfolding wanted effective_status get
wanted-MayShow cp u st h = ground arith

-- In every interleaving of the sections of core, from a state whose stations are honest, an EVSE
-- shows UNKNOWN, or its station is online and it shows the status with which the station overrides
-- its connectors, or, where the station does not override them, the status last reported for it.
-- So no EVSE of a station that is offline, faulted or out of service is ever shown as usable.
pub run-MayShow :
    (cs : List Section) (s : Service) (id u : String) (cp : ChargePointState) (st : EvseStatus)
    → AllHonest s.cps
    → lookup id (run cs s).cps ≡ some cp
    → lookup u cp.effective ≡ some st
    → MayShow cp u st
run-MayShow cs s id u cp st v e f = elim ((run-AllHonest cs s v id cp e).honest u st f) [
  | inl is_unknown ↦ inl is_unknown
  | inr is_wanted ↦ wanted-MayShow cp u st is_wanted
]
