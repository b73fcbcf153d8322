-- ===== src/Core/ChargePoint/Effective.antt =====
-- Which status an EVSE shows. About `recompute` of internal/core/service.go and status.go.
use headless_csms.Prelude.{
  ◌≡◌, refl, sym, ap, ◌∙◌, subst, subst₂, inl, inr, ◌≢◌, String, true, List, [], ◌∷◌, All,
  All-append, Bool-cases, get, contains, get-insert, arith, string_eq, if◌then◌else◌, ◌==◌, ==_refl,
  ==_cases,
}
use headless_csms.Clock.{Time}
use headless_csms.Core.Status.{EvseStatus, unset, status_eq, eq_status_iff, effective_status}
use headless_csms.Core.Event.{Event, evse_status_changed}
use headless_csms.Core.Types.{ChargePointState}
use headless_csms.Core.ChargePoint.{wanted, recompute_one, recompute_from, recompute}

-- The loop changes the statuses that are shown, and nothing else.
pub recompute_from_frame :
    (at : Time) (cp : ChargePointState) (uids : List String)
    → (recompute_from at cp uids).0
      ≡ record cp { effective = ((recompute_from at cp uids).0).effective }
unfolding recompute_from
recompute_from_frame at cp [] = refl
recompute_from_frame at cp (x ∷ xs) =
    ground (arith, recompute_from_frame at (recompute_one at cp x).0 xs)

-- What the loop leaves as an EVSE's status.
pub recompute_from_lem :
    (at : Time) (cp : ChargePointState) (uids : List String) (u : String)
    → get unset u ((recompute_from at cp uids).0).effective
      ≡ (if contains u uids then wanted cp u else get unset u cp.effective)
unfolding recompute_from contains wanted
recompute_from_lem at cp [] u = refl
recompute_from_lem at cp (x ∷ xs) u = ground (
  arith,
  string_eq.beq_iff x u,
  eq_status_iff (get unset x cp.effective) (wanted cp x),
  get-insert unset x u (wanted cp x) cp.effective,
  recompute_from_lem at (recompute_one at cp x).0 xs u,
)

recompute_one-same :
    (at : Time) (cp : ChargePointState) (x : String)
    → get unset x cp.effective ≡ wanted cp x
    → recompute_one at cp x ≡ (cp, [])
unfolding recompute_one
recompute_one-same at cp x h =
    ground (arith, eq_status_iff (get unset x cp.effective) (wanted cp x))

-- What holds of each event of the loop: it reports a move of one EVSE to the status it should show.
pub record IsChange (at : Time) (id : String) (want : String → EvseStatus) (e : Event)
    : Type 0 where
  pub kind : e.kind ≡ evse_status_changed
  pub moved : e.from ≢ e.to
  pub reached : e.to ≡ want e.evse_uid
  pub station : e.charge_point_id ≡ id
  pub stamp : e.at ≡ at

recompute_one-IsChange :
    (at : Time) (cp : ChargePointState) (x : String)
    → All (IsChange at cp.id (wanted cp)) (recompute_one at cp x).1
unfolding recompute_one
recompute_one-IsChange at cp x = elim (==_cases (get unset x cp.effective) (wanted cp x)) [
  | inl t ↦ rw (t.0, recompute_one) tt
  | inr f ↦
      rw (f.0, recompute_one)
        (record { kind = refl; moved = f.1; reached = refl; station = refl; stamp = refl }, tt)
]

recompute_one-wanted :
    (at : Time) (cp : ChargePointState) (x : String)
    → ((recompute_one at cp x).0.id ≡ cp.id) × (wanted (recompute_one at cp x).0 ≡ wanted cp)
unfolding recompute_one
recompute_one-wanted at cp x = elim (Bool-cases (get unset x cp.effective == wanted cp x)) [
  | inl t ↦ rw (t, recompute_one) (refl, refl)
  | inr f ↦ rw (f, recompute_one) (refl, unfold wanted in refl)
]

recompute_from-IsChange :
    (at : Time) (cp : ChargePointState) (uids : List String)
    → All (IsChange at cp.id (wanted cp)) (recompute_from at cp uids).1
unfolding recompute_from
recompute_from-IsChange at cp [] = tt
recompute_from-IsChange at cp (x ∷ xs) =
    let (same_id, same) = recompute_one-wanted at cp x in
    All-append (IsChange at cp.id (wanted cp)) (recompute_one at cp x).1
      (recompute_from at (recompute_one at cp x).0 xs).1 (recompute_one-IsChange at cp x)
      (subst₂ (λ i w. All (IsChange at i w) (recompute_from at (recompute_one at cp x).0 xs).1)
        same_id same (recompute_from-IsChange at (recompute_one at cp x).0 xs))

-- If every EVSE of the loop shows what it should, the loop does nothing.
pub recompute_from_quiet :
    (at : Time) (cp : ChargePointState) (uids : List String)
    → ((u : String) → contains u uids ≡ true → get unset u cp.effective ≡ wanted cp u)
    → recompute_from at cp uids ≡ (cp, [])
unfolding recompute_from contains
recompute_from_quiet at cp [] h = refl
recompute_from_quiet at cp (x ∷ xs) h =
    rw (recompute_one-same at cp x (h x (rw (==_refl x) refl)))
      (recompute_from_quiet at cp xs (λ u k. h u (ground arith)))

-- After `recompute` every EVSE of the station shows its effective status, all else about the station
-- is as it was, and each event reports one EVSE that moved to another status, the one it now shows.
pub recompute_lem :
    (at : Time) (cp : ChargePointState)
    → ((u : String)
        → contains u cp.order ≡ true
        → get unset u ((recompute at cp).0).effective
          ≡ effective_status cp.online cp.station (get unset u cp.reported))
      × ((recompute at cp).0 ≡ record cp { effective = ((recompute at cp).0).effective })
      × All (IsChange at cp.id (wanted cp)) (recompute at cp).1
unfolding recompute wanted
recompute_lem at cp = (
  λ u h. recompute_from_lem at cp cp.order u ∙ rw h refl,
  recompute_from_frame at cp cp.order,
  recompute_from-IsChange at cp cp.order,
)

-- Every EVSE of the station shows its effective status.
abbrev pub IsCurrent : ChargePointState → Type 0
IsCurrent cp = (u : String) → contains u cp.order ≡ true → get unset u cp.effective ≡ wanted cp u

pub recompute-IsCurrent : (at : Time) (cp : ChargePointState) → IsCurrent (recompute at cp).0
unfolding wanted
recompute-IsCurrent at cp u h =
    let (shows, frame, _) = recompute_lem at cp in
    let order = ap (λ (c : ChargePointState). c.order) frame in
    shows u (subst (λ us. contains u us ≡ true) order h)
    ∙ sym (ap (λ (c : ChargePointState). wanted c u) frame)

pub recompute_quiet :
    (at : Time) (cp : ChargePointState) → IsCurrent cp → recompute at cp ≡ (cp, [])
unfolding recompute
recompute_quiet at cp h = recompute_from_quiet at cp cp.order h

-- A second `recompute` finds nothing to change and reports nothing.
pub recompute_idem :
    (at later : Time) (cp : ChargePointState)
    → recompute later (recompute at cp).0 ≡ ((recompute at cp).0, [])
recompute_idem at later cp = recompute_quiet later (recompute at cp).0 (recompute-IsCurrent at cp)
