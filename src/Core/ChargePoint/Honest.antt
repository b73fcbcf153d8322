-- ===== src/Core/ChargePoint/Honest.antt =====
-- What an EVSE may show between two recomputations. About internal/core/service.go.
use headless_csms.Prelude.{
  ◌≡◌, sym, ap, subst, ◌⊎◌, inl, inr, String, true, List, [], ◌∷◌, ◌++◌, some, ℤ, Bool-cases,
  lookup, get, contains, contains-append, contains_last, lookup-insert, lookup-insert-some, arith,
  string_eq, ◌==◌,
}
use headless_csms.Clock.{Time}
use headless_csms.Core.Status.{EvseStatus, unknown}
use headless_csms.Core.Types.{ChargePointState, new_charge_point}
use headless_csms.Core.ChargePoint.{
  add_evse, wanted, recompute_one, recompute_from, recompute, is_known,
}
use headless_csms.Core.ChargePoint.Effective.{recompute_lem, recompute-IsCurrent}

abbrev pub IsCovered : ChargePointState → Type 0
IsCovered cp =
    (u : String) (st : EvseStatus) → lookup u cp.effective ≡ some st → contains u cp.order ≡ true

-- Each status that is shown is UNKNOWN or what the station's last messages amount to.
pub record IsHonest (cp : ChargePointState) : Type 0 where
  pub covered : IsCovered cp
  pub honest :
      (u : String) (st : EvseStatus)
      → lookup u cp.effective ≡ some st
      → (st ≡ unknown) ⊎ (st ≡ wanted cp u)

pub new_charge_point-IsHonest : (id : String) → IsHonest (new_charge_point id)
unfolding new_charge_point lookup
new_charge_point-IsHonest id = record {
  covered = λ u st h. absurd (cc);
  honest = λ u st h. absurd (cc);
}

pub add_evse-IsHonest :
    (uid : String) (c : ℤ) (cp : ChargePointState) → IsHonest cp → IsHonest (add_evse uid c cp)
unfolding add_evse
add_evse-IsHonest uid c cp v = elim (Bool-cases (is_known (lookup uid cp.effective))) [
  | inl t ↦ rw (t, add_evse) v
  | inr f ↦
      rw (f, add_evse)
        (record {
          covered = λ u st h. elim (lookup-insert-some uid u unknown cp.effective h) [
            | inl (same, _) ↦
                subst (λ w. contains w (cp.order ++ uid ∷ []) ≡ true) same
                  (contains_last uid cp.order)
            | inr old ↦ contains-append u cp.order (uid ∷ []) (v.covered u st old)
          ];
          honest = λ u st h. elim (lookup-insert-some uid u unknown cp.effective h) [
            | inl (_, same) ↦ inl (sym same)
            | inr old ↦ unfold wanted in v.honest u st old
          ];
        })
]

recompute_one_keys :
    (at : Time) (cp : ChargePointState) (x u : String) (st : EvseStatus)
    → lookup u ((recompute_one at cp x).0).effective ≡ some st
    → ((x == u) ≡ true) ⊎ (lookup u cp.effective ≡ some st)
unfolding recompute_one
recompute_one_keys at cp x u st h =
    ground (arith, string_eq.beq_iff x u, lookup-insert x u (wanted cp x) cp.effective)

recompute_from_keys :
    (at : Time) (cp : ChargePointState) (uids : List String) (u : String) (st : EvseStatus)
    → lookup u ((recompute_from at cp uids).0).effective ≡ some st
    → (contains u uids ≡ true) ⊎ ((old : EvseStatus) × (lookup u cp.effective ≡ some old))
unfolding recompute_from contains
recompute_from_keys at cp [] u st h = inr (st, h)
recompute_from_keys at cp (x ∷ xs) u st h =
    elim (recompute_from_keys at (recompute_one at cp x).0 xs u st h) [
      | inl k ↦ inl (ground arith)
      | inr (old, e) ↦ elim (recompute_one_keys at cp x u old e) [
        | inl t ↦ inl (ground arith)
        | inr f ↦ inr (old, f)
      ]
    ]

recompute-IsCovered :
    (at : Time) (cp : ChargePointState) → IsCovered cp → IsCovered (recompute at cp).0
unfolding recompute
recompute-IsCovered at cp v u st h =
    subst (λ us. contains u us ≡ true)
      (sym (ap (λ (c : ChargePointState). c.order) (recompute_lem at cp).1))
      (elim (recompute_from_keys at cp cp.order u st h) [ inl k ↦ k | inr (old, e) ↦ v u old e ])

-- After `recompute` a station is honest whatever it showed before.
pub recompute-IsHonest :
    (at : Time) (cp : ChargePointState) → IsCovered cp → IsHonest (recompute at cp).0
unfolding get
recompute-IsHonest at cp v = record {
  covered = covers;
  honest = λ u st h. inr (ground (arith, recompute-IsCurrent at cp u (covers u st h), h));
}
  where
    covers : IsCovered (recompute at cp).0
    covers = recompute-IsCovered at cp v
