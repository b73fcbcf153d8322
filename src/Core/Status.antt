-- ===== src/Core/Status.antt =====
-- internal/core/status.go. `unset` is the empty string, which a connector that was never reported
-- has.
use headless_csms.Prelude.{◌≡◌, ◌↔◌, Bool, true, false, if◌then◌else◌, Eq, arith, refl, subst}

pub data EvseStatus : Type 0 where
  available blocked charging inoperative out_of_order planned removed reserved unknown : EvseStatus
  unset : EvseStatus

pub EvseStatus-discrete : Discrete EvseStatus
EvseStatus-discrete = hlevel

unfoldable pub eq_status : EvseStatus → EvseStatus → Bool
eq_status available available = true
eq_status blocked blocked = true
eq_status charging charging = true
eq_status inoperative inoperative = true
eq_status out_of_order out_of_order = true
eq_status planned planned = true
eq_status removed removed = true
eq_status reserved reserved = true
eq_status unknown unknown = true
eq_status unset unset = true
eq_status _ _ = false

eq_status_refl : (s : EvseStatus) → eq_status s s ≡ true
unfolding eq_status
eq_status_refl available = refl
eq_status_refl _ = refl

eq_status_sound : (s t : EvseStatus) → eq_status s t ≡ true → s ≡ t
unfolding eq_status
eq_status_sound s t h = ground arith

pub eq_status_iff : (s t : EvseStatus) → (eq_status s t ≡ true) ↔ (s ≡ t)
eq_status_iff s t =
    (eq_status_sound s t, λ p. subst (λ u. eq_status s u ≡ true) p (eq_status_refl s))

instance abbrev pub status_eq : Eq EvseStatus
status_eq = record { beq = eq_status; beq_iff = eq_status_iff }

-- The statuses with which a station as a whole overrides its connectors.
abbrev pub overrides : EvseStatus → Bool
overrides out_of_order = true
overrides inoperative = true
overrides _ = false

abbrev pub reported_or_unknown : EvseStatus → EvseStatus
reported_or_unknown unset = unknown
reported_or_unknown s = s

unfoldable pub effective_status : Bool → EvseStatus → EvseStatus → EvseStatus
effective_status false station connector = unknown
effective_status true station connector =
    if overrides station then station else reported_or_unknown connector
