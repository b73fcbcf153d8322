-- ===== src/Prelude/Keys.antt =====
-- Equality tests as an interface: what a Go map or a `==` in the source compares by.
use Prim.Native.Nat.{ℕ}
use Prim.Native.String.{String}
use mathlib.Core.Path.{◌≡◌, refl}
use mathlib.Core.Logic.{◌↔◌, ◌⊎◌, inl, inr}
use mathlib.Core.Bool.{Bool, true, false}
use text.Mathlib.Text.{◌==◌ as str_eq}
use text.Mathlib.TextEquality.{eq_iff}
use headless_csms.Prelude.Tests.{eqb, eqb_iff, Bool-cases}

pub record Eq {ℓ} (K : Type ℓ) : Type ℓ where
  pub beq : K → K → Bool
  pub beq_iff : (x y : K) → (beq x y ≡ true) ↔ (x ≡ y)

instance abbrev pub string_eq : Eq String
string_eq = record { beq_iff = eq_iff; beq = str_eq }

instance abbrev pub nat_eq : Eq ℕ
nat_eq = record { beq_iff = eqb_iff; beq = eqb }

infix 50 ◌==◌
abbrev pub ◌==◌ {κ} : {K : Type κ} ⦃keys : Eq K⦄ → K → K → Bool
◌==◌ ⦃keys⦄ x y = keys.beq x y

module _ {ℓ} {A : Type ℓ} ⦃e : Eq A⦄ where
  pub ==_refl : (a : A) → (a == a) ≡ true
  ==_refl a = (e.beq_iff a a).1 refl

  pub ==_sound : (a b : A) → (a == b) ≡ true → a ≡ b
  ==_sound a b = (e.beq_iff a b).0

  -- A test either finds the two equal, or proves them different.
  pub ==_cases : (a b : A) → (((a == b) ≡ true) × (a ≡ b)) ⊎ (((a == b) ≡ false) × ¬ (a ≡ b))
  ==_cases a b = elim (Bool-cases (a == b)) [
    | inl t ↦ inl (t, ==_sound a b t)
    | inr f ↦ inr (f, λ p. cc ((e.beq_iff a b).1 p))
  ]

  pub ==_false : (a b : A) → ¬ (a ≡ b) → (a == b) ≡ false
  ==_false a b n = elim (==_cases a b) [ inl t ↦ absurd (n t.1) | inr f ↦ f.0 ]
