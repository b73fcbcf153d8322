-- ===== src/Prelude/Int.antt =====
-- Go's `int` on a 64-bit platform: an integer between -2^63 and 2^63 - 1. Addition of one wraps.
use Prim.Native.Nat.{ℕ, suc, ◌+◌, ◌≤◌, ◌<◌}
use mathlib.Core.Path.{◌≡◌}
use mathlib.Core.Logic.{◌↔◌, ◌≢◌}
use mathlib.Core.Bool.{Bool, true, false}
use native.Mathlib.Omega.{arith}
use headless_csms.Prelude.Tests.{ltb, eqb, if◌then◌else◌}
use headless_csms.Prelude.Keys.{Eq}

-- `negsuc n` is -(n + 1).
pub data ℤ : Type 0 where
  pos : ℕ → ℤ
  negsuc : ℕ → ℤ

abbrev pub pos_part : ℤ → ℕ
pos_part (pos n) = n
pos_part (negsuc n) = 0

abbrev pub neg_part : ℤ → ℕ
neg_part (pos n) = 0
neg_part (negsuc n) = suc n

infix 50 ◌≤ℤ◌ ◌<ℤ◌
abbrev pub ◌≤ℤ◌ : ℤ → ℤ → Type 0
a ≤ℤ b = pos_part a + neg_part b ≤ pos_part b + neg_part a

abbrev pub ◌<ℤ◌ : ℤ → ℤ → Type 0
a <ℤ b = pos_part a + neg_part b < pos_part b + neg_part a

abbrev pub ltb_ℤ : ℤ → ℤ → Bool
ltb_ℤ a b = ltb (pos_part a + neg_part b) (pos_part b + neg_part a)

abbrev pub eqb_ℤ : ℤ → ℤ → Bool
eqb_ℤ (pos a) (pos b) = eqb a b
eqb_ℤ (negsuc a) (negsuc b) = eqb a b
eqb_ℤ (pos a) (negsuc b) = false
eqb_ℤ (negsuc a) (pos b) = false

pub eqb_ℤ_iff : (a b : ℤ) → (eqb_ℤ a b ≡ true) ↔ (a ≡ b)
eqb_ℤ_iff (pos a) (pos b) = (λ h. ground arith, λ h. ground arith)
eqb_ℤ_iff (negsuc a) (negsuc b) = (λ h. ground arith, λ h. ground arith)
eqb_ℤ_iff (pos a) (negsuc b) = (λ h. cc, λ h. cc)
eqb_ℤ_iff (negsuc a) (pos b) = (λ h. cc, λ h. cc)

instance abbrev pub int_eq : Eq ℤ
int_eq = record { beq = eqb_ℤ; beq_iff = eqb_ℤ_iff }

-- math.MaxInt64, and the magnitude of math.MinInt64 less one.
abbrev pub max_int : ℕ
max_int = 9223372036854775807

-- `n + 1` on an int, with two's complement wrap-around.
unfoldable pub succ : ℤ → ℤ
succ (pos n) = if eqb n max_int then negsuc max_int else pos (suc n)
succ (negsuc n) = pred_mag n
  where
    pred_mag : ℕ → ℤ
    pred_mag ℕ.zero = pos 0
    pred_mag (suc m) = negsuc m

-- Go's built-in `max`.
unfoldable pub max : ℤ → ℤ → ℤ
max a b = if ltb_ℤ a b then b else a

pub lt-succ : (n : ℤ) → n ≢ pos max_int → n <ℤ succ n
unfolding succ
lt-succ (pos n) h = ground arith
lt-succ (negsuc ℕ.zero) h = omega arith
lt-succ (negsuc (suc n)) h = omega arith

pub le_max_left : (a b : ℤ) → a ≤ℤ max a b
unfolding max
le_max_left a b = ground arith

pub le_max_right : (a b : ℤ) → b ≤ℤ max a b
unfolding max
le_max_right a b = ground arith
