-- ===== src/Prelude/Lists.antt =====
-- Lists over the native numbers, and predicates on their elements.
use Prim.Native.Nat.{ℕ, zero, suc, ◌+◌}
use mathlib.Core.Path.{◌≡◌, refl}
use mathlib.Core.Bool.{Bool, true, false, ◌||◌}
use headless_csms.Prelude.Keys.{Eq, ◌==◌, ==_refl}
use mathlib.Core.List.{List, [], ◌∷◌, ◌++◌}
use native.Mathlib.Omega.{arith}

module _ {ℓ} {A : Type ℓ} where
  abbrev pub length : List A → ℕ
  length [] = 0
  length (x ∷ xs) = suc (length xs)

  abbrev pub All {κ} : (A → Type κ) → List A → Type κ
  All P [] = Unit
  All P (x ∷ xs) = P x × All P xs

  pub All-append {κ} :
      (Q : A → Type κ) (front back : List A) → All Q front → All Q back → All Q (front ++ back)
  All-append Q [] back all later = later
  All-append Q (a ∷ front) back all later = (all.0, All-append Q front back all.1 later)

  abbrev pub take : ℕ → List A → List A
  take zero xs = []
  take (suc n) [] = []
  take (suc n) (x ∷ xs) = x ∷ take n xs

  pub length-append : (xs ys : List A) → length (xs ++ ys) ≡ length xs + length ys
  length-append [] ys = omega arith
  length-append (x ∷ xs) ys = omega (arith, length-append xs ys)

module _ {ℓ} {A : Type ℓ} ⦃e : Eq A⦄ where
  unfoldable pub contains : A → List A → Bool
  contains u [] = false
  contains u (x ∷ xs) = x == u || contains u xs

  pub contains-append :
      (u : A) (xs ys : List A) → contains u xs ≡ true → contains u (xs ++ ys) ≡ true
  unfolding contains
  contains-append u [] ys h = absurd (cc)
  contains-append u (x ∷ xs) ys h = ground (arith, contains-append u xs ys)

  pub contains_last : (u : A) (xs : List A) → contains u (xs ++ u ∷ []) ≡ true
  unfolding contains
  contains_last u [] = rw (==_refl u) refl
  contains_last u (x ∷ xs) = ground (arith, contains_last u xs)
