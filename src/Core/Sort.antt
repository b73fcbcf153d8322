-- ===== src/Core/Sort.antt =====
-- `sort.Slice`, which core calls with keys that are distinct: the sorted list is then unique, and an
-- insertion sort gives it. The order of entries with equal keys is not specified by Go. The sort is
-- stable, as the `sort.SliceStable` of internal/config is.
use headless_csms.Prelude.{Bool, List, [], ◌∷◌, if◌then◌else◌}

module _ {ℓ} {A : Type ℓ} where
  unfoldable pub insert_sorted : (A → A → Bool) → A → List A → List A
  insert_sorted less x [] = x ∷ []
  insert_sorted less x (y ∷ ys) = if less y x then y ∷ insert_sorted less x ys else x ∷ y ∷ ys

  unfoldable pub sort : (A → A → Bool) → List A → List A
  unfolding insert_sorted
  sort less [] = []
  sort less (x ∷ xs) = insert_sorted less x (sort less xs)
