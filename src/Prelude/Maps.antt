-- ===== src/Prelude/Maps.antt =====
-- Go maps as association lists. The order of the list stands for the unspecified order of a
-- `range` loop; writing a key that is there keeps its place.
use mathlib.Core.Path.{◌≡◌, refl, sym, ◌∙◌}
use mathlib.Core.Logic.{◌⊎◌, inl, inr}
use mathlib.Core.Bool.{false}
use mathlib.Core.Option.{Option, none, some}
use mathlib.Core.List.{List, [], ◌∷◌}
use native.Mathlib.Omega.{arith}
use headless_csms.Prelude.Tests.{Bool-cases, if◌then◌else◌}
use headless_csms.Prelude.Keys.{Eq, ◌==◌, ==_refl, ==_cases}

module _ {ℓ κ} {K : Type ℓ} {V : Type κ} ⦃e : Eq K⦄ where
  unfoldable pub lookup : K → List (K × V) → Option V
  lookup k [] = none
  lookup k ((j, v) ∷ m) = if j == k then some v else lookup k m

  -- `m[k]`, with the zero value of the type for a missing key.
  unfoldable pub get : V → K → List (K × V) → V
  get d k m = elim (lookup k m) [ none ↦ d | some v ↦ v ]

  unfoldable pub insert : K → V → List (K × V) → List (K × V)
  insert k new [] = (k, new) ∷ []
  insert k new ((j, old) ∷ m) =
      let rest = insert k new m in if j == k then (k, new) ∷ m else (j, old) ∷ rest

  unfoldable pub delete : K → List (K × V) → List (K × V)
  delete k [] = []
  delete k ((j, w) ∷ m) = let rest = delete k m in if j == k then rest else (j, w) ∷ rest

  pub lookup-insert :
      (put asked : K) (new : V) (m : List (K × V))
      → lookup asked (insert put new m) ≡ (if put == asked then some new else lookup asked m)
  unfolding insert lookup
  lookup-insert put asked new [] = refl
  lookup-insert put asked new ((first, old) ∷ m) = ground (
    arith,
    lookup-insert put asked new m,
    e.beq_iff put asked,
    e.beq_iff first put,
    e.beq_iff first asked,
  )

  pub lookup-delete :
      (k j : K) (m : List (K × V)) → lookup j (delete k m) ≡ (if k == j then none else lookup j m)
  unfolding lookup delete
  lookup-delete k j [] = ground arith
  lookup-delete k j ((i, w) ∷ m) =
      ground (arith, e.beq_iff k j, e.beq_iff i k, e.beq_iff i j, lookup-delete k j m)

  pub lookup-insert_self : (k : K) (v : V) (m : List (K × V)) → lookup k (insert k v m) ≡ some v
  lookup-insert_self k v m = rw (lookup-insert k k v m, ==_refl k)

  pub lookup-insert_ne :
      (k j : K) (v : V) (m : List (K × V)) → (k == j) ≡ false → lookup j (insert k v m) ≡ lookup j m
  lookup-insert_ne k j v m h = rw (lookup-insert k j v m, h)

  pub lookup-delete_self : (k : K) (m : List (K × V)) → lookup k (delete k m) ≡ none
  lookup-delete_self k m = rw (lookup-delete k k m, ==_refl k)

  pub lookup-delete_ne :
      (k j : K) (m : List (K × V)) → (k == j) ≡ false → lookup j (delete k m) ≡ lookup j m
  lookup-delete_ne k j m h = rw (lookup-delete k j m, h)

  -- What a deletion leaves was there before.
  pub lookup-delete-some :
      (k j : K) (m : List (K × V)) {v : V} → lookup j (delete k m) ≡ some v → lookup j m ≡ some v
  lookup-delete-some k j m h = elim (Bool-cases (k == j)) [
    | inl t ↦ ground (arith, lookup-delete k j m)
    | inr f ↦ sym (lookup-delete_ne k j m f) ∙ h
  ]

  -- An entry of the map after a write is the new one, or one that was there under another key.
  pub lookup-insert-some :
      (k j : K) (v : V) (m : List (K × V)) {w : V}
      → lookup j (insert k v m) ≡ some w
      → ((k ≡ j) × (v ≡ w)) ⊎ (lookup j m ≡ some w)
  lookup-insert-some k j v m h = elim (==_cases k j) [
    | inl t ↦ inl (t.1, ground (arith, lookup-insert k j v m, t.0))
    | inr f ↦ inr (sym (lookup-insert_ne k j v m f.0) ∙ h)
  ]

  -- No key stands twice, so a `range` loop meets each entry once.
  abbrev pub IsMap : List (K × V) → Type κ
  IsMap [] = Unit
  IsMap ((k, v) ∷ m) = (lookup k m ≡ none) × IsMap m

  pub insert-IsMap : (k : K) (v : V) (m : List (K × V)) → IsMap m → IsMap (insert k v m)
  unfolding insert lookup
  insert-IsMap k v [] h = (refl, tt)
  insert-IsMap k v ((j, w) ∷ m) h = elim (==_cases j k) [
    | inl t ↦ rw t.0 (rw t.1 at h.0, h.1)
    | inr f ↦ rw f.0 (
      ground (arith, lookup-insert k j v m, e.beq_iff j k, e.beq_iff k j, h.0),
      insert-IsMap k v m h.1,
    )
  ]

  pub delete-IsMap : (k : K) (m : List (K × V)) → IsMap m → IsMap (delete k m)
  unfolding delete
  delete-IsMap k [] h = tt
  delete-IsMap k ((j, w) ∷ m) h = elim (Bool-cases (j == k)) [
    | inl t ↦ rw t (delete-IsMap k m h.1)
    | inr f ↦ rw f (ground (arith, lookup-delete k j m, h.0), delete-IsMap k m h.1)
  ]

  pub get-insert :
      (d : V) (k j : K) (v : V) (m : List (K × V))
      → get d j (insert k v m) ≡ (if k == j then v else get d j m)
  unfolding get
  get-insert d k j v m = ground (arith, lookup-insert k j v m)
