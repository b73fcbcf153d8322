-- ===== src/Prelude/Members.antt =====
-- What stands in a list, by recursion: a proof says where.
use mathlib.Core.Path.{◌≡◌, refl, ap}
use mathlib.Core.Logic.{◌⊎◌, inl, inr}
use mathlib.Core.List.{List, [], ◌∷◌, ◌++◌, map}

module _ {A : Type 0} where
  abbrev pub IsIn : A → List A → Type 0
  IsIn a [] = ⊥
  IsIn a (x ∷ xs) = (a ≡ x) ⊎ IsIn a xs

  pub IsIn-append_left : (a : A) (xs ys : List A) → IsIn a xs → IsIn a (xs ++ ys)
  IsIn-append_left a [] ys h = absurd h
  IsIn-append_left a (x ∷ xs) ys (inl e) = inl e
  IsIn-append_left a (x ∷ xs) ys (inr h) = inr (IsIn-append_left a xs ys h)

  pub IsIn-append_right : (a : A) (xs ys : List A) → IsIn a ys → IsIn a (xs ++ ys)
  IsIn-append_right a [] ys h = h
  IsIn-append_right a (x ∷ xs) ys h = inr (IsIn-append_right a xs ys h)

  pub IsIn-append : (a : A) (xs ys : List A) → IsIn a (xs ++ ys) → IsIn a xs ⊎ IsIn a ys
  IsIn-append a [] ys h = inr h
  IsIn-append a (x ∷ xs) ys (inl e) = inl (inl e)
  IsIn-append a (x ∷ xs) ys (inr h) = elim (IsIn-append a xs ys h) [
    | inl g ↦ inl (inr g)
    | inr g ↦ inr g
  ]

module _ {A B : Type 0} (f : A → B) where
  pub IsIn-map : (b : B) (xs : List A) → IsIn b (map f xs) → (a : A) × IsIn a xs × (b ≡ f a)
  IsIn-map b [] h = absurd h
  IsIn-map b (x ∷ xs) (inl e) = (x, inl refl, e)
  IsIn-map b (x ∷ xs) (inr h) = let (a, g, e) = IsIn-map b xs h in (a, inr g, e)

  pub map-IsIn : (a : A) (xs : List A) → IsIn a xs → IsIn (f a) (map f xs)
  map-IsIn a [] h = absurd h
  map-IsIn a (x ∷ xs) (inl e) = inl (ap f e)
  map-IsIn a (x ∷ xs) (inr h) = inr (map-IsIn a xs h)
