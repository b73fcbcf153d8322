-- ===== src/Core/Snapshot/Sorted.antt =====
-- Which reservations a snapshot lists, and in which order. About internal/core/reservations.go.
use headless_csms.Prelude.{
  ◌≡◌, sym, ap, ◌⊎◌, inl, inr, String, Bool, true, false, List, [], ◌∷◌, some, ℤ, ltb_ℤ, ◌==◌,
  string_eq, int_eq, lookup, Bool-cases, arith,
}
use headless_csms.Core.Sort.{insert_sorted, sort}
use headless_csms.Core.Types.{Reservation, TimedReservation, Service}
use headless_csms.Core.Reservations.{of_charge_point, reservations_of}

abbrev pub Among : Reservation → List Reservation → Type 0
Among x [] = ⊥
Among x (y ∷ ys) = (x ≡ y) ⊎ Among x ys

-- No entry has a larger id than the next one.
abbrev pub IsSorted : List Reservation → Type 0
IsSorted [] = Unit
IsSorted (r ∷ []) = Unit
IsSorted (r ∷ q ∷ qs) = (ltb_ℤ q.id r.id ≡ false) × IsSorted (q ∷ qs)

abbrev by_id : Reservation → Reservation → Bool
by_id a b = ltb_ℤ a.id b.id

insert_sorted-IsSorted :
    (r : Reservation) (rs : List Reservation) → IsSorted rs → IsSorted (insert_sorted by_id r rs)
unfolding insert_sorted
insert_sorted-IsSorted r [] h = tt
insert_sorted-IsSorted r (q ∷ []) h = elim (Bool-cases (by_id q r)) [
  | inl t ↦ rw (t, insert_sorted) (ground arith, tt)
  | inr f ↦ rw (f, insert_sorted) (f, tt)
]
insert_sorted-IsSorted r (q ∷ p ∷ ps) h = elim (Bool-cases (by_id q r)) [
  | inr f ↦ rw (f, insert_sorted) (f, h)
  | inl t ↦ elim (Bool-cases (by_id p r)) [
    | inl u ↦
        rw (t, insert_sorted, u)
          (h.0, (let rest = insert_sorted-IsSorted r (p ∷ ps) h.1 in rw (u, insert_sorted) at rest))
    | inr u ↦ rw (t, insert_sorted, u) (ground arith, (u, h.1))
  ]
]

sort-IsSorted : (rs : List Reservation) → IsSorted (sort by_id rs)
unfolding sort
sort-IsSorted [] = tt
sort-IsSorted (r ∷ rs) = insert_sorted-IsSorted r (sort by_id rs) (sort-IsSorted rs)

insert_sorted-Among :
    (x r : Reservation) (rs : List Reservation)
    → (x ≡ r) ⊎ Among x rs
    → Among x (insert_sorted by_id r rs)
unfolding insert_sorted
insert_sorted-Among x r [] (inl e) = inl e
insert_sorted-Among x r [] (inr h) = absurd h
insert_sorted-Among x r (q ∷ qs) h = elim (Bool-cases (by_id q r)) [
  | inr f ↦ rw (f, insert_sorted) h
  | inl t ↦ rw (t, insert_sorted) (deeper (insert_sorted-Among x r qs) h)
]
  where
    deeper :
        ((x ≡ r) ⊎ Among x qs → Among x (insert_sorted by_id r qs))
        → (x ≡ r) ⊎ Among x (q ∷ qs)
        → Among x (q ∷ insert_sorted by_id r qs)
    deeper rest (inl e) = inr (rest (inl e))
    deeper rest (inr (inl e)) = inl e
    deeper rest (inr (inr k)) = inr (rest (inr k))

sort-Among : (x : Reservation) (rs : List Reservation) → Among x rs → Among x (sort by_id rs)
unfolding sort
sort-Among x [] h = absurd h
sort-Among x (r ∷ rs) (inl e) = insert_sorted-Among x r (sort by_id rs) (inl e)
sort-Among x (r ∷ rs) (inr h) = insert_sorted-Among x r (sort by_id rs) (inr (sort-Among x rs h))

of_charge_point-Among :
    (cp_id : String) (m : List (ℤ × TimedReservation)) (k : ℤ) (q : TimedReservation)
    → lookup k m ≡ some q
    → q.charge_point_id ≡ cp_id
    → Among q.reservation (of_charge_point cp_id m)
unfolding of_charge_point lookup
of_charge_point-Among cp_id [] k q e h = absurd (cc (e))
of_charge_point-Among cp_id ((j, r) ∷ m) k q e h = elim (Bool-cases (j == k)) [
  | inl t ↦
      let same : r ≡ q = ground arith in
      let on_it : (r.charge_point_id == cp_id) ≡ true =
        ground (arith, string_eq.beq_iff r.charge_point_id cp_id, same) in
      rw (on_it, of_charge_point) (inl (ap (λ (z : TimedReservation). z.reservation) (sym same)))
  | inr f ↦
      let rest = of_charge_point-Among cp_id m k q (ground arith) h in
      elim (Bool-cases (r.charge_point_id == cp_id)) [
        | inl u ↦ rw (u, of_charge_point) (inr rest)
        | inr u ↦ rw (u, of_charge_point) rest
      ]
]

-- The reservations that a snapshot lists for a station are in the order of their ids, and every
-- reservation of the table that is on this station is among them, whatever its status.
pub reservations_of-IsSorted :
    (cp_id : String) (s : Service)
    → IsSorted (reservations_of cp_id s)
      × ((k : ℤ) (q : TimedReservation)
          → lookup k s.reservations ≡ some q
          → q.charge_point_id ≡ cp_id
          → Among q.reservation (reservations_of cp_id s))
unfolding reservations_of
reservations_of-IsSorted cp_id s = (
  sort-IsSorted (of_charge_point cp_id s.reservations),
  λ k q e h. sort-Among q.reservation _ (of_charge_point-Among cp_id s.reservations k q e h),
)
