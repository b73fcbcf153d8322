-- ===== src/Core/Persist/Listed.antt =====
-- What the loops that collect the state to write find. About internal/core/persist.go.
use headless_csms.Prelude.{
  ◌≡◌, refl, ap, subst, ◌⊎◌, inl, inr, String, Bool, true, List, [], ◌∷◌, ◌++◌, ℤ, Bool-cases,
  arith, IsIn, IsIn-append, IsIn-append_left, IsIn-append_right,
}
use headless_csms.State
use headless_csms.State.{State, normalize, normalize_registration}
use headless_csms.Core.Sort.{insert_sorted, sort}
use headless_csms.Core.Types.{Transaction, is_active, active, TimedReservation, ChargePointState}
use headless_csms.Core.Persist.{reservation_dto, is_held, held, running, all_running}

module _ {A : Type 0} (less : A → A → Bool) where
  insert_sorted-IsIn :
      (a x : A) (xs : List A) → (a ≡ x) ⊎ IsIn a xs → IsIn a (insert_sorted less x xs)
  unfolding insert_sorted
  insert_sorted-IsIn a x [] h = h
  insert_sorted-IsIn a x (y ∷ ys) h = elim (Bool-cases (less y x)) [
    | inr f ↦ rw f h
    | inl t ↦ rw t (past (insert_sorted-IsIn a x ys) h)
  ]
    where
      past :
          ((a ≡ x) ⊎ IsIn a ys → IsIn a (insert_sorted less x ys))
          → (a ≡ x) ⊎ IsIn a (y ∷ ys)
          → IsIn a (y ∷ insert_sorted less x ys)
      past later (inl e) = inr (later (inl e))
      past later (inr (inl e)) = inl e
      past later (inr (inr g)) = inr (later (inr g))

  IsIn-insert_sorted :
      (a x : A) (xs : List A) → IsIn a (insert_sorted less x xs) → (a ≡ x) ⊎ IsIn a xs
  unfolding insert_sorted
  IsIn-insert_sorted a x [] h = h
  IsIn-insert_sorted a x (y ∷ ys) h = elim (Bool-cases (less y x)) [
    | inr f ↦ rw f at h
    | inl t ↦ past (IsIn-insert_sorted a x ys) (rw t at h)
  ]
    where
      past :
          (IsIn a (insert_sorted less x ys) → (a ≡ x) ⊎ IsIn a ys)
          → IsIn a (y ∷ insert_sorted less x ys)
          → (a ≡ x) ⊎ IsIn a (y ∷ ys)
      past later (inl e) = inr (inl e)
      past later (inr g) = elim (later g) [ inl e ↦ inl e | inr k ↦ inr (inr k) ]

  pub sort-IsIn : (a : A) (xs : List A) → IsIn a xs → IsIn a (sort less xs)
  unfolding sort
  sort-IsIn a [] h = absurd h
  sort-IsIn a (x ∷ xs) (inl e) = insert_sorted-IsIn a x (sort less xs) (inl e)
  sort-IsIn a (x ∷ xs) (inr h) = insert_sorted-IsIn a x (sort less xs) (inr (sort-IsIn a xs h))

  pub IsIn-sort : (a : A) (xs : List A) → IsIn a (sort less xs) → IsIn a xs
  unfolding sort
  IsIn-sort a [] h = h
  IsIn-sort a (x ∷ xs) h = elim (IsIn-insert_sorted a x (sort less xs) h) [
    | inl e ↦ inl e
    | inr g ↦ inr (IsIn-sort a xs g)
  ]

-- An entry of the table that its write keeps.
abbrev pub IsHeld : State.Reservation → List (ℤ × TimedReservation) → Type 0
IsHeld d m =
    (k : ℤ) × (r : TimedReservation) × IsIn (k, r) m
    × (r.status ≡ active)
    × (d ≡ reservation_dto r.reservation)

pub held-IsHeld :
    (d : State.Reservation) (m : List (ℤ × TimedReservation)) → IsIn d (held m) → IsHeld d m
unfolding held
held-IsHeld d [] h = absurd h
held-IsHeld d ((k, r) ∷ m) h = elim (Bool-cases (is_held r.status)) [
  | inr f ↦ later (held-IsHeld d m (rw (f, held) at h))
  | inl t ↦ here t (held-IsHeld d m) (rw (t, held) at h)
]
  where
    later : IsHeld d m → IsHeld d ((k, r) ∷ m)
    later (j, q, i, a, e) = (j, q, inr i, a, e)

    here :
        is_held r.status ≡ true
        → (IsIn d (held m) → IsHeld d m)
        → IsIn d (reservation_dto r.reservation ∷ held m)
        → IsHeld d ((k, r) ∷ m)
    here t rest (inl e) = (k, r, inl refl, ground arith, e)
    here t rest (inr g) = later (rest g)

pub IsHeld-held :
    (k : ℤ) (r : TimedReservation) (m : List (ℤ × TimedReservation))
    → IsIn (k, r) m
    → r.status ≡ active
    → IsIn (reservation_dto r.reservation) (held m)
unfolding held
IsHeld-held k r [] h a = absurd h
IsHeld-held k r ((j, q) ∷ m) (inl e) a =
    let same : r ≡ q = ap (λ (p : ℤ × TimedReservation). p.1) e in
    let t : is_held q.status ≡ true =
      ground (arith, ap (λ (p : TimedReservation). p.status) same) in
    rw (t, held) (inl (ap (λ (p : TimedReservation). reservation_dto p.reservation) same))
IsHeld-held k r ((j, q) ∷ m) (inr h) a =
    let rest = IsHeld-held k r m h a in
    elim (Bool-cases (is_held q.status)) [
      | inr f ↦ rw (f, held) rest
      | inl t ↦ rw (t, held) (inr rest)
    ]

-- A running transaction of a station.
running-IsIn :
    (cp_id : String) (p : String × Transaction) (txs : List (String × Transaction))
    → IsIn p (running cp_id txs)
    → (id : String) × (tx : Transaction) × IsIn (id, tx) txs
      × (is_active tx ≡ true)
      × (p ≡ (cp_id, tx))
unfolding running
running-IsIn cp_id p [] h = absurd h
running-IsIn cp_id p ((k, x) ∷ txs) h = elim (Bool-cases (is_active x)) [
  | inr f ↦ later (running-IsIn cp_id p txs (rw (f, running) at h))
  | inl t ↦ here t (running-IsIn cp_id p txs) (rw (t, running) at h)
]
  where
    Found : List (String × Transaction) → Type 0
    Found m =
        (id : String) × (tx : Transaction) × IsIn (id, tx) m
        × (is_active tx ≡ true)
        × (p ≡ (cp_id, tx))

    later : Found txs → Found ((k, x) ∷ txs)
    later (id, tx, i, a, e) = (id, tx, inr i, a, e)

    here :
        is_active x ≡ true
        → (IsIn p (running cp_id txs) → Found txs)
        → IsIn p ((cp_id, x) ∷ running cp_id txs)
        → Found ((k, x) ∷ txs)
    here t rest (inl e) = (k, x, inl refl, t, e)
    here t rest (inr g) = later (rest g)

IsIn-running :
    (cp_id id : String) (tx : Transaction) (txs : List (String × Transaction))
    → IsIn (id, tx) txs
    → is_active tx ≡ true
    → IsIn (cp_id, tx) (running cp_id txs)
unfolding running
IsIn-running cp_id id tx [] h a = absurd h
IsIn-running cp_id id tx ((k, x) ∷ txs) (inl e) a =
    let same : tx ≡ x = ap (λ (p : String × Transaction). p.1) e in
    let t : is_active x ≡ true = subst (λ y. is_active y ≡ true) same a in
    rw (t, running) (inl (ap (λ (y : Transaction). (cp_id, y)) same))
IsIn-running cp_id id tx ((k, x) ∷ txs) (inr h) a =
    let rest = IsIn-running cp_id id tx txs h a in
    elim (Bool-cases (is_active x)) [
      | inr f ↦ rw (f, running) rest
      | inl t ↦ rw (t, running) (inr rest)
    ]

pub all_running-IsIn :
    (p : String × Transaction) (cps : List (String × ChargePointState))
    → IsIn p (all_running cps)
    → (k : String) × (cp : ChargePointState) × (id : String) × (tx : Transaction) × IsIn (k, cp) cps
      × IsIn (id, tx) cp.transactions
      × (is_active tx ≡ true)
      × (p ≡ (cp.id, tx))
unfolding all_running
all_running-IsIn p [] h = absurd h
all_running-IsIn p ((k, cp) ∷ cps) h =
    elim (IsIn-append p (running cp.id cp.transactions) (all_running cps) h) [
      | inl g ↦
          let (id, tx, i, a, e) = running-IsIn cp.id p cp.transactions g in
          (k, cp, id, tx, inl refl, i, a, e)
      | inr g ↦
          let (j, q, id, tx, i, i', a, e) = all_running-IsIn p cps g in
          (j, q, id, tx, inr i, i', a, e)
    ]

pub IsIn-all_running :
    (k : String) (cp : ChargePointState) (id : String) (tx : Transaction)
    (cps : List (String × ChargePointState))
    → IsIn (k, cp) cps
    → IsIn (id, tx) cp.transactions
    → is_active tx ≡ true
    → IsIn (cp.id, tx) (all_running cps)
unfolding all_running
IsIn-all_running k cp id tx [] h i a = absurd h
IsIn-all_running k cp id tx ((j, q) ∷ cps) (inl e) i a =
    let same : cp ≡ q = ap (λ (p : String × ChargePointState). p.1) e in
    subst
      (λ (x : ChargePointState). IsIn (cp.id, tx) (running x.id x.transactions ++ all_running cps))
      same
      (IsIn-append_left (cp.id, tx) (running cp.id cp.transactions) (all_running cps)
        (IsIn-running cp.id id tx cp.transactions i a))
IsIn-all_running k cp id tx ((j, q) ∷ cps) (inr h) i a =
    IsIn-append_right (cp.id, tx) (running q.id q.transactions) (all_running cps)
      (IsIn-all_running k cp id tx cps h i a)
