-- ===== src/Core/Transactions/Held.antt =====
-- What the loops over the reservations find for a session. About internal/core/transactions.go.
use headless_csms.Prelude.{
  ◌≡◌, refl, sym, ◌∙◌, subst, ==_cases, inl, inr, String, true, false, ◌&&◌, List, [], ◌∷◌, none,
  some, ℤ, Option-cases, Bool-cases, lookup, delete, lookup-delete-some, lookup-delete_self, IsMap,
  delete-IsMap, arith, string_eq, int_eq, ==_refl,
}
use headless_csms.Core.Types.{TimedReservation}
use headless_csms.Core.Reservations.Exclusive.{IsExclusive}
use headless_csms.Core.Transactions.{is_held_on, find_tagged, find_held, equal_fold}

-- What the loop over the held reservations finds is an entry that passes its test.
pub find_held-some :
    (cp uid : String) (m : List (ℤ × TimedReservation)) (r : TimedReservation)
    → IsMap m
    → find_held cp uid m ≡ some r
    → (k : ℤ) × (lookup k m ≡ some r) × (is_held_on cp uid r ≡ true)
unfolding find_held lookup
find_held-some cp uid [] r v h = absurd (cc)
find_held-some cp uid ((j, q) ∷ m) r v h = elim (Bool-cases (is_held_on cp uid q)) [
  | inl t ↦ (j, ground (arith, ==_refl j, t), ground (arith, t))
  | inr f ↦ later (find_held-some cp uid m r v.1 (ground arith))
]
  where
    later :
        (k : ℤ) × (lookup k m ≡ some r) × (is_held_on cp uid r ≡ true)
        → (k : ℤ) × (lookup k ((j, q) ∷ m) ≡ some r) × (is_held_on cp uid r ≡ true)
    later (k, e, u) = (k, ground (arith, int_eq.beq_iff j k, v.0), u)

-- No entry of the table is an active reservation of this station on this EVSE.
find_held-none :
    (cp uid : String) (m : List (ℤ × TimedReservation))
    → IsMap m
    → ((k : ℤ) (r : TimedReservation) → lookup k m ≡ some r → is_held_on cp uid r ≡ false)
    → find_held cp uid m ≡ none
find_held-none cp uid m v h = elim (Option-cases (find_held cp uid m)) [
  | inl e ↦ e
  | inr (r, e) ↦ let (k, f, t) = find_held-some cp uid m r v e in absurd (cc (h k r f))
]

-- What is removed with the id of an entry on the EVSE was the only one there.
pub delete-find_held :
    (cp uid : String) (m : List (ℤ × TimedReservation)) (next k : ℤ) (r : TimedReservation)
    → IsExclusive m next
    → lookup k m ≡ some r
    → r.evse_uid ≡ uid
    → find_held cp uid (delete r.id m) ≡ none
delete-find_held cp uid m next k r v e u =
    find_held-none cp uid (delete r.id m) (delete-IsMap r.id m v.is_map) λ j q f.
      elim (Bool-cases (is_held_on cp uid q)) [
        | inr n ↦ n
        | inl t ↦
            let there = lookup-delete-some r.id j m f in
            let on_it : q.evse_uid ≡ uid = ground (arith, string_eq.beq_iff q.evse_uid uid) in
            let same : j ≡ k = v.single j k q r there e (on_it ∙ sym u) in
            let key : j ≡ r.id = same ∙ sym (v.keyed k r e) in absurd (gone j q key f)
      ]
  where
    gone : (j : ℤ) (q : TimedReservation) → j ≡ r.id → lookup j (delete r.id m) ≡ some q → ⊥
    gone j q same f =
        let none_there =
          subst (λ i. lookup i (delete r.id m) ≡ none) (sym same) (lookup-delete_self r.id m) in
        cc (sym none_there ∙ f)

-- Removing what is not on the EVSE leaves what the loop finds there.
pub find_held-delete :
    (cp uid : String) (m : List (ℤ × TimedReservation)) (k : ℤ)
    → IsMap m
    → ((q : TimedReservation) → lookup k m ≡ some q → is_held_on cp uid q ≡ false)
    → find_held cp uid (delete k m) ≡ find_held cp uid m
unfolding find_held lookup delete
find_held-delete cp uid [] k v h = refl
find_held-delete cp uid ((j, q) ∷ m) k v h = elim (==_cases j k) [
  | inl t ↦
      let off : is_held_on cp uid q ≡ false = h q (rw t.0 refl) in
      let rest = find_held-delete cp uid m k v.1 (λ p e. absurd (cc (sym (rw t.1 at v.0) ∙ e))) in
      rw (t.0, off) rest
  | inr f ↦
      let rest = find_held-delete cp uid m k v.1 (λ p e. h p (rw f.0 e)) in
      rw f.0 (ground (arith, rest))
]

pub find_tagged-some :
    (cp uid tag : String) (m : List (ℤ × TimedReservation)) (r : TimedReservation)
    → IsMap m
    → find_tagged cp uid tag m ≡ some r
    → (k : ℤ) × (lookup k m ≡ some r) × ((is_held_on cp uid r && equal_fold r.id_tag tag) ≡ true)
unfolding find_tagged lookup
find_tagged-some cp uid tag [] r v h = absurd (cc)
find_tagged-some cp uid tag ((j, q) ∷ m) r v h =
    elim (Bool-cases (is_held_on cp uid q && equal_fold q.id_tag tag)) [
      | inl t ↦ (j, ground (arith, ==_refl j, t), ground (arith, t))
      | inr f ↦ later (find_tagged-some cp uid tag m r v.1 (ground arith))
    ]
  where
    later :
        (k : ℤ) × (lookup k m ≡ some r) × ((is_held_on cp uid r && equal_fold r.id_tag tag) ≡ true)
        → (k : ℤ) × (lookup k ((j, q) ∷ m) ≡ some r)
          × ((is_held_on cp uid r && equal_fold r.id_tag tag) ≡ true)
    later (k, e, u) = (k, ground (arith, int_eq.beq_iff j k, v.0), u)
