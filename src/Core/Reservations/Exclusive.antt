-- ===== src/Core/Reservations/Exclusive.antt =====
-- The reservation table: one entry to an EVSE, under its own id, below the counter. About
-- internal/core/reservations.go.
use headless_csms.Prelude.{
  ◌≡◌, refl, sym, ap, ◌∙◌, subst, ◌⊎◌, inl, inr, ◌≢◌, String, List, [], ◌∷◌, none, some, ℤ, pos,
  max_int, succ, lt-succ, ◌<ℤ◌, ==_cases, ==_refl, string_eq, int_eq, Option-cases, lookup, insert,
  delete, lookup-insert-some, lookup-delete-some, IsMap, insert-IsMap, delete-IsMap, arith,
}
use headless_csms.Core.Types.{TimedReservation}
use headless_csms.Core.Reservations.{find_on}

abbrev pub Table : Type 0
Table = List (ℤ × TimedReservation)

pub record IsExclusive (m : Table) (next : ℤ) : Type 0 where
  pub is_map : IsMap m
  pub keyed : (k : ℤ) (r : TimedReservation) → lookup k m ≡ some r → r.id ≡ k
  pub single :
      (j k : ℤ) (r q : TimedReservation)
      → lookup j m ≡ some r
      → lookup k m ≡ some q
      → r.evse_uid ≡ q.evse_uid
      → j ≡ k
  pub fresh : (k : ℤ) (r : TimedReservation) → lookup k m ≡ some r → k <ℤ next

-- The loop finds nothing only if no entry is on the EVSE.
pub find_on-none :
    (uid : String) (m : Table) (k : ℤ) (r : TimedReservation)
    → find_on uid m ≡ none
    → lookup k m ≡ some r
    → r.evse_uid ≢ uid
unfolding find_on lookup
find_on-none uid [] k r h e = absurd (cc)
find_on-none uid ((j, q) ∷ m) k r h e = ground (
  arith,
  string_eq.beq_iff q.evse_uid uid,
  string_eq.beq_iff r.evse_uid uid,
  find_on-none uid m k r,
)

-- What the loop finds is an entry of the table, on that EVSE.
pub find_on-some :
    (uid : String) (m : Table) (r : TimedReservation)
    → IsMap m
    → find_on uid m ≡ some r
    → (k : ℤ) × (lookup k m ≡ some r) × (r.evse_uid ≡ uid)
unfolding find_on lookup
find_on-some uid [] r v h = absurd (cc)
find_on-some uid ((j, q) ∷ m) r v h = elim (==_cases q.evse_uid uid) [
  | inl t ↦ (j, ground (arith, ==_refl j, t.0), ground (arith, t.0, t.1))
  | inr f ↦ later (find_on-some uid m r v.1 (rw (f.0, find_on) at h))
]
  where
    later :
        (k : ℤ) × (lookup k m ≡ some r) × (r.evse_uid ≡ uid)
        → (k : ℤ) × (lookup k ((j, q) ∷ m) ≡ some r) × (r.evse_uid ≡ uid)
    later (k, e, u) = (k, ground (arith, int_eq.beq_iff j k, v.0), u)

module _ {m : Table} {next : ℤ} (v : IsExclusive m next) where
  pub delete-IsExclusive : (k : ℤ) → IsExclusive (delete k m) next
  delete-IsExclusive k = record {
    is_map = delete-IsMap k m v.is_map;
    keyed = λ j r e. v.keyed j r (lookup-delete-some k j m e);
    single =
        λ i j r q e f. v.single i j r q (lookup-delete-some k i m e) (lookup-delete-some k j m f);
    fresh = λ j r e. v.fresh j r (lookup-delete-some k j m e);
  }

  -- A change that keeps the id and the EVSE of an entry.
  module _ (k : ℤ) (r r' : TimedReservation) (e : lookup k m ≡ some r) (same_id : r'.id ≡ r.id)
      (same_evse : r'.evse_uid ≡ r.evse_uid) where
    origin :
        (j : ℤ) (p : TimedReservation)
        → lookup j (insert k r' m) ≡ some p
        → (q : TimedReservation) × (lookup j m ≡ some q) × (p.id ≡ q.id) × (p.evse_uid ≡ q.evse_uid)
    origin j p h = elim (lookup-insert-some k j r' m h) [
      | inl (kj, rp) ↦
          (r, subst (λ i. lookup i m ≡ some r) kj e, rw (← rp) same_id, rw (← rp) same_evse)
      | inr old ↦ (p, old, refl, refl)
    ]

    pub replace-IsExclusive : IsExclusive (insert k r' m) next
    replace-IsExclusive = record {
      is_map = insert-IsMap k r' m v.is_map;
      keyed = λ j p h. let (q, f, i, u) = origin j p h in i ∙ v.keyed j q f;
      single = λ i j p p' h h' u.
          let (q, f, _, w) = origin i p h in
          let (q', f', _, w') = origin j p' h' in v.single i j q q' f f' (sym w ∙ u ∙ w');
      fresh = λ j p h. let (q, f, _, _) = origin j p h in v.fresh j q f;
    }

  -- A new entry under the counter, on an EVSE where the loop finds none.
  module _ (r : TimedReservation) (none_on : find_on r.evse_uid m ≡ none) (same_id : r.id ≡ next)
      (room : next ≢ pos max_int) where
    added :
        (j : ℤ) (p : TimedReservation)
        → lookup j (insert next r m) ≡ some p
        → ((next ≡ j) × (r ≡ p)) ⊎ (lookup j m ≡ some p)
    added j p h = lookup-insert-some next j r m h

    below : (j : ℤ) (p : TimedReservation) → lookup j m ≡ some p → j <ℤ succ next
    below j p f = omega (arith, v.fresh j p f, lt-succ next room)

    one :
        (i j : ℤ) (p q : TimedReservation)
        → ((next ≡ i) × (r ≡ p)) ⊎ (lookup i m ≡ some p)
        → ((next ≡ j) × (r ≡ q)) ⊎ (lookup j m ≡ some q)
        → p.evse_uid ≡ q.evse_uid
        → i ≡ j
    one i j p q (inl (a, _)) (inl (b, _)) u = sym a ∙ b
    one i j p q (inl (a, rp)) (inr f) u =
        absurd (find_on-none r.evse_uid m j q none_on f (rw rp (sym u)))
    one i j p q (inr f) (inl (b, rq)) u = absurd (find_on-none r.evse_uid m i p none_on f (rw rq u))
    one i j p q (inr f) (inr g) u = v.single i j p q f g u

    pub insert-IsExclusive : IsExclusive (insert next r m) (succ next)
    insert-IsExclusive = record {
      is_map = insert-IsMap next r m v.is_map;
      keyed = λ j p h. elim (added j p h) [
        | inl (a, rp) ↦ rw (← rp) (same_id ∙ a)
        | inr f ↦ v.keyed j p f
      ];
      single = λ i j p q h h' u. one i j p q (added i p h) (added j q h') u;
      fresh = λ j p h. elim (added j p h) [
        | inl (a, rp) ↦ rw (← a) (lt-succ next room)
        | inr f ↦ below j p f
      ];
    }

-- In a sound table the loop finds the one entry on an EVSE, whatever the order of iteration.
pub find_on_lem :
    (m : Table) (next : ℤ) (k : ℤ) (r : TimedReservation)
    → IsExclusive m next
    → lookup k m ≡ some r
    → find_on r.evse_uid m ≡ some r
find_on_lem m next k r v e = elim (Option-cases (find_on r.evse_uid m)) [
  | inl none_on ↦ absurd (find_on-none r.evse_uid m k r none_on e refl)
  | inr (q, f) ↦
      let (j, g, u) = find_on-some r.evse_uid m q v.is_map f in
      let same = v.single k j r q e g (sym u) in f ∙ sym g ∙ ap (λ i. lookup i m) (sym same) ∙ e
]
