-- ===== src/Ocpp/Conn/Pending.antt =====
-- The map of unanswered calls of internal/ocpp/ocppj/conn.go.
use headless_csms.Prelude.{
  ℕ, ◌≡◌, sym, ap, ◌∙◌, inl, inr, String, List, Option, some, lookup, insert, delete, nat_eq,
  string_eq, arith, ==_cases, lookup-insert, lookup-insert-some, lookup-delete, lookup-delete-some,
  lookup-insert_self, subst,
}
use headless_csms.Ocpp.Frame.{Json, Frame}
use headless_csms.Ocpp.Conn.{Handled}
use headless_csms.Ocpp.Conn.Step.{
  CallAt, Outcome, numbered, queueing, waiting, leaving, finished, Conn, Step, Reach, start, later,
  begins, begins_badly, enters, queues, gives_up_early, cancels_early, receives, times_out,
  gives_up, cancels, forgets,
}

module _ (j : Json) where
  -- A call under this message id that has not returned, and has entered the map.
  abbrev pub IsOpen : String → Option (CallAt j) → Type 0
  IsOpen id (some (queueing i b)) = i ≡ id
  IsOpen id (some (waiting i)) = i ≡ id
  IsOpen id (some (leaving i o)) = i ≡ id
  IsOpen id _ = ⊥

module _ (j : Json) (A : Type 0) (handle : Frame j → A → Handled j × A) where
  abbrev AreOpen : Conn j A → Type 0
  AreOpen s =
      (id : String) (c : ℕ) → lookup id s.pending ≡ some c → IsOpen j id (lookup c s.callers)

  -- A caller goes on without leaving the map.
  keeps :
      (s : Conn j A) (c : ℕ) {old : Option (CallAt j)} (new : CallAt j)
      → lookup c s.callers ≡ old
      → ((id : String) → IsOpen j id old → IsOpen j id (some new))
      → AreOpen s
      → (id : String) (d : ℕ) → lookup id s.pending ≡ some d
      → IsOpen j id (lookup d (insert c new s.callers))
  keeps s c new here stays inv id d h = elim (==_cases c d) [
    | inl t ↦
        rw (lookup-insert c d new s.callers, t.0)
          (stays id
            (subst (IsOpen j id) (ap (λ x. lookup x s.callers) (sym t.1) ∙ here) (inv id d h)))
    | inr f ↦ rw (lookup-insert c d new s.callers, f.0) (inv id d h)
  ]

  enters-AreOpen :
      (s : Conn j A) (c : ℕ) (id : String) {b : j.Bytes}
      → lookup c s.callers ≡ some (numbered id b)
      → AreOpen s
      → (i : String) (d : ℕ) → lookup i (insert id c s.pending) ≡ some d
      → IsOpen j i (lookup d (insert c (queueing id b) s.callers))
  enters-AreOpen s c id {b} here inv i d h = elim (lookup-insert-some id i c s.pending h) [
    | inl (same, alike) ↦
        rw (← alike, lookup-insert_self {V = CallAt j} c (queueing id b) s.callers) same
    | inr old ↦ keeps s c (queueing id b) here (λ i x. absurd x) inv i d old
  ]

  forgets-AreOpen :
      (s : Conn j A) (c : ℕ) (id : String) {o : Outcome j}
      → lookup c s.callers ≡ some (leaving id o)
      → AreOpen s
      → (i : String) (d : ℕ) → lookup i (delete id s.pending) ≡ some d
      → IsOpen j i (lookup d (insert c (finished id o) s.callers))
  forgets-AreOpen s c id {o} here inv i d h = elim (==_cases id i) [
    | inl t ↦ absurd (ground (arith, lookup-delete id i s.pending, t.0))
    | inr f ↦
        let old = lookup-delete-some id i s.pending h in
        elim (==_cases c d) [
          | inl u ↦ absurd (
              f.1
                (subst (IsOpen j i) (ap (λ x. lookup x s.callers) (sym u.1) ∙ here) (inv i d old)))
          | inr g ↦
              rw (lookup-insert {V = CallAt j} c d (finished id o) s.callers, g.0) (inv i d old)
        ]
  ]

  Step-AreOpen :
      {s t : Conn j A} {fresh : List j.Bytes} → Step j A handle s fresh t → AreOpen s → AreOpen t
  Step-AreOpen {s} (begins c action v new e) inv = keeps s c _ new (λ i x. absurd x) inv
  Step-AreOpen {s} (begins_badly c action v new e) inv = keeps s c _ new (λ i x. absurd x) inv
  Step-AreOpen {s} (enters c {id} h) inv = enters-AreOpen s c id h inv
  Step-AreOpen {s} (queues c h room) inv = keeps s c _ h (λ i x. x) inv
  Step-AreOpen {s} (gives_up_early c h off) inv = keeps s c _ h (λ i x. x) inv
  Step-AreOpen {s} (cancels_early c h) inv = keeps s c _ h (λ i x. x) inv
  Step-AreOpen {s} (receives c h r) inv = keeps s c _ h (λ i x. x) inv
  Step-AreOpen {s} (times_out c h) inv = keeps s c _ h (λ i x. x) inv
  Step-AreOpen {s} (gives_up c h off) inv = keeps s c _ h (λ i x. x) inv
  Step-AreOpen {s} (cancels c h) inv = keeps s c _ h (λ i x. x) inv
  Step-AreOpen {s} (forgets c {id} h) inv = forgets-AreOpen s c id h inv
  Step-AreOpen _ inv = inv

  -- On every run of a connection, an entry of the map of unanswered calls belongs to a call under its
  -- message id that has not returned: however a call ends, its entry does not outlive it.
  pub pending-IsOpen :
      {a : A} {heard : List j.Bytes} {s : Conn j A}
      → Reach j A handle a heard s
      → (id : String) (c : ℕ) → lookup id s.pending ≡ some c
      → IsOpen j id (lookup c s.callers)
  unfolding lookup
  pending-IsOpen start id c h = absurd (cc (h))
  pending-IsOpen (later r st) id c h = Step-AreOpen st (pending-IsOpen r) id c h
