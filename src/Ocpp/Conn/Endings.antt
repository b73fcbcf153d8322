-- ===== src/Ocpp/Conn/Endings.antt =====
-- How a call of internal/ocpp/ocppj/conn.go ends when its connection does.
use Prim.Native.Nat.{ℕ, ◌<◌}
use headless_csms.Prelude.{
  ◌≡◌, refl, sym, ap, ◌∙◌, subst, ◌⊎◌, inl, inr, String, true, List, [], none, some, lookup, insert,
  delete, nat_eq, string_eq, ==_cases, lookup-insert, lookup-insert_self, lookup-insert_ne,
  lookup-delete_self, arith,
}
use headless_csms.Ocpp.Frame.{Json, Frame}
use headless_csms.Ocpp.Conn.{Handled}
use headless_csms.Ocpp.Conn.Step.{
  CallAt, Outcome, numbered, queueing, waiting, leaving, finished, conn_closed, Conn, Step, at_call,
  begins, begins_badly, enters, queues, gives_up_early, cancels_early, receives, times_out,
  gives_up, cancels, forgets, writes_badly, pings_badly, closes,
}

module _ (j : Json) where
  abbrev pub message_id : CallAt j → String
  message_id (numbered id b) = id
  message_id (queueing id b) = id
  message_id (waiting id) = id
  message_id (leaving id o) = id
  message_id (finished id o) = id

  -- How many steps a call has ahead of it at most.
  abbrev pub ahead : CallAt j → ℕ
  ahead (numbered id b) = 4
  ahead (queueing id b) = 3
  ahead (waiting id) = 2
  ahead (leaving id o) = 1
  ahead (finished id o) = 0

  -- A call is where it was, or under the same id with fewer steps ahead.
  abbrev pub HasMoved : CallAt j → CallAt j → Type 0
  HasMoved p q = (q ≡ p) ⊎ (message_id q ≡ message_id p) × (ahead q < ahead p)

  HasMoved-trans : (p q r : CallAt j) → HasMoved p q → HasMoved q r → HasMoved p r
  HasMoved-trans p q r (inl e) m = subst (λ x. HasMoved x r) e m
  HasMoved-trans p q r (inr m) (inl e) = subst (HasMoved p) (sym e) (inr m)
  HasMoved-trans p q r (inr (i, l)) (inr (k, l')) = inr (k ∙ i, omega arith)

  -- What a call on a closed connection returns that has no outcome yet: ErrConnClosed.
  abbrev pub ending : CallAt j → Outcome j
  ending (leaving id o) = o
  ending (finished id o) = o
  ending _ = conn_closed

module _ (j : Json) (A : Type 0) (handle : Frame j → A → Handled j × A) where
  -- Any steps, of whichever goroutines.
  pub data After (s : Conn j A) : Conn j A → Type 0 where
    now : After s s
    then_on :
        {t u : Conn j A} {fresh : List j.Bytes} → After s t → Step j A handle t fresh u → After s u

  -- Steps that read nothing.
  pub data Steps : Conn j A → Conn j A → Type 0 where
    done : {s : Conn j A} → Steps s s
    before : {s t u : Conn j A} → Step j A handle s [] t → Steps t u → Steps s u

  -- Steps after which the call has returned with this outcome, and its id is free.
  pub record Ends (s : Conn j A) (c : ℕ) (id : String) (how : Outcome j) : Type 0 where
    pub after : Conn j A
    pub steps : Steps s after
    pub returned : lookup c after.callers ≡ some (finished id how)
    pub forgotten : lookup id after.pending ≡ none

  earlier :
      {s t : Conn j A} {c : ℕ} {id : String} {how : Outcome j}
      → Step j A handle s [] t
      → Ends t c id how
      → Ends s c id how
  earlier st e = record {
    after = e.after;
    steps = before st e.steps;
    returned = e.returned;
    forgotten = e.forgotten;
  }

  leaving-Ends :
      (s : Conn j A) (c : ℕ) (id : String) (o : Outcome j)
      → lookup c s.callers ≡ some (leaving id o)
      → Ends s c id o
  leaving-Ends s c id o h = earlier (forgets c h) (record {
    after = at_call j A c (finished id o) (record s { pending = delete id s.pending });
    steps = done;
    returned = lookup-insert_self c (finished id o) s.callers;
    forgotten = lookup-delete_self id s.pending;
  })

  queueing-Ends :
      (s : Conn j A) (c : ℕ) (id : String) (b : j.Bytes)
      → s.closed ≡ true
      → lookup c s.callers ≡ some (queueing id b)
      → Ends s c id conn_closed
  queueing-Ends s c id b off h =
      let t : Conn j A = at_call j A c (leaving id conn_closed) s in
      earlier (gives_up_early c h off)
        (leaving-Ends t c id conn_closed (lookup-insert_self c (leaving id conn_closed) s.callers))

  -- A call has returned, or it can go on on its own to where it has.
  abbrev pub CanEnd : Conn j A → ℕ → CallAt j → Type 0
  CanEnd s c q = (ahead j q ≡ 0) ⊎ Ends s c (message_id j q) (ending j q)

  closed-CanEnd :
      (s : Conn j A) (c : ℕ) (q : CallAt j)
      → s.closed ≡ true
      → lookup c s.callers ≡ some q
      → CanEnd s c q
  closed-CanEnd s c (numbered id b) off h =
      let t : Conn j A =
        at_call j A c (queueing id b) (record s { pending = insert id c s.pending }) in
      inr (
        earlier (enters c h)
          (queueing-Ends t c id b off (lookup-insert_self c (queueing id b) s.callers)))
  closed-CanEnd s c (queueing id b) off h = inr (queueing-Ends s c id b off h)
  closed-CanEnd s c (waiting id) off h =
      let t : Conn j A = at_call j A c (leaving id conn_closed) s in
      inr (
        earlier (gives_up c h off) (
          leaving-Ends t c id conn_closed
            (lookup-insert_self c (leaving id conn_closed) s.callers)))
  closed-CanEnd s c (leaving id o) off h = inr (leaving-Ends s c id o h)
  closed-CanEnd s c (finished id o) off h = inl refl

  Step-closed :
      {s t : Conn j A} {fresh : List j.Bytes}
      → Step j A handle s fresh t
      → s.closed ≡ true
      → t.closed ≡ true
  Step-closed (writes_badly w e) off = refl
  Step-closed (pings_badly w) off = refl
  Step-closed closes off = refl
  Step-closed _ off = off

  -- Where a call is, that was at `p`.
  abbrev IsFrom : Conn j A → ℕ → CallAt j → Type 0
  IsFrom t c p = (q : CallAt j) × (lookup c t.callers ≡ some q) × HasMoved j p q

  -- A step of the call `d`, seen from the call `c`.
  moves :
      (s : Conn j A) (c d : ℕ) {old : CallAt j} (new p : CallAt j)
      → lookup d s.callers ≡ some old
      → HasMoved j old new
      → lookup c s.callers ≡ some p
      → (q : CallAt j) × (lookup c (insert d new s.callers) ≡ some q) × HasMoved j p q
  moves s c d {old} new p here m h = elim (==_cases d c) [
    | inl t ↦
        let same : old ≡ p = cc (sym here ∙ ap (λ i. lookup i s.callers) t.1 ∙ h) in
        (new, rw (lookup-insert d c new s.callers, t.0) refl, subst (λ x. HasMoved j x new) same m)
    | inr f ↦ (p, lookup-insert_ne d c new s.callers f.0 ∙ h, inl refl)
  ]

  -- A new call is another one.
  appears :
      (s : Conn j A) (c d : ℕ) (new p : CallAt j)
      → lookup d s.callers ≡ none
      → lookup c s.callers ≡ some p
      → (q : CallAt j) × (lookup c (insert d new s.callers) ≡ some q) × HasMoved j p q
  appears s c d new p here h = elim (==_cases d c) [
    | inl t ↦ absurd (cc (sym here ∙ ap (λ i. lookup i s.callers) t.1 ∙ h))
    | inr f ↦ (p, lookup-insert_ne d c new s.callers f.0 ∙ h, inl refl)
  ]

  Step-IsFrom :
      {s t : Conn j A} {fresh : List j.Bytes} (c : ℕ) (p : CallAt j)
      → Step j A handle s fresh t
      → lookup c s.callers ≡ some p
      → IsFrom t c p
  Step-IsFrom {s} c p (begins d action v new e) h = appears s c d _ p new h
  Step-IsFrom {s} c p (begins_badly d action v new e) h = appears s c d _ p new h
  Step-IsFrom {s} c p (enters d here) h = moves s c d _ p here (inr (refl, omega arith)) h
  Step-IsFrom {s} c p (queues d here room) h = moves s c d _ p here (inr (refl, omega arith)) h
  Step-IsFrom {s} c p (gives_up_early d here off) h =
      moves s c d _ p here (inr (refl, omega arith)) h
  Step-IsFrom {s} c p (cancels_early d here) h = moves s c d _ p here (inr (refl, omega arith)) h
  Step-IsFrom {s} c p (receives d here r) h = moves s c d _ p here (inr (refl, omega arith)) h
  Step-IsFrom {s} c p (times_out d here) h = moves s c d _ p here (inr (refl, omega arith)) h
  Step-IsFrom {s} c p (gives_up d here off) h = moves s c d _ p here (inr (refl, omega arith)) h
  Step-IsFrom {s} c p (cancels d here) h = moves s c d _ p here (inr (refl, omega arith)) h
  Step-IsFrom {s} c p (forgets d here) h = moves s c d _ p here (inr (refl, omega arith)) h
  Step-IsFrom {s} c p _ h = (p, h, inl refl)

  After-closed : {s t : Conn j A} → After s t → s.closed ≡ true → t.closed ≡ true
  After-closed now off = off
  After-closed (then_on a st) off = Step-closed st (After-closed a off)

  After-IsFrom :
      {s t : Conn j A} (c : ℕ) (p : CallAt j)
      → After s t
      → lookup c s.callers ≡ some p
      → IsFrom t c p
  After-IsFrom c p now h = (p, h, inl refl)
  After-IsFrom c p (then_on a st) h =
      let (q, e, m) = After-IsFrom c p a h in
      let (r, f, m') = Step-IsFrom c q st e in (r, f, HasMoved-trans j p q r m m')

  -- A connection that is closed stays closed, and whatever steps any of its goroutines and callers
  -- take from then on, each call stays under its id and has fewer steps ahead if it has moved, at most
  -- four in all. Wherever it then stands, it has returned, or it can go on to its end without the peer:
  -- it returns ErrConnClosed, or the outcome that it had already, and its id is then free.
  pub closed-Ends :
      (s t : Conn j A) (c : ℕ) (p : CallAt j)
      → s.closed ≡ true
      → lookup c s.callers ≡ some p
      → After s t
      → (t.closed ≡ true)
        × ((q : CallAt j) × (lookup c t.callers ≡ some q) × HasMoved j p q × CanEnd t c q)
  closed-Ends s t c p off h a =
      let still = After-closed a off in
      let (q, e, m) = After-IsFrom c p a h in (still, (q, e, m, closed-CanEnd t c q still e))
