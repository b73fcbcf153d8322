-- ===== src/Ocpp/Conn/Answers/Kept.antt =====
-- The steps of internal/ocpp/ocppj/conn.go, and the answers on their way through it.
use headless_csms.Prelude.{◌++◌}
use headless_csms.Ocpp.Conn.Step.{
  Reach, start, later, begins, begins_badly, enters, queues, gives_up_early, cancels_early,
  receives, times_out, gives_up, cancels, forgets, reads, reads_badly, answers, answers_nobody,
  passes, passes_to_nobody, finds, finds_nobody, delivers,
}
use headless_csms.Prelude.{
  ℕ, ◌≡◌, refl, sym, ap, ◌∙◌, String, List, ◌∷◌, Option, some, lookup, insert, nat_eq, string_eq,
  int_eq, ==_cases, lookup-insert, inl, inr, delete, Option-cases, lookup-insert-some, subst,
  subst₂, lookup-delete-some,
}
use headless_csms.Ocpp.Frame.{Json, Frame, parse_frame}
use headless_csms.Ocpp.Conn.{
  Reply, payload, rpc_error, Reader, finding, delivering, after_read, reading, Handled,
}
use headless_csms.Ocpp.Conn.Step.{
  CallAt, Outcome, waiting, leaving, finished, offer, outcome, Conn, Step, Reach,
}
use headless_csms.Ocpp.Conn.Pending.{IsOpen, pending-IsOpen}
use headless_csms.Ocpp.Conn.Answers.{
  OutcomeHeard, CallHeard, id_of, Sent, ReaderHeard, Keeps, Sent-more, CallHeard-more,
  after_read-Heard, IsOpen-id_of, Sent-goes, Heard,
}

module _ (j : Json) where
  -- The answers on their way and those that calls have returned come from messages that were read.
  record Inv (heard : List j.Bytes) (channels : List (ℕ × Reply j)) (callers : List (ℕ × CallAt j))
      (reader : Reader j) : Type 0 where
    on_way : (c : ℕ) (r : Reply j) → lookup c channels ≡ some r → Sent j heard callers c r
    in_reader : ReaderHeard j heard callers reader
    in_calls : (c : ℕ) → CallHeard j heard (lookup c callers)

  reader-goes :
      (heard : List j.Bytes) (callers : List (ℕ × CallAt j)) (c : ℕ) {old : Option (CallAt j)}
      (new : CallAt j)
      → lookup c callers ≡ old
      → Keeps j old new
      → (reader : Reader j) → ReaderHeard j heard callers reader
      → ReaderHeard j heard (insert c new callers) reader
  reader-goes heard callers c new here keep (finding id r) h = h
  reader-goes heard callers c new here keep (delivering d r) h =
      Sent-goes j callers c new here keep h
  reader-goes heard callers c new here keep _ h = h

  -- A step of a caller.
  goes-Inv :
      {heard : List j.Bytes} {channels : List (ℕ × Reply j)} {callers : List (ℕ × CallAt j)}
      {reader : Reader j} (c : ℕ) {old : Option (CallAt j)} (new : CallAt j)
      → lookup c callers ≡ old
      → Keeps j old new
      → CallHeard j heard (some new)
      → Inv heard channels callers reader
      → Inv heard channels (insert c new callers) reader
  goes-Inv {heard} {channels} {callers} {reader} c new here keep said inv = record {
    on_way = λ d r h. Sent-goes j callers c new here keep (inv.on_way d r h);
    in_reader = reader-goes heard callers c new here keep reader inv.in_reader;
    in_calls = λ d. elim (==_cases c d) [
      | inl t ↦ rw (lookup-insert c d new callers, t.0) said
      | inr f ↦ rw (lookup-insert c d new callers, f.0) (inv.in_calls d)
    ];
  }

  -- The reader goes on.
  reads-Inv :
      {heard : List j.Bytes} {channels : List (ℕ × Reply j)} {callers : List (ℕ × CallAt j)}
      {reader : Reader j} (new : Reader j)
      → ReaderHeard j heard callers new
      → Inv heard channels callers reader
      → Inv heard channels callers new
  reads-Inv new h inv = record { on_way = inv.on_way; in_reader = h; in_calls = inv.in_calls }

  more-Inv :
      (b : j.Bytes) {heard : List j.Bytes} {channels : List (ℕ × Reply j)}
      {callers : List (ℕ × CallAt j)} {reader : Reader j}
      → Inv heard channels callers reader
      → Inv (b ∷ heard) channels callers reading
  more-Inv b {heard} {callers} inv = record {
    on_way = λ d r h. Sent-more j b (inv.on_way d r h);
    in_reader = tt;
    in_calls = λ d. CallHeard-more j b heard (lookup d callers) (inv.in_calls d);
  }

  offer-Inv :
      {heard : List j.Bytes} {channels : List (ℕ × Reply j)} {callers : List (ℕ × CallAt j)}
      {reader : Reader j} (c : ℕ) (r : Reply j)
      → Sent j heard callers c r
      → Inv heard channels callers reader
      → Inv heard (offer j c r (lookup c channels) channels) callers reading
  offer-Inv {heard} {channels} {callers} c r sent inv = elim (Option-cases (lookup c channels)) [
    | inl e ↦ rw e (record {
      on_way = λ d x h. elim (lookup-insert-some c d r channels h) [
        | inl (same, alike) ↦
            subst₂ (λ (d : ℕ) (x : Reply j). Sent j heard callers d x) same alike sent
        | inr old ↦ inv.on_way d x old
      ];
      in_reader = tt;
      in_calls = inv.in_calls;
    })
    | inr (x, e) ↦ rw e (reads-Inv reading tt inv)
  ]

  receive-Inv :
      {heard : List j.Bytes} {channels : List (ℕ × Reply j)} {callers : List (ℕ × CallAt j)}
      {reader : Reader j} (c : ℕ) (id : String) (r : Reply j)
      → lookup c callers ≡ some (waiting id)
      → lookup c channels ≡ some r
      → Inv heard channels callers reader
      → Inv heard (delete c channels) (insert c (leaving id (outcome j r)) callers) reader
  receive-Inv {heard} {channels} {callers} c id r here h inv =
      goes-Inv c (leaving id (outcome j r)) here (λ i x. x) (said r sent.answer)
        (record {
          on_way = λ d x g. inv.on_way d x (lookup-delete-some c d channels g);
          in_reader = inv.in_reader;
          in_calls = inv.in_calls;
        })
    where
      sent : Sent j heard callers c r
      sent = inv.on_way c r h

      own : sent.id ≡ id
      own = let same : some sent.id ≡ some id = sym sent.own ∙ ap (id_of j) here in cc (same)

      said : (x : Reply j) → Heard j heard sent.id x → OutcomeHeard j heard id (outcome j x)
      said (payload p) g = subst (λ i. Heard j heard i (payload p)) own g
      said (rpc_error code text) g = subst (λ i. Heard j heard i (rpc_error code text)) own g

  module _ (A : Type 0) (handle : Frame j → A → Handled j × A) where
    abbrev Kept : List j.Bytes → Conn j A → Type 0
    Kept heard s = Inv heard s.channels s.callers s.reader

    Step-Kept :
        {s t : Conn j A} {fresh heard : List j.Bytes}
        → Step j A handle s fresh t
        → ((id : String) (c : ℕ) → lookup id s.pending ≡ some c → IsOpen j id (lookup c s.callers))
        → Kept heard s
        → Kept (fresh ++ heard) t
    Step-Kept (begins c action v new e) held inv = goes-Inv c _ new (λ i x. absurd (cc (x))) tt inv
    Step-Kept (begins_badly c action v new e) held inv =
        goes-Inv c _ new (λ i x. absurd (cc (x))) tt inv
    Step-Kept (enters c h) held inv = goes-Inv c _ h (λ i x. x) tt inv
    Step-Kept (queues c h room) held inv = goes-Inv c _ h (λ i x. x) tt inv
    Step-Kept (gives_up_early c h off) held inv = goes-Inv c _ h (λ i x. x) tt inv
    Step-Kept (cancels_early c h) held inv = goes-Inv c _ h (λ i x. x) tt inv
    Step-Kept (receives c {id} {r} h e) held inv = receive-Inv c id r h e inv
    Step-Kept (times_out c h) held inv = goes-Inv c _ h (λ i x. x) tt inv
    Step-Kept (gives_up c h off) held inv = goes-Inv c _ h (λ i x. x) tt inv
    Step-Kept (cancels c h) held inv = goes-Inv c _ h (λ i x. x) tt inv
    Step-Kept {s} {heard} (forgets c {id} {o} h) held inv =
        goes-Inv c (finished id o) h (λ i x. x) (subst (CallHeard j heard) h (inv.in_calls c)) inv
    Step-Kept {s} {heard} (reads b h) held inv =
        reads-Inv (after_read j (parse_frame j b))
          (after_read-Heard j b heard s.callers (parse_frame j b) refl) (more-Inv b inv)
    Step-Kept (reads_badly timeout normal text h) held inv = reads-Inv _ tt inv
    Step-Kept (answers h room) held inv = reads-Inv _ tt inv
    Step-Kept (answers_nobody h off) held inv = reads-Inv _ tt inv
    Step-Kept (passes h room) held inv = reads-Inv _ tt inv
    Step-Kept (passes_to_nobody h off) held inv = reads-Inv _ tt inv
    Step-Kept {s} {heard} (finds {id} {r} {c} h e) held inv =
        let said : ReaderHeard j heard s.callers (finding id r) =
          subst (ReaderHeard j heard s.callers) h inv.in_reader in
        reads-Inv (delivering c r)
          (record {
            id = id;
            own = IsOpen-id_of j id (lookup c s.callers) (held id c e);
            answer = said;
          })
          inv
    Step-Kept (finds_nobody h e) held inv = reads-Inv _ tt inv
    Step-Kept {s} {heard} (delivers {c} {r} h) held inv =
        let sent : ReaderHeard j heard s.callers (delivering c r) =
          subst (ReaderHeard j heard s.callers) h inv.in_reader in
        offer-Inv c r sent inv
    Step-Kept _ held inv = inv

    Reach-Kept :
        {a : A} {heard : List j.Bytes} {s : Conn j A} → Reach j A handle a heard s → Kept heard s
    unfolding lookup
    Reach-Kept start = record {
      on_way = λ c r h. absurd (cc (h));
      in_reader = tt;
      in_calls = λ c. tt;
    }
    Reach-Kept (later r st) = Step-Kept st (pending-IsOpen j A handle r) (Reach-Kept r)

    -- On every run of a connection, a call that has returned an answer has the one of a message that was
    -- read: a result of the same id with that payload, or an error of the same id with that code and
    -- description.
    pub answer-Heard :
        {a : A} {heard : List j.Bytes} {s : Conn j A}
        → Reach j A handle a heard s
        → (c : ℕ) (id : String) (o : Outcome j) → lookup c s.callers ≡ some (finished id o)
        → OutcomeHeard j heard id o
    answer-Heard {heard} r c id o h = subst (CallHeard j heard) h ((Reach-Kept r).in_calls c)
