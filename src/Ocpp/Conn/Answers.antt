-- ===== src/Ocpp/Conn/Answers.antt =====
-- Where the answers come from that `Call` of internal/ocpp/ocppj/conn.go returns.
pub mod Kept
use mathlib.Core.List.Memᴰ
use mathlib.Core.List.{Memᴰ}
use headless_csms.Prelude.{◌++◌}
use headless_csms.Ocpp.Conn.Step.{
  Reach, start, later, begins, begins_badly, enters, queues, gives_up_early, cancels_early,
  receives, times_out, gives_up, cancels, forgets, reads, reads_badly, answers, answers_nobody,
  passes, passes_to_nobody, finds, finds_nobody, delivers,
}
use headless_csms.Prelude.{
  ℕ, ◌≡◌, refl, sym, ap, ◌∙◌, String, List, ◌∷◌, Option, none, some, ok, err, lookup, insert,
  nat_eq, string_eq, int_eq, ==_cases, lookup-insert, inl, inr, delete, Option-cases,
  lookup-insert-some, subst, subst₂, lookup-delete-some,
}
use headless_csms.Ocpp.Frame.{Json, Frame, Parsed, parse_frame, call, call_result, call_error}
use headless_csms.Ocpp.Conn.{
  Reply, payload, rpc_error, Reader, finding, delivering, or_reading, after_frame, after_read,
  call_error_message, reading, Handled,
}
use headless_csms.Ocpp.Conn.Step.{
  CallAt, Outcome, answered, refused, numbered, queueing, waiting, leaving, finished, offer,
  outcome, Conn, Step, Reach,
}
use headless_csms.Ocpp.Conn.Pending.{IsOpen, pending-IsOpen}

module _ (j : Json) where
  -- What a message of the peer says as an answer.
  abbrev pub Says : Frame j → Reply j → Type 0
  Says f (payload p) = (f.message_type ≡ call_result) × (f.payload ≡ p)
  Says f (rpc_error code description) =
      (f.message_type ≡ call_error) × (f.error_code ≡ code) × (f.error_description ≡ description)

  -- A message that has been read gives this answer under this id.
  pub record Heard (heard : List j.Bytes) (id : String) (r : Reply j) : Type 0 where
    pub message : j.Bytes
    pub frame : Frame j
    pub read : Memᴰ message heard
    pub parsed : parse_frame j message ≡ ok frame
    pub under : frame.id ≡ id
    pub says : Says frame r

  abbrev pub OutcomeHeard : List j.Bytes → String → Outcome j → Type 0
  OutcomeHeard heard id (answered p) = Heard heard id (payload p)
  OutcomeHeard heard id (refused code description) = Heard heard id (rpc_error code description)
  OutcomeHeard heard id _ = Unit

  abbrev pub CallHeard : List j.Bytes → Option (CallAt j) → Type 0
  CallHeard heard (some (leaving id o)) = OutcomeHeard heard id o
  CallHeard heard (some (finished id o)) = OutcomeHeard heard id o
  CallHeard heard _ = Unit

  abbrev pub id_of : Option (CallAt j) → Option String
  id_of none = none
  id_of (some (numbered id b)) = some id
  id_of (some (queueing id b)) = some id
  id_of (some (waiting id)) = some id
  id_of (some (leaving id o)) = some id
  id_of (some (finished id o)) = some id

  -- An answer on its way to a call.
  pub record Sent (heard : List j.Bytes) (callers : List (ℕ × CallAt j)) (c : ℕ) (r : Reply j)
      : Type 0 where
    pub id : String
    pub own : id_of (lookup c callers) ≡ some id
    pub answer : Heard heard id r

  abbrev pub ReaderHeard : List j.Bytes → List (ℕ × CallAt j) → Reader j → Type 0
  ReaderHeard heard callers (finding id r) = Heard heard id r
  ReaderHeard heard callers (delivering c r) = Sent heard callers c r
  ReaderHeard heard callers _ = Unit

  Heard-more :
      (b : j.Bytes) {heard : List j.Bytes} {id : String} {r : Reply j}
      → Heard heard id r
      → Heard (b ∷ heard) id r
  Heard-more b h = record {
    message = h.message;
    frame = h.frame;
    read = Memᴰ.tail h.read;
    parsed = h.parsed;
    under = h.under;
    says = h.says;
  }

  OutcomeHeard-more :
      (b : j.Bytes) (heard : List j.Bytes) (id : String) (o : Outcome j)
      → OutcomeHeard heard id o
      → OutcomeHeard (b ∷ heard) id o
  OutcomeHeard-more b heard id (answered p) h = Heard-more b h
  OutcomeHeard-more b heard id (refused code description) h = Heard-more b h
  OutcomeHeard-more b heard id _ h = h

  pub CallHeard-more :
      (b : j.Bytes) (heard : List j.Bytes) (p : Option (CallAt j))
      → CallHeard heard p
      → CallHeard (b ∷ heard) p
  CallHeard-more b heard (some (leaving id o)) h = OutcomeHeard-more b heard id o h
  CallHeard-more b heard (some (finished id o)) h = OutcomeHeard-more b heard id o h
  CallHeard-more b heard _ h = h

  pub Sent-more :
      (b : j.Bytes) {heard : List j.Bytes} {callers : List (ℕ × CallAt j)} {c : ℕ} {r : Reply j}
      → Sent heard callers c r
      → Sent (b ∷ heard) callers c r
  Sent-more b h = record { id = h.id; own = h.own; answer = Heard-more b h.answer }

  after_frame-Heard :
      (b : j.Bytes) (heard : List j.Bytes) (callers : List (ℕ × CallAt j)) (f : Frame j)
      → parse_frame j b ≡ ok f
      → ReaderHeard (b ∷ heard) callers (after_frame j f)
  unfolding after_frame
  after_frame-Heard b heard callers f e = elim (==_cases f.message_type call) [
    | inl t ↦ rw (t.0) tt
    | inr n ↦ elim (==_cases f.message_type call_result) [
      | inl t ↦ rw (n.0, t.0) (given (payload f.payload) (t.1, refl))
      | inr m ↦ elim (==_cases f.message_type call_error) [
        | inl t ↦
            rw (n.0, m.0, t.0)
              (given (rpc_error f.error_code f.error_description) (t.1, refl, refl))
        | inr l ↦ rw (n.0, m.0, l.0) tt
      ]
    ]
  ]
    where
      given : (r : Reply j) → Says f r → Heard (b ∷ heard) f.id r
      given r says = record {
        message = b;
        frame = f;
        read = Memᴰ.head refl;
        parsed = e;
        under = refl;
        says = says;
      }

  pub after_read-Heard :
      (b : j.Bytes) (heard : List j.Bytes) (callers : List (ℕ × CallAt j)) (m : Parsed j)
      → parse_frame j b ≡ m
      → ReaderHeard (b ∷ heard) callers (after_read j m)
  unfolding after_read
  after_read-Heard b heard callers (err (id, e)) h = silent (call_error_message j id e none)
    where
      silent : (m : Option j.Bytes) → ReaderHeard (b ∷ heard) callers (or_reading j m)
      silent none = tt
      silent (some x) = tt
  after_read-Heard b heard callers (ok f) h = after_frame-Heard b heard callers f h

  pub IsOpen-id_of : (id : String) (p : Option (CallAt j)) → IsOpen j id p → id_of p ≡ some id
  IsOpen-id_of id (some (queueing i b)) h = ap some h
  IsOpen-id_of id (some (waiting i)) h = ap some h
  IsOpen-id_of id (some (leaving i o)) h = ap some h
  IsOpen-id_of id (some (numbered i b)) h = absurd h
  IsOpen-id_of id (some (finished i o)) h = absurd h
  IsOpen-id_of id none h = absurd h

  -- A caller keeps its id, or has none yet.
  abbrev pub Keeps : Option (CallAt j) → CallAt j → Type 0
  Keeps old new = (id : String) → id_of old ≡ some id → id_of (some new) ≡ some id

  pub Sent-goes :
      {heard : List j.Bytes} (callers : List (ℕ × CallAt j)) (c : ℕ) {old : Option (CallAt j)}
      (new : CallAt j)
      → lookup c callers ≡ old
      → Keeps old new
      → {d : ℕ} {r : Reply j} → Sent heard callers d r
      → Sent heard (insert c new callers) d r
  Sent-goes callers c new here keep {d} s = record {
    id = s.id;
    answer = s.answer;
    own = elim (==_cases c d) [
      | inl t ↦
          rw (lookup-insert c d new callers, t.0)
            (keep s.id (ap id_of (sym here ∙ ap (λ x. lookup x callers) t.1) ∙ s.own))
      | inr f ↦ rw (lookup-insert c d new callers, f.0) s.own
    ];
  }
