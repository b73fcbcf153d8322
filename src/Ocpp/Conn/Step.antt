-- ===== src/Ocpp/Conn/Step.antt =====
-- internal/ocpp/ocppj/conn.go: the state of a connection, and what its goroutines and the callers of
-- `Call` do between two accesses to what they share. They interleave in any order.
use Prim.Native.Nat.{ℕ, ◌+◌, ◌%◌, ◌^◌, ◌<◌}
use headless_csms.Prelude.{
  ◌≡◌, String, Bool, true, false, List, [], ◌∷◌, ◌++◌, length, Option, none, some, pos, ok, err,
  lookup, insert, delete, nat_eq, string_eq,
}
use headless_csms.Text.{itoa}
use headless_csms.Ocpp.Frame.{Json, Frame, parse_frame, encode_call}
use headless_csms.Ocpp.Conn.{
  close_reason, Handled, Reply, payload, rpc_error, answer_message, Reader, reading, answering,
  passing, finding, delivering, ended, after_read,
}

-- Sending blocks at this many.
abbrev pub send_buffer : ℕ
send_buffer = 32

abbrev pub call_buffer : ℕ
call_buffer = 64

-- `nextID.Add(1)`, on a uint64.
abbrev pub next : ℕ → ℕ
next n = (n + 1) % 2 ^ 64

module _ (j : Json) where
  -- How `Call` ends: with what the peer sent, or without.
  pub data Outcome : Type 0 where
    answered : Option j.Raw → Outcome
    refused : String → String → Outcome
    not_encoded : String → Outcome
    timed_out conn_closed cancelled : Outcome

  -- How far a `Call` has come, with its message id: numbered; in the map, before the send; waiting for
  -- the answer; with its outcome, before the deferred `forget`; and returned.
  pub data CallAt : Type 0 where
    numbered queueing : String → j.Bytes → CallAt
    waiting : String → CallAt
    leaving finished : String → Outcome → CallAt

  -- `handleLoop`: before its select, in the `enqueue` of an answer, and returned.
  pub data HandlerAt : Type 0 where
    idle : HandlerAt
    sending : j.Bytes → HandlerAt
    stopped : HandlerAt

  abbrev pub or_idle : Option j.Bytes → HandlerAt
  or_idle none = idle
  or_idle (some b) = sending b

  abbrev pub outcome : Reply j → Outcome
  outcome (payload p) = answered p
  outcome (rpc_error code description) = refused code description

  -- A channel of one place: with an answer in it, a second is dropped.
  abbrev pub offer : ℕ → Reply j → Option (Reply j) → List (ℕ × Reply j) → List (ℕ × Reply j)
  offer c r none m = insert c r m
  offer c r (some old) m = m

  -- `A` is the state that the handler works on.
  module _ (A : Type 0) where
    -- A `Call` and its channel are told apart by a number, which is not its message id.
    pub record Conn : Type 0 where
      pub next_id : ℕ
      pub pending : List (String × ℕ)
      pub channels : List (ℕ × Reply j)
      pub callers : List (ℕ × CallAt)
      pub send : List j.Bytes
      pub calls : List (Frame j)
      pub reader : Reader j
      pub handler : HandlerAt
      pub writing : Bool
      pub wire : List j.Bytes
      pub closed : Bool
      pub app : A

    abbrev pub at_call : ℕ → CallAt → Conn → Conn
    at_call c p s = record s { callers = insert c p s.callers }

    abbrev pub enqueued : j.Bytes → Conn → Conn
    enqueued b s = record s { send = s.send ++ b ∷ [] }

    -- A step, with the messages it has read.
    pub data Step (handle : Frame j → A → Handled j × A) (s : Conn)
        : List j.Bytes → Conn → Type 0 where
      -- `Call`.
      begins :
          (c : ℕ) (action : String) (v : Option j.Value) {b : j.Bytes}
          → lookup c s.callers ≡ none
          → encode_call j (itoa (pos (next s.next_id))) action v ≡ ok b
          → Step handle s [] (
              at_call c
                (numbered (itoa (pos (next s.next_id))) b)
                (record s { next_id = next s.next_id }))
      begins_badly :
          (c : ℕ) (action : String) (v : Option j.Value) {text : String}
          → lookup c s.callers ≡ none
          → encode_call j (itoa (pos (next s.next_id))) action v ≡ err text
          → Step handle s [] (
              at_call c
                (finished (itoa (pos (next s.next_id))) (not_encoded text))
                (record s { next_id = next s.next_id }))
      enters :
          (c : ℕ) {id : String} {b : j.Bytes}
          → lookup c s.callers ≡ some (numbered id b)
          → Step handle s []
              (at_call c (queueing id b) (record s { pending = insert id c s.pending }))
      queues :
          (c : ℕ) {id : String} {b : j.Bytes}
          → lookup c s.callers ≡ some (queueing id b)
          → length s.send < send_buffer
          → Step handle s [] (at_call c (waiting id) (enqueued b s))
      gives_up_early :
          (c : ℕ) {id : String} {b : j.Bytes}
          → lookup c s.callers ≡ some (queueing id b)
          → s.closed ≡ true
          → Step handle s [] (at_call c (leaving id conn_closed) s)
      cancels_early :
          (c : ℕ) {id : String} {b : j.Bytes}
          → lookup c s.callers ≡ some (queueing id b)
          → Step handle s [] (at_call c (leaving id cancelled) s)
      receives :
          (c : ℕ) {id : String} {r : Reply j}
          → lookup c s.callers ≡ some (waiting id)
          → lookup c s.channels ≡ some r
          → Step handle s []
              (at_call c (leaving id (outcome r)) (record s { channels = delete c s.channels }))
      times_out :
          (c : ℕ) {id : String}
          → lookup c s.callers ≡ some (waiting id)
          → Step handle s [] (at_call c (leaving id timed_out) s)
      gives_up :
          (c : ℕ) {id : String}
          → lookup c s.callers ≡ some (waiting id)
          → s.closed ≡ true
          → Step handle s [] (at_call c (leaving id conn_closed) s)
      cancels :
          (c : ℕ) {id : String}
          → lookup c s.callers ≡ some (waiting id)
          → Step handle s [] (at_call c (leaving id cancelled) s)
      forgets :
          (c : ℕ) {id : String} {o : Outcome}
          → lookup c s.callers ≡ some (leaving id o)
          → Step handle s []
              (at_call c (finished id o) (record s { pending = delete id s.pending }))
      -- `readLoop`, `deliver` and `enqueue`.
      reads :
          (b : j.Bytes)
          → s.reader ≡ reading
          → Step handle s (b ∷ []) (record s { reader = after_read j (parse_frame j b) })
      reads_badly :
          (timeout normal : Bool) (text : String)
          → s.reader ≡ reading
          → Step handle s [] (record s { reader = ended (close_reason timeout normal text) })
      answers :
          {b : j.Bytes}
          → s.reader ≡ answering b
          → length s.send < send_buffer
          → Step handle s [] (record (enqueued b s) { reader = reading })
      answers_nobody :
          {b : j.Bytes}
          → s.reader ≡ answering b
          → s.closed ≡ true
          → Step handle s [] (record s { reader = reading })
      passes :
          {f : Frame j}
          → s.reader ≡ passing f
          → length s.calls < call_buffer
          → Step handle s [] (record s { calls = s.calls ++ f ∷ []; reader = reading })
      passes_to_nobody :
          {f : Frame j}
          → s.reader ≡ passing f
          → s.closed ≡ true
          → Step handle s [] (record s { reader = ended "closed" })
      finds :
          {id : String} {r : Reply j} {c : ℕ}
          → s.reader ≡ finding id r
          → lookup id s.pending ≡ some c
          → Step handle s [] (record s { reader = delivering c r })
      finds_nobody :
          {id : String} {r : Reply j}
          → s.reader ≡ finding id r
          → lookup id s.pending ≡ none
          → Step handle s [] (record s { reader = reading })
      delivers :
          {c : ℕ} {r : Reply j}
          → s.reader ≡ delivering c r
          → Step handle s []
              (record s { channels = offer c r (lookup c s.channels) s.channels; reader = reading })
      -- `handleLoop`.
      handles :
          {f : Frame j} {fs : List (Frame j)}
          → s.handler ≡ idle
          → s.calls ≡ f ∷ fs
          → Step handle s [] (record s {
            calls = fs;
            app = (handle f s.app).1;
            handler = or_idle (answer_message j f.id (handle f s.app).0);
          })
      replies :
          {b : j.Bytes}
          → s.handler ≡ sending b
          → length s.send < send_buffer
          → Step handle s [] (record (enqueued b s) { handler = idle })
      replies_to_nobody :
          {b : j.Bytes}
          → s.handler ≡ sending b
          → s.closed ≡ true
          → Step handle s [] (record s { handler = idle })
      handler_returns :
          s.handler ≡ idle → s.closed ≡ true → Step handle s [] (record s { handler = stopped })
      -- `writeLoop`.
      writes :
          {b : j.Bytes} {bs : List j.Bytes}
          → s.writing ≡ true
          → s.send ≡ b ∷ bs
          → Step handle s [] (record s { send = bs; wire = s.wire ++ b ∷ [] })
      writes_badly :
          {b : j.Bytes} {bs : List j.Bytes}
          → s.writing ≡ true
          → s.send ≡ b ∷ bs
          → Step handle s [] (record s { send = bs; closed = true; writing = false })
      pings_badly :
          s.writing ≡ true → Step handle s [] (record s { closed = true; writing = false })
      writer_returns :
          s.writing ≡ true → s.closed ≡ true → Step handle s [] (record s { writing = false })
      -- `Close`, of `Run`, or of another goroutine.
      closes : Step handle s [] (record s { closed = true })

    -- `New`, with the handler's state.
    abbrev pub new_conn : A → Conn
    new_conn a = record {
      next_id = 0;
      pending = [];
      channels = [];
      callers = [];
      send = [];
      calls = [];
      reader = reading;
      handler = idle;
      writing = true;
      wire = [];
      closed = false;
      app = a;
    }

    -- A connection and all that it has read, the last message first.
    pub data Reach (handle : Frame j → A → Handled j × A) (a : A)
        : List j.Bytes → Conn → Type 0 where
      start : Reach handle a [] (new_conn a)
      later :
          {heard fresh : List j.Bytes} {s t : Conn}
          → Reach handle a heard s
          → Step handle s fresh t
          → Reach handle a (fresh ++ heard) t
