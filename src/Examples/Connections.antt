-- ===== src/Examples/Connections.antt =====
-- The results about a connection at concrete inputs, with the encoder of Frames.
use headless_csms.Prelude.{ℕ, ◌≡◌, refl, true, List, [], ◌∷◌, none, some, pos, lookup, arith}
use headless_csms.Text.{itoa, digits}
use headless_csms.Prelude.{insert, delete, nat_eq}
use headless_csms.Ocpp.Conn.{after_read, after_frame}
use headless_csms.Ocpp.Frame.{
  parse_frame, parse_array, parse_body, parse_call_result, encode_call, Frame, AreMarshalled,
}
use headless_csms.Ocpp.Conn.{Handled, returns, panics, answer_message}
use headless_csms.Ocpp.Conn.Step.{
  CallAt, Conn, Reach, start, handler_returns, stopped, later, begins, enters, queues, reads, finds,
  delivers, receives, forgets, new_conn, waiting, finished, answered,
}
use headless_csms.Ocpp.Conn.Pending.{IsOpen, pending-IsOpen}
use headless_csms.Ocpp.Conn.Endings.{HasMoved, CanEnd, now, then_on, closed-Ends}
use headless_csms.Ocpp.Conn.Answers.{OutcomeHeard}
use headless_csms.Ocpp.Conn.Answers.Kept.{answer-Heard}
use headless_csms.Ocpp.Conn.Replies.{IsStrict, IsAnswer, IsRead, answer_message-IsAnswer}
use headless_csms.Examples.Frames.{Token, number, text, object, tokens, tokens-IsJson}

abbrev ping : Frame tokens → ℕ → Handled tokens × ℕ
ping f n = (returns none, n)

abbrev C : Type 0
C = Conn tokens ℕ

abbrev question : List Token
question = number (pos 2) ∷ text "1" ∷ text "Reset" ∷ object ∷ []

abbrev reply : List Token
reply = number (pos 3) ∷ text "1" ∷ object ∷ []

abbrev waiting_conn : C
waiting_conn = record (new_conn tokens ℕ 0) {
  next_id = 1;
  pending = ("1", 0) ∷ [];
  callers = (0, waiting "1") ∷ [];
  send = question ∷ [];
}

abbrev answered_conn : C
answered_conn = record waiting_conn {
  pending = [];
  callers = (0, finished "1" (answered (some object))) ∷ [];
}

asked : Reach tokens ℕ ping 0 [] waiting_conn
unfolding encode_call itoa lookup insert digits
asked =
    later (later (later start (begins 0 "Reset" none refl refl)) (enters 0 refl))
      (queues 0 refl (omega arith))

heard : Reach tokens ℕ ping 0 (reply ∷ []) answered_conn
unfolding parse_frame parse_array parse_body parse_call_result after_read after_frame lookup insert
    delete
heard =
    later
      (later (later (later (later asked (reads reply refl)) (finds refl refl)) (delivers refl))
        (receives 0 refl refl))
      (forgets 0 refl)

pending-IsOpen_example : IsOpen tokens "1" (some (waiting "1"))
unfolding lookup
pending-IsOpen_example = pending-IsOpen tokens ℕ ping asked "1" 0 refl

abbrev closed_conn : C
closed_conn = record waiting_conn { closed = true }

-- Its handler loop has returned.
abbrev quiet_conn : C
quiet_conn = record closed_conn { handler = stopped }

closed-Ends_example :
    (quiet_conn.closed ≡ true)
    × ((q : CallAt tokens) × (lookup 0 quiet_conn.callers ≡ some q)
        × HasMoved tokens (waiting "1") q
        × CanEnd tokens ℕ ping quiet_conn 0 q)
unfolding lookup
closed-Ends_example =
    closed-Ends tokens ℕ ping closed_conn quiet_conn 0 (waiting "1") refl refl
      (then_on now (handler_returns refl refl))

answer-Heard_example : OutcomeHeard tokens (reply ∷ []) "1" (answered (some object))
unfolding lookup
answer-Heard_example = answer-Heard tokens ℕ ping heard 0 "1" (answered (some object)) refl

all_marshalled : (vs : List Token) → AreMarshalled tokens vs vs
all_marshalled [] = tt
all_marshalled (v ∷ vs) = (refl, all_marshalled vs)

tokens-IsStrict : IsStrict tokens
tokens-IsStrict vs b h = (vs, all_marshalled vs)

answer_message-IsAnswer_example :
    (f : Frame tokens) × IsAnswer tokens tokens-IsJson "7" panics f
    × IsRead tokens tokens-IsJson (answer_message tokens "7" panics) f
answer_message-IsAnswer_example =
    answer_message-IsAnswer tokens tokens-IsJson tokens-IsStrict object refl "7"
      (λ h. absurd (cc (h))) panics tt
