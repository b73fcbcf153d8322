-- ===== src/Ocpp/Conn.antt =====
-- internal/ocpp/ocppj/conn.go: how an inbound message is answered, and the connection as the steps of
-- its goroutines.
pub mod Step
pub mod Pending
pub mod Endings
pub mod Answers
pub mod Replies
use headless_csms.Prelude.{
  ◌≡◌, String, Bool, Option, none, some, if◌then◌else◌, ℤ, ◌==◌, string_eq, int_eq, eqb, Result, ok,
  err, ℕ,
}
use headless_csms.Ocpp.{RpcError, internal_error}
use headless_csms.Ocpp.Frame.{
  Json, call, call_result, call_error, Frame, Parsed, encode_call_result, encode_call_error,
}

-- The error of `ReadMessage`, as `closeReason` asks: a timeout, a normal close, or neither.
abbrev pub close_reason : Bool → Bool → String → String
close_reason timeout normal text =
    if timeout then "heartbeat timeout" else if normal then "closed by charge point" else text

module _ (j : Json) where
  -- What `HandleCall` does. The details of an `RPCError` stand by it.
  pub data Handled : Type 0 where
    returns : Option j.Value → Handled
    fails : RpcError → Option j.Value → Handled
    panics : Handled

  -- `callResult`.
  pub data Reply : Type 0 where
    payload : Option j.Raw → Reply
    rpc_error : String → String → Reply

  abbrev pub dispatch : Handled → Result (RpcError × Option j.Value) (Option j.Value)
  dispatch (returns v) = ok v
  dispatch (fails e details) = err (e, details)
  dispatch panics =
      let e : RpcError = record { code = internal_error; description = "handler failed" } in
      err (e, none)

  abbrev pub to_option : Result String j.Bytes → Option j.Bytes
  to_option (err text) = none
  to_option (ok b) = some b

  -- The message that `sendCallError` queues, if it can be encoded.
  unfoldable pub call_error_message : String → RpcError → Option j.Value → Option j.Bytes
  call_error_message id e details = to_option (encode_call_error j id e details)

  unfoldable pub result_message : String → Option j.Value → Option j.Bytes
  unfolding call_error_message
  result_message id v = elim (encode_call_result j id v) [
    | ok b ↦ some b
    | err text ↦
        call_error_message id
          (record { code = internal_error; description = "could not encode result" }) none
  ]

  -- The message that `handleLoop` queues for a CALL.
  unfoldable pub answer_message : String → Handled → Option j.Bytes
  unfolding call_error_message result_message
  answer_message id h = elim (dispatch h) [
    | err (e, details) ↦ call_error_message id e details
    | ok v ↦ result_message id v
  ]

  -- Where `readLoop` stands: before `ReadMessage`; in the `enqueue` of an error; at the send into
  -- `calls`; in `deliver`, before and after the lookup; and returned.
  pub data Reader : Type 0 where
    reading : Reader
    answering : j.Bytes → Reader
    passing : Frame j → Reader
    finding : String → Reply → Reader
    delivering : ℕ → Reply → Reader
    ended : String → Reader

  abbrev pub or_reading : Option j.Bytes → Reader
  or_reading none = reading
  or_reading (some b) = answering b

  -- The body of the loop of `readLoop`, up to what may block.
  unfoldable pub after_frame : Frame j → Reader
  after_frame f =
      if f.message_type == call
      then passing f
      else if f.message_type == call_result
      then finding f.id (payload f.payload)
      else if f.message_type == call_error
      then finding f.id (rpc_error f.error_code f.error_description)
      else reading

  unfoldable pub after_read : Parsed j → Reader
  unfolding after_frame call_error_message
  after_read (err (id, e)) = or_reading (call_error_message id e none)
  after_read (ok f) = after_frame f
