-- ===== src/Ocpp/Frame.antt =====
-- internal/ocpp/ocppj/frame.go. What it uses of encoding/json is an argument, `Json`.
pub mod RoundTrip
pub mod Errors
use Prim.Native.String.{◌++◌ as append}
use headless_csms.Prelude.{
  ◌≡◌, String, Bool, List, [], ◌∷◌, length, Option, none, some, if◌then◌else◌, ℤ, pos, ◌==◌,
  string_eq, int_eq, eqb, Result, ok, err,
}
use headless_csms.Text.{itoa}
use headless_csms.Ocpp.{RpcError, rpc_framework_error}

-- The functions of encoding/json that the frames need. `Value` is a Go value, `Raw` a
-- json.RawMessage and `Bytes` a message.
pub record Json : Type 1 where
  pub Value : Type 0
  pub Raw : Type 0
  pub Bytes : Type 0
  pub of_int : ℤ → Value
  pub of_string : String → Value
  -- `struct{}{}`, and an empty map.
  pub empty_object : Value
  pub marshal : Value → Option Raw
  pub marshal_array : List Value → Result String Bytes
  -- Unmarshal into a []json.RawMessage, an int and a string, each fresh.
  pub unmarshal : Bytes → Result String (List Raw)
  pub as_int : Raw → Option ℤ
  pub as_string : Raw → Option String

-- The values are written as these elements, one by one.
abbrev pub AreMarshalled : (j : Json) → List j.Value → List j.Raw → Type 0
AreMarshalled j [] [] = Unit
AreMarshalled j [] (r ∷ rs) = ⊥
AreMarshalled j (v ∷ vs) [] = ⊥
AreMarshalled j (v ∷ vs) (r ∷ rs) = (j.marshal v ≡ some r) × AreMarshalled j vs rs

-- What is documented of them: an array is written element by element and read back as it was written,
-- and so are an int and a string.
pub record IsJson (j : Json) : Type 0 where
  pub array_read :
      (vs : List j.Value) (rs : List j.Raw)
      → AreMarshalled j vs rs
      → (b : j.Bytes) × (j.marshal_array vs ≡ ok b) × (j.unmarshal b ≡ ok rs)
  pub int_read : (n : ℤ) → (r : j.Raw) × (j.marshal (j.of_int n) ≡ some r) × (j.as_int r ≡ some n)
  pub string_read :
      (s : String) → (r : j.Raw) × (j.marshal (j.of_string s) ≡ some r) × (j.as_string r ≡ some s)

abbrev pub call : ℤ
call = pos 2

abbrev pub call_result : ℤ
call_result = pos 3

abbrev pub call_error : ℤ
call_error = pos 4

abbrev pub unknown_message_id : String
unknown_message_id = "-1"

abbrev pub or_empty : Option String → String
or_empty none = ""
or_empty (some s) = s

module _ (j : Json) where
  pub record Frame : Type 0 where
    pub message_type : ℤ
    pub id : String
    pub action : String
    pub payload : Option j.Raw
    pub error_code : String
    pub error_description : String
    pub error_details : Option j.Raw

  -- A frame that fails to parse: the id to answer with, and the error to send.
  abbrev pub Parsed : Type 0
  Parsed = Result (String × RpcError) Frame

  abbrev pub broken : String → String → Parsed
  broken id text = err (id, record { code = rpc_framework_error; description = text })

  abbrev pub call_frame : String → String → j.Raw → Frame
  call_frame id action payload = record {
    message_type = call;
    id = id;
    action = action;
    payload = some payload;
    error_code = "";
    error_description = "";
    error_details = none;
  }

  abbrev pub result_frame : String → j.Raw → Frame
  result_frame id payload = record {
    message_type = call_result;
    id = id;
    action = "";
    payload = some payload;
    error_code = "";
    error_description = "";
    error_details = none;
  }

  abbrev pub error_frame : String → String → String → Option j.Raw → Frame
  error_frame id code description details = record {
    message_type = call_error;
    id = id;
    action = "";
    payload = none;
    error_code = code;
    error_description = description;
    error_details = details;
  }

  -- The text for a frame of the wrong length.
  abbrev pub wrong_length : String → List j.Raw → String → String
  wrong_length what raw want =
      append what
        (append " has " (append (itoa (pos (length raw))) (append " elements, want " want)))

  abbrev pub first : List j.Raw → Option j.Raw
  first [] = none
  first (r ∷ rs) = some r

  -- The cases of the switch; `raw` is the whole array.
  unfoldable pub parse_call : String → List j.Raw → Parsed
  parse_call id (t ∷ i ∷ a ∷ p ∷ []) = elim (j.as_string a) [
    | none ↦ broken id "action is not a string"
    | some action ↦
        if action == "" then broken id "action is empty" else ok (call_frame id action p)
  ]
  parse_call id raw = broken id (wrong_length "CALL" raw "4")

  unfoldable pub parse_call_result : String → List j.Raw → Parsed
  parse_call_result id (t ∷ i ∷ p ∷ []) = ok (result_frame id p)
  parse_call_result id raw = broken id (wrong_length "CALLRESULT" raw "3")

  unfoldable pub parse_call_error : String → List j.Raw → Parsed
  parse_call_error id (t ∷ i ∷ c ∷ d ∷ rest) = elim (j.as_string c) [
    | none ↦ broken id "error code is not a string"
    | some code ↦ ok (error_frame id code (or_empty (j.as_string d)) (first rest))
  ]
  parse_call_error id raw = broken id (wrong_length "CALLERROR" raw "at least 4")

  unfoldable pub parse_body : ℤ → String → List j.Raw → Parsed
  unfolding parse_call parse_call_result parse_call_error
  parse_body typ id raw =
      if typ == call
      then parse_call id raw
      else if typ == call_result
      then parse_call_result id raw
      else if typ == call_error
      then parse_call_error id raw
      else broken id (append "unknown message type id " (itoa typ))

  unfoldable pub parse_array : List j.Raw → Parsed
  unfolding parse_body
  parse_array (t ∷ i ∷ x ∷ rest) = elim (j.as_int t) [
    | none ↦ broken unknown_message_id "message type id is not a number"
    | some typ ↦ elim (j.as_string i) [
      | none ↦ broken unknown_message_id "message id is not a string"
      | some id ↦
          if id == ""
          then broken unknown_message_id "message id is empty"
          else parse_body typ id (t ∷ i ∷ x ∷ rest)
    ]
  ]
  parse_array raw = broken unknown_message_id (wrong_length "message" raw "at least 3")

  unfoldable pub parse_frame : j.Bytes → Parsed
  unfolding parse_array
  parse_frame bytes = elim (j.unmarshal bytes) [
    | err text ↦ broken unknown_message_id (append "message is not a JSON array: " text)
    | ok raw ↦ parse_array raw
  ]

  -- A nil payload is written as an empty object.
  abbrev pub or_object : Option j.Value → j.Value
  or_object none = j.empty_object
  or_object (some v) = v

  abbrev pub encoded : String → Result String j.Bytes → Result String j.Bytes
  encoded what (ok b) = ok b
  encoded what (err text) = err (append what text)

  unfoldable pub encode_call : String → String → Option j.Value → Result String j.Bytes
  encode_call id action payload = encoded (append "encoding CALL " (append action ": ")) (
      j.marshal_array
        (j.of_int call ∷ j.of_string id ∷ j.of_string action ∷ or_object payload ∷ []))

  unfoldable pub encode_call_result : String → Option j.Value → Result String j.Bytes
  encode_call_result id payload =
      encoded "encoding CALLRESULT: "
        (j.marshal_array (j.of_int call_result ∷ j.of_string id ∷ or_object payload ∷ []))

  -- The details are an argument of their own.
  unfoldable pub encode_call_error : String → RpcError → Option j.Value → Result String j.Bytes
  encode_call_error id e details = encoded "encoding CALLERROR: " (
      j.marshal_array (
        j.of_int call_error
        ∷ j.of_string id
        ∷ j.of_string e.code
        ∷ j.of_string e.description
        ∷ or_object details
        ∷ []))
