-- ===== src/Examples/Frames.antt =====
-- The results about frames at concrete inputs, with a small encoder in place of encoding/json.
use headless_csms.Prelude.{
  ◌≡◌, refl, ap, ◌⊎◌, String, List, [], ◌∷◌, Option, none, some, ok, pos, ℤ, arith,
}
use headless_csms.Ocpp.{RpcError}
use headless_csms.Ocpp.Frame.{
  Json, AreMarshalled, IsJson, call_frame, result_frame, error_frame, parse_frame, encode_call,
  encode_call_result, encode_call_error,
}
use headless_csms.Ocpp.Frame.RoundTrip.{parse_frame-encode}
use headless_csms.Ocpp.Frame.Errors.{IsBroken, IsUnder, Carries, parse_frame-IsUnder}

pub data Token : Type 0 where
  number : ℤ → Token
  text : String → Token
  object : Token

abbrev read_number : Token → Option ℤ
read_number (number n) = some n
read_number _ = none

abbrev read_text : Token → Option String
read_text (text s) = some s
read_text _ = none

-- A message is the list of its elements.
abbrev pub tokens : Json
tokens = record {
  Value = Token;
  Raw = Token;
  Bytes = List Token;
  of_int = number;
  of_string = text;
  empty_object = object;
  marshal = some;
  marshal_array = ok;
  unmarshal = ok;
  as_int = read_number;
  as_string = read_text;
}

same_tokens : (vs rs : List Token) → AreMarshalled tokens vs rs → vs ≡ rs
same_tokens [] [] h = refl
same_tokens [] (r ∷ rs) h = absurd h
same_tokens (v ∷ vs) [] h = absurd h
same_tokens (v ∷ vs) (r ∷ rs) (h, t) = let rest = same_tokens vs rs t in ground (arith, rest)

pub tokens-IsJson : IsJson tokens
tokens-IsJson = record {
  array_read = λ vs rs h. (vs, refl, ap ok (same_tokens vs rs h));
  int_read = λ n. (number n, refl, refl);
  string_read = λ s. (text s, refl, refl);
}

abbrev refusal : RpcError
refusal = record { code = "NotSupported"; description = "no" }

parse_frame-encode_example :
    ((b : List Token) × (encode_call tokens "7" "Heartbeat" none ≡ ok b)
      × (parse_frame tokens b ≡ ok (call_frame tokens "7" "Heartbeat" object)))
    × ((b : List Token) × (encode_call_result tokens "7" none ≡ ok b)
        × (parse_frame tokens b ≡ ok (result_frame tokens "7" object)))
    × ((b : List Token) × (encode_call_error tokens "7" refusal none ≡ ok b)
        × (parse_frame tokens b ≡ ok (error_frame tokens "7" "NotSupported" "no" (some object))))
parse_frame-encode_example =
    parse_frame-encode tokens tokens-IsJson "7" "Heartbeat" refusal none object
      (λ h. absurd (cc (h))) (λ h. absurd (cc (h))) refl

abbrev bad_type : List Token
bad_type = number (pos 5) ∷ text "7" ∷ object ∷ []

parse_frame-IsUnder_example :
    (IsBroken tokens (parse_frame tokens bad_type) × ((id : String) → ¬ Carries tokens bad_type id))
    ⊎ ((id : String) × Carries tokens bad_type id × IsUnder tokens id (parse_frame tokens bad_type))
parse_frame-IsUnder_example = parse_frame-IsUnder tokens bad_type
