-- ===== src/Ocpp/Conn/Replies.antt =====
-- What the peer of internal/ocpp/ocppj/conn.go reads as the answer to its CALL.
use headless_csms.Prelude.{
  ◌≡◌, refl, sym, ◌∙◌, ◌≢◌, ◌⊎◌, inl, inr, String, List, [], ◌∷◌, Option, none, some, Result, ok,
  err, Option-cases, string_eq, int_eq,
}
use headless_csms.Ocpp.{RpcError, internal_error}
use headless_csms.Ocpp.Frame.{
  Json, IsJson, AreMarshalled, Frame, call_result, parse_frame, or_object, result_frame,
  error_frame, encode_call_result,
}
use headless_csms.Ocpp.Frame.RoundTrip.{parse_frame-encode}
use headless_csms.Ocpp.Conn.{
  Handled, returns, fails, panics, call_error_message, result_message, answer_message,
}

-- An array is written only if each of its elements is.
abbrev pub IsStrict : Json → Type 0
IsStrict j =
    (vs : List j.Value) (b : j.Bytes)
    → j.marshal_array vs ≡ ok b
    → (rs : List j.Raw) × AreMarshalled j vs rs

module _ (j : Json) (laws : IsJson j) where
  -- The peer reads this frame.
  abbrev pub IsRead : Option j.Bytes → Frame j → Type 0
  IsRead m f = (b : j.Bytes) × (m ≡ some b) × (parse_frame j b ≡ ok f)

  call_error_message-IsRead :
      (id : String) (e : RpcError) (d : Option j.Value) (r : j.Raw)
      → id ≢ ""
      → j.marshal (or_object j d) ≡ some r
      → IsRead (call_error_message j id e d) (error_frame j id e.code e.description (some r))
  unfolding call_error_message
  call_error_message-IsRead id e d r named written =
      let (b, w, p) = (parse_frame-encode j laws id id e d r named named written).2 in
      (b, rw w refl, p)

  result_message-IsRead :
      (id : String) (v : Option j.Value) (r : j.Raw)
      → id ≢ ""
      → j.marshal (or_object j v) ≡ some r
      → IsRead (result_message j id v) (result_frame j id r)
  unfolding result_message
  result_message-IsRead id v r named written =
      let e : RpcError = record { code = ""; description = "" } in
      let (b, w, p) = (parse_frame-encode j laws id id e v r named named written).1 in
      (b, rw (result_message, w) refl, p)

  -- An array with a part that cannot be written is refused.
  marshal_array-refused :
      IsStrict j
      → (v1 v2 v3 : j.Value) → j.marshal v3 ≡ none
      → (text : String) × (j.marshal_array (v1 ∷ v2 ∷ v3 ∷ []) ≡ err text)
  marshal_array-refused strict v1 v2 v3 bad = go (j.marshal_array (v1 ∷ v2 ∷ v3 ∷ [])) refl
    where
      whole : List j.Value
      whole = v1 ∷ v2 ∷ v3 ∷ []

      nothing : (rs : List j.Raw) → AreMarshalled j (v1 ∷ v2 ∷ v3 ∷ []) rs → ⊥
      nothing [] h = h
      nothing (a ∷ []) h = h.1
      nothing (a ∷ b ∷ []) h = h.1.1
      nothing (a ∷ b ∷ c ∷ rs) h = let clash : none ≡ some c = sym bad ∙ h.1.1.0 in cc (clash)

      go :
          (m : Result String j.Bytes)
          → j.marshal_array (v1 ∷ v2 ∷ v3 ∷ []) ≡ m
          → (text : String) × (j.marshal_array (v1 ∷ v2 ∷ v3 ∷ []) ≡ err text)
      go (err text) e = (text, e)
      go (ok b) e = absurd (let (rs, h) = strict (v1 ∷ v2 ∷ v3 ∷ []) b e in nothing rs h)

  -- A result that cannot be written is answered by an error.
  result_message-failed :
      IsStrict j
      → (id : String) (v : Option j.Value) (r : j.Raw) → id ≢ ""
      → j.marshal (or_object j v) ≡ none
      → j.marshal j.empty_object ≡ some r
      → IsRead
          (result_message j id v)
          (error_frame j id internal_error "could not encode result" (some r))
  unfolding result_message encode_call_result
  result_message-failed strict id v r named bad object =
      let e : RpcError = record {
        code = internal_error;
        description = "could not encode result";
      } in
      let (text, refused) =
        marshal_array-refused strict (j.of_int call_result) (j.of_string id) (or_object j v) bad in
      rw (result_message, refused) (call_error_message-IsRead id e none r named object)

  -- The frame with which a CALL is answered.
  abbrev pub IsAnswer : String → Handled j → Frame j → Type 0
  IsAnswer id (returns v) f =
      ((r : j.Raw) × (j.marshal (or_object j v) ≡ some r) × (f ≡ result_frame j id r))
      ⊎ ((r : j.Raw) × (j.marshal (or_object j v) ≡ none)
          × (f ≡ error_frame j id internal_error "could not encode result" (some r)))
  IsAnswer id (fails e d) f =
      (r : j.Raw) × (j.marshal (or_object j d) ≡ some r)
      × (f ≡ error_frame j id e.code e.description (some r))
  IsAnswer id panics f =
      (r : j.Raw) × (f ≡ error_frame j id internal_error "handler failed" (some r))

  -- The details of an error can be written.
  abbrev pub HasDetails : Handled j → Type 0
  HasDetails (fails e d) = (r : j.Raw) × (j.marshal (or_object j d) ≡ some r)
  HasDetails _ = Unit

  -- With a JSON library that keeps its laws, every CALL with an id is answered by one message that the
  -- peer can read and that has the id of the CALL: the handler's result; its error, if the details of
  -- it can be written; and an internal error where the result cannot be written or the handler panics.
  pub answer_message-IsAnswer :
      IsStrict j
      → (object : j.Raw) → j.marshal j.empty_object ≡ some object
      → (id : String) → id ≢ ""
      → (h : Handled j) → HasDetails h
      → (f : Frame j) × IsAnswer id h f × IsRead (answer_message j id h) f
  unfolding answer_message
  answer_message-IsAnswer strict object written id named (returns v) details =
      elim (Option-cases (j.marshal (or_object j v))) [
        | inr (r, e) ↦ (result_frame j id r, inl (r, e, refl), result_message-IsRead id v r named e)
        | inl e ↦ (
          error_frame j id internal_error "could not encode result" (some object),
          inr (object, e, refl),
          result_message-failed strict id v object named e written,
        )
      ]
  answer_message-IsAnswer strict object written id named (fails e d) (r, w) = (
    error_frame j id e.code e.description (some r),
    (r, w, refl),
    call_error_message-IsRead id e d r named w,
  )
  answer_message-IsAnswer strict object written id named panics details =
      let e : RpcError = record { code = internal_error; description = "handler failed" } in
      (
        error_frame j id internal_error "handler failed" (some object),
        (object, refl),
        call_error_message-IsRead id e none object named written,
      )
