-- ===== src/Ocpp/Frame/RoundTrip.antt =====
-- What is sent can be read. About internal/ocpp/ocppj/frame.go.
use headless_csms.Prelude.{◌≡◌, refl, ◌≢◌, String, [], ◌∷◌, Option, some, ==_false, string_eq, ok}
use headless_csms.Ocpp.{RpcError}
use headless_csms.Ocpp.Frame.{
  Json, IsJson, call, call_result, call_error, call_frame, result_frame, error_frame, parse_frame,
  parse_array, parse_body, parse_call, parse_call_error, parse_call_result, or_object, encode_call,
  encode_call_result, encode_call_error,
}

module _ (j : Json) (laws : IsJson j) where
  -- With a JSON library that keeps its laws, every call, result and error that is encoded is
  -- parsed as what it was: a message with an id, and for a call an action, whose payload or
  -- details can be written.
  pub parse_frame-encode :
      (id action : String) (e : RpcError) (v : Option j.Value) (r : j.Raw)
      → id ≢ ""
      → action ≢ ""
      → j.marshal (or_object j v) ≡ some r
      → ((b : j.Bytes) × (encode_call j id action v ≡ ok b)
          × (parse_frame j b ≡ ok (call_frame j id action r)))
        × ((b : j.Bytes) × (encode_call_result j id v ≡ ok b)
            × (parse_frame j b ≡ ok (result_frame j id r)))
        × ((b : j.Bytes) × (encode_call_error j id e v ≡ ok b)
            × (parse_frame j b ≡ ok (error_frame j id e.code e.description (some r))))
  unfolding encode_call encode_call_result encode_call_error parse_frame parse_array parse_body
      parse_call parse_call_result parse_call_error
  parse_frame-encode id action e v r named acts writes =
      let (two, t2, u2) = laws.int_read call in
      let (three, t3, u3) = laws.int_read call_result in
      let (four, t4, u4) = laws.int_read call_error in
      let (i, ti, ui) = laws.string_read id in
      let (a, ta, ua) = laws.string_read action in
      let (c, tc, uc) = laws.string_read e.code in
      let (d, td, ud) = laws.string_read e.description in
      let (b, w, p) =
        laws.array_read (j.of_int call ∷ j.of_string id ∷ j.of_string action ∷ or_object j v ∷ [])
          (two ∷ i ∷ a ∷ r ∷ []) (t2, (ti, (ta, (writes, tt)))) in
      let (b', w', p') =
        laws.array_read (j.of_int call_result ∷ j.of_string id ∷ or_object j v ∷ [])
          (three ∷ i ∷ r ∷ []) (t3, (ti, (writes, tt))) in
      let (b'', w'', p'') =
        laws.array_read
          (j.of_int call_error
            ∷ j.of_string id
            ∷ j.of_string e.code
            ∷ j.of_string e.description
            ∷ or_object j v
            ∷ [])
          (four ∷ i ∷ c ∷ d ∷ r ∷ []) (t4, (ti, (tc, (td, (writes, tt))))) in
      (
        (
          b,
          rw (w) refl,
          rw
              (
                p,
                parse_frame,
                u2,
                parse_array,
                ui,
                ==_false id "" named,
                parse_body,
                parse_call,
                ua,
                ==_false action "" acts,
              )
              refl,
        ),
        (b', rw (w') refl, rw (p', parse_frame, u3, parse_array, ui, ==_false id "" named) refl),
        (
          b'',
          rw (w'') refl,
          rw
              (
                p'',
                parse_frame,
                u4,
                parse_array,
                ui,
                ==_false id "" named,
                parse_body,
                parse_call_error,
                uc,
                ud,
              )
              refl,
        ),
      )
