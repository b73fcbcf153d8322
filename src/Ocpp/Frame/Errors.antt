-- ===== src/Ocpp/Frame/Errors.antt =====
-- What is answered to a frame that cannot be read. About internal/ocpp/ocppj/frame.go.
use headless_csms.Prelude.{
  ◌≡◌, refl, ◌≢◌, ◌⊎◌, inl, inr, String, List, [], ◌∷◌, none, some, ℤ, ◌==◌, ==_cases, string_eq,
  int_eq, Result, ok, err, Option-cases, Bool-cases,
}
use headless_csms.Ocpp.{rpc_framework_error}
use headless_csms.Ocpp.Frame.{
  Json, Parsed, call, call_result, call_error, unknown_message_id, parse_frame, parse_array,
  parse_body, parse_call, parse_call_error, parse_call_result,
}

module _ (j : Json) where
  -- What holds of a parse of a frame with this id.
  abbrev pub IsUnder : String → Parsed j → Type 0
  IsUnder id (ok f) =
      (f.id ≡ id)
      × ((f.message_type ≡ call) × (f.action ≢ "") × ((p : j.Raw) × (f.payload ≡ some p))
          ⊎ (f.message_type ≡ call_result) × ((p : j.Raw) × (f.payload ≡ some p))
          ⊎ (f.message_type ≡ call_error) × (f.payload ≡ none))
  IsUnder id (err (i, e)) = (i ≡ id) × (e.code ≡ rpc_framework_error)

  parse_call-IsUnder : (id : String) (raw : List j.Raw) → IsUnder id (parse_call j id raw)
  unfolding parse_call
  parse_call-IsUnder id (t ∷ i ∷ a ∷ p ∷ []) = elim (Option-cases (j.as_string a)) [
    | inl e ↦ rw (e, parse_call) (refl, refl)
    | inr (s, e) ↦ elim (==_cases s "") [
      | inl y ↦ rw (e, parse_call, y.0) (refl, refl)
      | inr n ↦ rw (e, parse_call, n.0) (refl, inl (refl, n.1, (p, refl)))
    ]
  ]
  parse_call-IsUnder id [] = (refl, refl)
  parse_call-IsUnder id (t ∷ []) = (refl, refl)
  parse_call-IsUnder id (t ∷ i ∷ []) = (refl, refl)
  parse_call-IsUnder id (t ∷ i ∷ a ∷ []) = (refl, refl)
  parse_call-IsUnder id (t ∷ i ∷ a ∷ p ∷ x ∷ xs) = (refl, refl)

  parse_call_result-IsUnder :
      (id : String) (raw : List j.Raw) → IsUnder id (parse_call_result j id raw)
  unfolding parse_call_result
  parse_call_result-IsUnder id (t ∷ i ∷ p ∷ []) = (refl, inr (inl (refl, (p, refl))))
  parse_call_result-IsUnder id [] = (refl, refl)
  parse_call_result-IsUnder id (t ∷ []) = (refl, refl)
  parse_call_result-IsUnder id (t ∷ i ∷ []) = (refl, refl)
  parse_call_result-IsUnder id (t ∷ i ∷ a ∷ x ∷ xs) = (refl, refl)

  parse_call_error-IsUnder :
      (id : String) (raw : List j.Raw) → IsUnder id (parse_call_error j id raw)
  unfolding parse_call_error
  parse_call_error-IsUnder id (t ∷ i ∷ c ∷ d ∷ rest) = elim (Option-cases (j.as_string c)) [
    | inl e ↦ rw (e, parse_call_error) (refl, refl)
    | inr (s, e) ↦ rw (e, parse_call_error) (refl, inr (inr (refl, refl)))
  ]
  parse_call_error-IsUnder id [] = (refl, refl)
  parse_call_error-IsUnder id (t ∷ []) = (refl, refl)
  parse_call_error-IsUnder id (t ∷ i ∷ []) = (refl, refl)
  parse_call_error-IsUnder id (t ∷ i ∷ a ∷ []) = (refl, refl)

  parse_body-IsUnder :
      (typ : ℤ) (id : String) (raw : List j.Raw) → IsUnder id (parse_body j typ id raw)
  unfolding parse_body
  parse_body-IsUnder typ id raw = elim (Bool-cases (typ == call)) [
    | inl a ↦ rw (a, parse_body) (parse_call-IsUnder id raw)
    | inr a ↦ elim (Bool-cases (typ == call_result)) [
      | inl b ↦ rw (a, parse_body, b) (parse_call_result-IsUnder id raw)
      | inr b ↦ elim (Bool-cases (typ == call_error)) [
        | inl c ↦ rw (a, parse_body, b, c) (parse_call_error-IsUnder id raw)
        | inr c ↦ rw (a, parse_body, b, c) (refl, refl)
      ]
    ]
  ]

  -- A message that is answered under "-1".
  abbrev pub IsBroken : Parsed j → Type 0
  IsBroken (ok f) = ⊥
  IsBroken (err (i, e)) = (i ≡ unknown_message_id) × (e.code ≡ rpc_framework_error)

  -- The id that a message carries: its second element, if that reads as a string that is not empty, in
  -- an array of three elements or more that starts with a number.
  abbrev pub Carries : j.Bytes → String → Type 0
  Carries b id =
      (t : j.Raw) × (i : j.Raw) × (x : j.Raw) × (rest : List j.Raw) × (typ : ℤ) × (j.unmarshal b
        ≡ ok (t ∷ i ∷ x ∷ rest))
      × (j.as_int t ≡ some typ)
      × (j.as_string i ≡ some id)
      × (id ≢ "")

  -- A message carries an id, under which it is then parsed or answered, or it carries none, and only
  -- then it is answered under "-1". The error is RpcFrameworkError; a frame has a known type, a call an
  -- action and a payload, a result a payload, and an error none.
  pub parse_frame-IsUnder :
      (b : j.Bytes)
      → (IsBroken (parse_frame j b) × ((id : String) → ¬ Carries b id))
        ⊎ ((id : String) × Carries b id × IsUnder id (parse_frame j b))
  unfolding parse_frame
  parse_frame-IsUnder b = by_array (j.unmarshal b) refl
    where
      Claim : Type 0
      Claim =
          (IsBroken (parse_frame j b) × ((id : String) → ¬ Carries b id))
          ⊎ ((id : String) × Carries b id × IsUnder id (parse_frame j b))

      by_id :
          (t i x : j.Raw) (rest : List j.Raw) (typ : ℤ) (id : String)
          → j.unmarshal b ≡ ok (t ∷ i ∷ x ∷ rest)
          → j.as_int t ≡ some typ
          → j.as_string i ≡ some id
          → Claim
      by_id t i x rest typ id p q k = elim (==_cases id "") [
        | inl y ↦ inl (
          unfold parse_array in rw (p, parse_frame, q, parse_array, k, y.0) (refl, refl),
          λ id' (t', i', x', rest', typ', p', q', k', n'). n' (cc),
        )
        | inr n ↦ inr (
          id,
          (t, i, x, rest, typ, p, q, k, n.1),
          unfold parse_array in
              rw (p, parse_frame, q, parse_array, k, n.0)
                (parse_body-IsUnder typ id (t ∷ i ∷ x ∷ rest)),
        )
      ]

      by_array : (m : Result String (List j.Raw)) → j.unmarshal b ≡ m → Claim
      by_array (err text) p = inl (
        rw (p, parse_frame) (refl, refl),
        λ id (t', i', x', rest', typ', p', q', k', n'). absurd (cc),
      )
      by_array (ok []) p = inl (
        unfold parse_array in rw (p, parse_frame) (refl, refl),
        λ id (t', i', x', rest', typ', p', q', k', n'). absurd (cc),
      )
      by_array (ok (t ∷ [])) p = inl (
        unfold parse_array in rw (p, parse_frame) (refl, refl),
        λ id (t', i', x', rest', typ', p', q', k', n'). absurd (cc),
      )
      by_array (ok (t ∷ i ∷ [])) p = inl (
        unfold parse_array in rw (p, parse_frame) (refl, refl),
        λ id (t', i', x', rest', typ', p', q', k', n'). absurd (cc),
      )
      by_array (ok (t ∷ i ∷ x ∷ rest)) p = elim (Option-cases (j.as_int t)) [
        | inl e ↦ inl (
          unfold parse_array in rw (p, parse_frame, e, parse_array) (refl, refl),
          λ id (t', i', x', rest', typ', p', q', k', n'). absurd (cc),
        )
        | inr (typ, q) ↦ elim (Option-cases (j.as_string i)) [
          | inl e ↦ inl (
            unfold parse_array in rw (p, parse_frame, q, parse_array, e) (refl, refl),
            λ id (t', i', x', rest', typ', p', q', k', n'). absurd (cc),
          )
          | inr (id, k) ↦ by_id t i x rest typ id p q k
        ]
      ]
