-- ===== src/Config/Usable.antt =====
-- What a configuration has in which internal/config/validate.go finds no problem.
pub mod Found
use headless_csms.Prelude.{
  ◌≡◌, ◌≢◌, refl, sym, ap, ◌∙◌, String, Bool, true, false, not, ◌&&◌, ◌||◌, List, [], ◌∷◌, ◌++◌,
  All, Option, none, some, if◌then◌else◌, ℤ, pos, ltb_ℤ, ◌<ℤ◌, ◌==◌, string_eq, int_eq, arith,
  Bool-cases, Option-cases, ==_cases, inl, inr,
}
use headless_csms.Config.{
  Config, Charger, Ocpi, Evse, evse_by_uid, evse_by_connector_id, find_uid, find_connector,
}
use headless_csms.Config.Evses.{
  FieldError, Std, problem, required, unless, validate_all_evses, validate_evses, validate_location,
}
use headless_csms.Config.Validate.{
  Raws, parsed_or, above_zero, is_above_zero, resolve, positive_duration, validate_heartbeat,
  validate_charger, validate_ocpi, validate, by_path,
}
use headless_csms.Config.Usable.Found.{
  IsFound, append-empty, required-empty, unless-empty, validate_evses-IsFound,
}
use headless_csms.Config.{Location}
use headless_csms.Config.Validate.{validate_token}
use Prim.Native.String.{◌++◌ as append}
use headless_csms.Config.Checks.{is_blank}
use headless_csms.Text.{itoa}
use headless_csms.Prelude.{ltb→lt, ==_refl}
use headless_csms.Config.Usable.Found.{All-map}
use headless_csms.Config.Validate.{debounce_errors, validate_auth, validate_server}
use headless_csms.Core.Sort.{sort, insert_sorted}

sort-empty : {A : Type 0} (less : A → A → Bool) (xs : List A) → sort less xs ≡ [] → xs ≡ []
unfolding sort insert_sorted
sort-empty less [] h = refl
sort-empty {A = A} less (x ∷ xs) h = absurd (never (sort less xs) h)
  where
    never : (ys : List A) → ¬ (insert_sorted less x ys ≡ [])
    never [] e = cc (e)
    never (y ∷ ys) e = elim (Bool-cases (less y x)) [
      | inl t ↦ (let e' : y ∷ insert_sorted less x ys ≡ [] = rw (insert_sorted, t) at e in cc (e'))
      | inr f ↦ (let e' : x ∷ y ∷ ys ≡ [] = rw (insert_sorted, f) at e in cc (e'))
    ]

-- The configuration that `Validate` leaves: each EVSE is what both of its ids lead to, and has a
-- connector id of 1 or more; there is an EVSE; the durations of the heartbeat are in order; and the two
-- tokens differ.
pub record IsUsable (c : Config) : Type 0 where
  pub found :
      All
        (λ e.
          (evse_by_uid c e.uid ≡ some e)
          × (evse_by_connector_id c e.ocpp_connector_id ≡ some e)
          × (pos 0 <ℤ e.ocpp_connector_id))
        c.location.evses
  pub some_evse : c.location.evses ≢ []
  pub interval : pos 0 <ℤ c.charger.heartbeat_interval
  pub timeout : c.charger.heartbeat_interval <ℤ c.charger.heartbeat_timeout
  pub tokens : c.ocpi.token_a ≢ c.ocpi.token_c

module _ (std : Std) where
  validate_all_evses-empty :
      (es : List Evse) → validate_all_evses std es ≡ [] → (es ≢ []) × All (IsFound [] [] es) es
  unfolding validate_all_evses
  validate_all_evses-empty [] h = absurd (cc (h))
  validate_all_evses-empty (e ∷ es) h =
      (λ p. cc (p), validate_evses-IsFound std 0 [] [] [] (e ∷ es) h)

  validate_location-empty :
      (l : Location) → validate_location std l ≡ [] → validate_all_evses std l.evses ≡ []
  unfolding validate_location
  validate_location-empty l h = (append-empty _ (validate_all_evses std l.evses) h).1

  positive_duration-empty :
      (path raw : String)
      → positive_duration std path raw ≡ []
      → (d : ℤ) × (std.parse_duration raw ≡ some d) × (ltb_ℤ (pos 0) d ≡ true)
  unfolding positive_duration
  positive_duration-empty path raw h = elim (Option-cases (std.parse_duration raw)) [
    | inl e ↦
        absurd
          (let h' : above_zero std path raw none ≡ [] = rw (e, positive_duration) at h in cc (h'))
    | inr (d, e) ↦
        let h' : above_zero std path raw (some d) ≡ [] = rw (e, positive_duration) at h in
        (d, e, unless-empty (ltb_ℤ (pos 0) d) _ _ h')
  ]

  -- With both durations above zero, the second is greater.
  validate_heartbeat-empty :
      (r : Raws) (c : Charger) (d d' : ℤ)
      → std.parse_duration r.heartbeat_interval ≡ some d
      → std.parse_duration r.heartbeat_timeout ≡ some d'
      → ltb_ℤ (pos 0) d ≡ true
      → ltb_ℤ (pos 0) d' ≡ true
      → validate_heartbeat std r c ≡ []
      → ltb_ℤ c.heartbeat_interval c.heartbeat_timeout ≡ true
  unfolding validate_heartbeat
  validate_heartbeat-empty r c d d' e e' above above' h =
      elim (Bool-cases (ltb_ℤ c.heartbeat_interval c.heartbeat_timeout)) [
        | inl t ↦ t
        | inr f ↦ absurd (
            let h' : problem "charger.heartbeat_timeout" _ ≡ [] =
              rw (validate_heartbeat, e, e', above, above', f) at h in
            cc (h'))
      ]

  validate_charger-empty :
      (r : Raws) (c : Charger)
      → validate_charger std r c ≡ []
      → (positive_duration std "charger.heartbeat_interval" r.heartbeat_interval ≡ [])
        × (positive_duration std "charger.heartbeat_timeout" r.heartbeat_timeout ≡ [])
        × (validate_heartbeat std r c ≡ [])
  unfolding validate_charger
  validate_charger-empty r c h =
      let (h6, beat) = append-empty _ (validate_heartbeat std r c) h in
      let (h5, call) =
        append-empty _ (positive_duration std "charger.call_timeout" r.call_timeout) h6 in
      let (h4, timeout) =
        append-empty _ (positive_duration std "charger.heartbeat_timeout" r.heartbeat_timeout) h5 in
      let (h3, interval) =
        append-empty _ (positive_duration std "charger.heartbeat_interval" r.heartbeat_interval)
          h4 in
      (interval, timeout, beat)

  validate_ocpi-empty :
      (r : Raws) (o : Ocpi)
      → validate_ocpi std r o ≡ []
      → (validate_token std "ocpi.token_a" o.token_a ≡ [])
        × (unless
              (o.token_a == "" || not (o.token_a == o.token_c))
              (problem "ocpi.token_c" "must differ from ocpi.token_a")
            ≡ [])
  unfolding validate_ocpi
  validate_ocpi-empty r o h =
      let (h7, retries) =
        append-empty _
          (unless (not (ltb_ℤ o.push.max_retries (pos 0))) (
            problem "ocpi.push.max_retries"
              (append "must not be negative, got " (itoa o.push.max_retries))))
          h in
      let (h6, debounce) =
        append-empty _ (debounce_errors std r.debounce (std.parse_duration r.debounce)) h7 in
      let (h5, differ) =
        append-empty _
          (unless (o.token_a == "" || not (o.token_a == o.token_c))
            (problem "ocpi.token_c" "must differ from ocpi.token_a"))
          h6 in
      let (h4, token_c) = append-empty _ (validate_token std "ocpi.token_c" o.token_c) h5 in
      let (h3, token_a) = append-empty _ (validate_token std "ocpi.token_a" o.token_a) h4 in
      (token_a, differ)

  token_a_ne_token_c : (r : Raws) (o : Ocpi) → validate_ocpi std r o ≡ [] → o.token_a ≢ o.token_c
  unfolding validate_token is_blank
  token_a_ne_token_c r o h same =
      let (filled, differ) = validate_ocpi-empty r o h in
      let nonblank : is_blank o.token_a ≡ false =
        (required-empty "ocpi.token_a" o.token_a _ filled).0 in
      elim (==_cases o.token_a "") [
        | inl t ↦ (let clash : true ≡ false = sym (ap is_blank t.1) ∙ nonblank in cc (clash))
        | inr n ↦
            let equal : (o.token_a == o.token_c) ≡ true = rw (← same) (==_refl o.token_a) in
            let tested : (o.token_a == "" || not (o.token_a == o.token_c)) ≡ true =
              unless-empty _ _ _ differ in
            let clash : false ≡ true = rw (n.0, equal) at tested in cc (clash)
      ]

  -- If `Validate` finds no problem, then in the configuration it leaves, each EVSE is what both of its
  -- ids lead to, and has a connector id of 1 or more; there is an EVSE; the timeout of the heartbeat is
  -- greater than its interval, which is above zero; and the two tokens differ.
  pub validate-IsUsable :
      (r : Raws) (c : Config) → (validate std r c).0 ≡ [] → IsUsable (validate std r c).1
  unfolding validate resolve evse_by_uid evse_by_connector_id
  validate-IsUsable r c h =
      let done = resolve std r c in
      let all = sort-empty (by_path std) _ h in
      let (h4, place) = append-empty _ (validate_location std done.location) all in
      let (h3, ocpi) = append-empty _ (validate_ocpi std r done.ocpi) h4 in
      let (h2, auth) = append-empty _ (validate_auth std done.auth.default_id_tag) h3 in
      let (charger, server) =
        append-empty (validate_charger std r done.charger)
          (validate_server std done.server.ocpp_bind done.server.ocpi_bind) h2 in
      let (interval, timeout, beat) = validate_charger-empty r done.charger charger in
      let (d, e, above) = positive_duration-empty _ r.heartbeat_interval interval in
      let (d', e', above') = positive_duration-empty _ r.heartbeat_timeout timeout in
      let (some_evse, found) =
        validate_all_evses-empty done.location.evses
          (validate_location-empty done.location place) in
      record {
        found = All-map (λ x f. (f.by_uid, f.by_id, f.above_zero)) done.location.evses found;
        some_evse = some_evse;
        interval = rw e (ltb→lt _ _ above);
        timeout = ltb→lt _ _ (validate_heartbeat-empty r done.charger d d' e e' above above' beat);
        tokens = token_a_ne_token_c r done.ocpi ocpi;
      }
