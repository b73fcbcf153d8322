-- ===== src/Csms/Handshake/Agreed.antt =====
-- What a handshake that succeeds has agreed on. About internal/ocpp/csms/server.go.
use headless_csms.Prelude.{
  subst, ◌≡◌, refl, ap, ◌≢◌, inl, inr, String, Bool, true, false, List, [], ◌∷◌, ◌++◌, Option, some,
  All, ok, err, arith, string_eq, ==_cases, Bool-cases, Option-cases,
}
use headless_csms.Ocpp.{Version, version_from_subprotocol}
use headless_csms.Csms.Handshake.{
  supports, first_supported, negotiate, charge_point_id, id_missing, unknown_charge_point,
  no_subprotocol, Handshaken, accepts, handshake,
}

-- The first offer that is supported: it stands in the list behind offers that are not.
pub record IsFirst (handlers : List Version) (offered : List String) (v : Version) (s : String)
    : Type 0 where
  pub before : List String
  pub after : List String
  pub split : offered ≡ before ++ s ∷ after
  pub unsupported : All (λ o. first_supported (version_from_subprotocol o) handlers ≡ false) before
  pub version : version_from_subprotocol s ≡ some v
  pub supported : supports v handlers ≡ true

negotiate-IsFirst :
    (handlers : List Version) (offered : List String) (v : Version) (s : String)
    → negotiate handlers offered ≡ some (v, s)
    → IsFirst handlers offered v s
unfolding negotiate
negotiate-IsFirst handlers [] v s h = absurd (cc (h))
negotiate-IsFirst handlers (o ∷ os) v s h = elim (Option-cases (version_from_subprotocol o)) [
  | inl e ↦
      later (rw (ap (λ x. first_supported x handlers) e) refl)
        (negotiate-IsFirst handlers os v s (rw (e, negotiate) at h))
  | inr (w, e) ↦ elim (Bool-cases (supports w handlers)) [
    | inl t ↦
        let found : ◌≡◌ {A = Option (Version × String)} (some (w, o)) (some (v, s)) =
          rw (e, negotiate, t) at h in
        let same : w ≡ v = ground arith in
        let text : o ≡ s = ground arith in
        record {
          before = [];
          after = os;
          split = ap (λ x. x ∷ os) text;
          unsupported = tt;
          version = rw (← text, ← same) e;
          supported = rw (← same) t;
        }
    | inr f ↦
        later (rw (ap (λ x. first_supported x handlers) e) f)
          (negotiate-IsFirst handlers os v s (rw (e, negotiate, f) at h))
  ]
]
  where
    later :
        first_supported (version_from_subprotocol o) handlers ≡ false
        → IsFirst handlers os v s
        → IsFirst handlers (o ∷ os) v s
    later without rest = record {
      before = o ∷ rest.before;
      after = rest.after;
      split = ap (◌∷◌ o) rest.split;
      unsupported = (without, rest.unsupported);
      version = rest.version;
      supported = rest.supported;
    }

-- A handshake that succeeds has an identity, the one in the path, that may connect, and the first of
-- the offered subprotocols whose version has a handler.
pub handshake-ok :
    (accept : Option (String → Bool)) (handlers : List Version) (path : String)
    (offered : List String) (a : Handshaken)
    → handshake accept handlers path offered ≡ ok a
    → (a.id ≢ "")
      × (a.id ≡ charge_point_id path)
      × (accepts accept a.id ≡ true)
      × IsFirst handlers offered a.version a.subprotocol
unfolding handshake
handshake-ok accept handlers path offered a h = elim (==_cases (charge_point_id path) "") [
  | inl t ↦ absurd (let h' : err id_missing ≡ ok a = rw (t.0, handshake) at h in ground arith)
  | inr n ↦ elim (Bool-cases (accepts accept (charge_point_id path))) [
    | inr f ↦
        absurd
          (let h' : err unknown_charge_point ≡ ok a = rw (n.0, handshake, f) at h in ground arith)
    | inl g ↦ elim (Option-cases (negotiate handlers offered)) [
      | inl e ↦
          absurd
            (let h' : err no_subprotocol ≡ ok a = rw (n.0, handshake, g, e) at h in ground arith)
      | inr ((v, s), e) ↦
          let made : ok (record { id = charge_point_id path; version = v; subprotocol = s })
              ≡ ok a =
            rw (n.0, handshake, g, e) at h in
          let same : record { id = charge_point_id path; version = v; subprotocol = s } ≡ a =
            ground arith in
          subst
            (λ (b : Handshaken).
              (b.id ≢ "")
              × (b.id ≡ charge_point_id path)
              × (accepts accept b.id ≡ true)
              × IsFirst handlers offered b.version b.subprotocol)
            same (n.1, refl, g, negotiate-IsFirst handlers offered v s e)
    ]
  ]
]
