-- ===== src/State/RoundTrip.antt =====
-- What is written by the struct tags of internal/state/state.go is read by them.
use headless_csms.Prelude.{
  ◌≡◌, refl, ap, inl, inr, String, List, [], ◌∷◌, map, some, pos, ==_cases, Option-cases, string_eq,
  int_eq, Result, ok,
}
use headless_csms.Text.{equal_fold, fold}
use headless_csms.State.{State, Reservation, Transaction, OcpiRegistration, Endpoint, PartyRole}
use headless_csms.State.Json.{
  Value, encode_all, encode_endpoint, encode_role, encode_registration, encode_reservation,
  encode_transaction, encode_state, json_time, json_reservation, json_transaction,
  json_registration,
}
use headless_csms.State.Decode.{
  find, decode_items, decode_endpoint, decode_role, decode_registration, decode_reservation,
  decode_transaction, decode_state, decode_version,
}

decode_items-encode_all :
    {A : Type 0} (enc : A → Value) (dec : Value → Result String A) (view : A → A)
    → ((a : A) → dec (enc a) ≡ ok (view a))
    → (xs : List A) → decode_items dec (encode_all enc xs) ≡ ok (map view xs)
decode_items-encode_all enc dec view h [] = refl
decode_items-encode_all enc dec view h (x ∷ xs) =
    rw (h x, decode_items-encode_all enc dec view h xs) refl

decode_endpoint-encode : (e : Endpoint) → decode_endpoint (encode_endpoint e) ≡ ok e
unfolding decode_endpoint find equal_fold fold
decode_endpoint-encode e = refl

decode_role-encode : (r : PartyRole) → decode_role (encode_role r) ≡ ok r
unfolding decode_role find equal_fold fold
decode_role-encode r = refl

decode_reservation-encode :
    (r : Reservation) → decode_reservation (encode_reservation r) ≡ ok (json_reservation r)
unfolding decode_reservation encode_reservation find equal_fold fold
decode_reservation-encode r = elim (==_cases r.ocpi_reservation_id "") [
  | inl a ↦ elim (==_cases r.response_url "") [ inl b ↦ simp (a.1, b.1) | inr b ↦ simp (a.1, b.0) ]
  | inr a ↦ elim (==_cases r.response_url "") [ inl b ↦ simp (a.0, b.1) | inr b ↦ simp (a.0, b.0) ]
]

decode_transaction-encode :
    (t : Transaction) → decode_transaction (encode_transaction t) ≡ ok (json_transaction t)
unfolding decode_transaction encode_transaction find equal_fold fold
decode_transaction-encode t = elim (==_cases t.reservation_id (pos 0)) [
  | inl a ↦ simp (a.1)
  | inr a ↦ simp (a.0)
]

-- What is kept of a registration.
abbrev kept : OcpiRegistration → OcpiRegistration
kept r = record r { registered_at = json_time r.registered_at }

map-same {ℓ} : {A : Type ℓ} (xs : List A) → map (λ x. x) xs ≡ xs
map-same [] = refl
map-same (x ∷ xs) = ap (◌∷◌ x) (map-same xs)

decode_registration-encode :
    (r : OcpiRegistration) → decode_registration (encode_registration r) ≡ ok (kept r)
unfolding decode_registration encode_registration find equal_fold fold
decode_registration-encode r =
    let endpoints =
      decode_items-encode_all encode_endpoint decode_endpoint (λ e. e) decode_endpoint-encode
        r.endpoints in
    let roles =
      decode_items-encode_all encode_role decode_role (λ x. x) decode_role-encode r.roles in
    simp (endpoints, roles, map-same r.endpoints, map-same r.roles)

-- What is kept of a state.
abbrev pub json_state : State → State
json_state s = record s {
  ocpi = json_registration s.ocpi;
  reservations = map json_reservation s.reservations;
  transactions = map json_transaction s.transactions;
}

-- A state that is written and read has every field that it had, times without monotonic reading.
pub decode_state-encode : (s : State) → decode_state (encode_state s) ≡ ok (json_state s)
unfolding decode_state encode_state find equal_fold fold
decode_state-encode s =
    let reservations =
      decode_items-encode_all encode_reservation decode_reservation json_reservation
        decode_reservation-encode s.reservations in
    let transactions =
      decode_items-encode_all encode_transaction decode_transaction json_transaction
        decode_transaction-encode s.transactions in
    elim (Option-cases s.ocpi) [
      | inl e ↦ simp (e, reservations, transactions)
      | inr (r, e) ↦ simp (e, decode_registration-encode r, reservations, transactions)
    ]

pub decode_version-encode : (s : State) → decode_version (encode_state s) ≡ ok (some s.version)
unfolding decode_version encode_state find equal_fold fold
decode_version-encode s = refl
