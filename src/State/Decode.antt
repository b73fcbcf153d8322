-- ===== src/State/Decode.antt =====
-- What json.Unmarshal makes of the values of a state file, by the struct tags of
-- internal/state/state.go.
use headless_csms.Prelude.{
  String, List, [], ◌∷◌, Option, none, some, if◌then◌else◌, ℤ, pos, Result, ok, err,
}
use headless_csms.Text.{equal_fold}
use headless_csms.Clock.{Time, zero_time}
use headless_csms.State.{State, Reservation, Transaction, OcpiRegistration, Endpoint, PartyRole}
use headless_csms.State.Json.{
  Value, Values, Fields, null, integer, text, stamp, array, object, no_more, item, no_field, field,
}

-- A key fits a tag in any case of its letters.
unfoldable pub find : String → Fields → Option Value
find tag no_field = none
find tag (field key v rest) =
    let later = find tag rest in if equal_fold key tag then some v else later

-- A field that is missing or null keeps the zero value.
abbrev pub as_integer : Option Value → Result String ℤ
as_integer none = ok (pos 0)
as_integer (some null) = ok (pos 0)
as_integer (some (integer n)) = ok n
as_integer _ = err "cannot unmarshal into int"

-- `*int`.
abbrev pub as_pointer : Option Value → Result String (Option ℤ)
as_pointer none = ok none
as_pointer (some null) = ok none
as_pointer (some (integer n)) = ok (some n)
as_pointer _ = err "cannot unmarshal into int"

abbrev pub as_text : Option Value → Result String String
as_text none = ok ""
as_text (some null) = ok ""
as_text (some (text s)) = ok s
as_text _ = err "cannot unmarshal into string"

abbrev pub as_time : Option Value → Result String Time
as_time none = ok zero_time
as_time (some null) = ok zero_time
as_time (some (stamp t)) = ok t
as_time _ = err "cannot unmarshal into time.Time"

-- The fields of a struct; null leaves them all zero.
abbrev pub as_fields : Value → Result String Fields
as_fields null = ok no_field
as_fields (object fs) = ok fs
as_fields _ = err "cannot unmarshal into struct"

-- One result after another; the first error ends it.
infixl 5 ◌>>=◌
abbrev pub ◌>>=◌ {ℓ κ} :
    {A : Type ℓ} {B : Type κ} → Result String A → (A → Result String B) → Result String B
err e >>= f = err e
ok a >>= f = f a

abbrev pub decode_items : {A : Type 0} → (Value → Result String A) → Values → Result String (List A)
decode_items f no_more = ok []
decode_items f (item v vs) = do a ← f v; rest ← decode_items f vs; ok (a ∷ rest)

abbrev pub as_list :
    {A : Type 0} → (Value → Result String A) → Option Value → Result String (List A)
as_list f none = ok []
as_list f (some null) = ok []
as_list f (some (array vs)) = decode_items f vs
as_list f _ = err "cannot unmarshal into slice"

unfoldable pub decode_endpoint : Value → Result String Endpoint
unfolding find
decode_endpoint v = do
  fs ← as_fields v
  identifier ← as_text (find "identifier" fs)
  role ← as_text (find "role" fs)
  url ← as_text (find "url" fs)
  ok (record { identifier = identifier; role = role; url = url })

unfoldable pub decode_role : Value → Result String PartyRole
unfolding find
decode_role v = do
  fs ← as_fields v
  country_code ← as_text (find "country_code" fs)
  party_id ← as_text (find "party_id" fs)
  role ← as_text (find "role" fs)
  ok (record { country_code = country_code; party_id = party_id; role = role })

unfoldable pub decode_registration : Value → Result String OcpiRegistration
unfolding find decode_endpoint decode_role
decode_registration v = do
  fs ← as_fields v
  registered_at ← as_time (find "registered_at" fs)
  token_b ← as_text (find "token_b" fs)
  versions_url ← as_text (find "versions_url" fs)
  version ← as_text (find "version" fs)
  endpoints ← as_list decode_endpoint (find "endpoints" fs)
  roles ← as_list decode_role (find "roles" fs)
  ok (record {
    registered_at = registered_at;
    token_b = token_b;
    versions_url = versions_url;
    version = version;
    endpoints = endpoints;
    roles = roles;
  })

unfoldable pub decode_reservation : Value → Result String Reservation
unfolding find
decode_reservation v = do
  fs ← as_fields v
  id ← as_integer (find "id" fs)
  ocpi_reservation_id ← as_text (find "ocpi_reservation_id" fs)
  charge_point_id ← as_text (find "charge_point_id" fs)
  evse_uid ← as_text (find "evse_uid" fs)
  id_tag ← as_text (find "id_tag" fs)
  expires_at ← as_time (find "expires_at" fs)
  created_at ← as_time (find "created_at" fs)
  source ← as_text (find "source" fs)
  response_url ← as_text (find "response_url" fs)
  ok (record {
    id = id;
    ocpi_reservation_id = ocpi_reservation_id;
    charge_point_id = charge_point_id;
    evse_uid = evse_uid;
    id_tag = id_tag;
    expires_at = expires_at;
    created_at = created_at;
    source = source;
    response_url = response_url;
  })

unfoldable pub decode_transaction : Value → Result String Transaction
unfolding find
decode_transaction v = do
  fs ← as_fields v
  id ← as_text (find "id" fs)
  charge_point_id ← as_text (find "charge_point_id" fs)
  evse_uid ← as_text (find "evse_uid" fs)
  connector_id ← as_integer (find "connector_id" fs)
  id_tag ← as_text (find "id_tag" fs)
  meter_start ← as_integer (find "meter_start" fs)
  started_at ← as_time (find "started_at" fs)
  reservation_id ← as_integer (find "reservation_id" fs)
  ok (record {
    id = id;
    charge_point_id = charge_point_id;
    evse_uid = evse_uid;
    connector_id = connector_id;
    id_tag = id_tag;
    meter_start = meter_start;
    started_at = started_at;
    reservation_id = reservation_id;
  })

-- A pointer to a struct.
abbrev pub as_registration : Option Value → Result String (Option OcpiRegistration)
as_registration none = ok none
as_registration (some null) = ok none
as_registration (some v) = do r ← decode_registration v; ok (some r)

unfoldable pub decode_state : Value → Result String State
unfolding find decode_registration decode_reservation decode_transaction
decode_state v = do
  fs ← as_fields v
  version ← as_integer (find "version" fs)
  ocpi ← as_registration (find "ocpi" fs)
  next_reservation_id ← as_integer (find "next_reservation_id" fs)
  next_transaction_id ← as_integer (find "next_transaction_id" fs)
  next_remote_start_id ← as_integer (find "next_remote_start_id" fs)
  reservations ← as_list decode_reservation (find "reservations" fs)
  transactions ← as_list decode_transaction (find "transactions" fs)
  ok (record {
    version = version;
    ocpi = ocpi;
    next_reservation_id = next_reservation_id;
    next_transaction_id = next_transaction_id;
    next_remote_start_id = next_remote_start_id;
    reservations = reservations;
    transactions = transactions;
  })

-- The struct that `parse` reads first, which has only the version.
unfoldable pub decode_version : Value → Result String (Option ℤ)
unfolding find
decode_version v = do fs ← as_fields v; as_pointer (find "version" fs)
