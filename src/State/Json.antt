-- ===== src/State/Json.antt =====
-- The struct tags of internal/state/state.go, with what encoding/json does with them. A JSON text is
-- its value: an object is its keys with their values, none of them twice.
use headless_csms.Prelude.{
  String, Bool, false, List, [], ◌∷◌, Option, none, some, if◌then◌else◌, ℤ, pos, ◌==◌, string_eq,
  int_eq,
}
use headless_csms.Clock.{Time}
use headless_csms.State.{State, Reservation, Transaction, OcpiRegistration, Endpoint, PartyRole}

mutual
  -- An `integer` fits an int; `number` is any other number. A string is a `stamp` in the place of a
  -- time, if time.Time reads one from it, and `text` anywhere else.
  pub data Value : Type 0 where
    null number : Value
    boolean : Bool → Value
    integer : ℤ → Value
    text : String → Value
    stamp : Time → Value
    array : Values → Value
    object : Fields → Value

  pub data Values : Type 0 where
    no_more : Values
    item : Value → Values → Values

  pub data Fields : Type 0 where
    no_field : Fields
    field : String → Value → Fields → Fields

-- A time in JSON keeps its zone and loses its monotonic reading.
abbrev pub json_time : Time → Time
json_time t = record t { monotonic = false }

-- `omitempty` on a string and on an int.
abbrev pub omit_text : String → String → Fields → Fields
omit_text tag s rest = if s == "" then rest else field tag (text s) rest

abbrev pub omit_integer : String → ℤ → Fields → Fields
omit_integer tag n rest = if n == pos 0 then rest else field tag (integer n) rest

abbrev pub encode_all {ℓ} : {A : Type ℓ} → (A → Value) → List A → Values
encode_all f [] = no_more
encode_all f (x ∷ xs) = item (f x) (encode_all f xs)

abbrev pub encode_endpoint : Endpoint → Value
encode_endpoint e = object (
    field "identifier" (text e.identifier)
      (field "role" (text e.role) (field "url" (text e.url) no_field)))

abbrev pub encode_role : PartyRole → Value
encode_role r = object (
    field "country_code" (text r.country_code)
      (field "party_id" (text r.party_id) (field "role" (text r.role) no_field)))

unfoldable pub encode_registration : OcpiRegistration → Value
encode_registration r = object (
    field "registered_at" (stamp (json_time r.registered_at)) (
      field "token_b" (text r.token_b) (
        field "versions_url" (text r.versions_url) (
          field "version" (text r.version) (
            field "endpoints" (array (encode_all encode_endpoint r.endpoints))
              (field "roles" (array (encode_all encode_role r.roles)) no_field))))))

unfoldable pub encode_reservation : Reservation → Value
encode_reservation r = object (
    field "id" (integer r.id) (
      omit_text "ocpi_reservation_id" r.ocpi_reservation_id (
        field "charge_point_id" (text r.charge_point_id) (
          field "evse_uid" (text r.evse_uid) (
            field "id_tag" (text r.id_tag) (
              field "expires_at" (stamp (json_time r.expires_at)) (
                field "created_at" (stamp (json_time r.created_at)) (
                  field "source" (text r.source)
                    (omit_text "response_url" r.response_url no_field)))))))))

unfoldable pub encode_transaction : Transaction → Value
encode_transaction t = object (
    field "id" (text t.id) (
      field "charge_point_id" (text t.charge_point_id) (
        field "evse_uid" (text t.evse_uid) (
          field "connector_id" (integer t.connector_id) (
            field "id_tag" (text t.id_tag) (
              field "meter_start" (integer t.meter_start) (
                field "started_at" (stamp (json_time t.started_at))
                  (omit_integer "reservation_id" t.reservation_id no_field))))))))

-- `omitempty` on the pointer.
abbrev pub omit_registration : Option OcpiRegistration → Fields → Fields
omit_registration none rest = rest
omit_registration (some r) rest = field "ocpi" (encode_registration r) rest

unfoldable pub encode_state : State → Value
unfolding encode_registration encode_reservation encode_transaction
encode_state s = object (
    field "version" (integer s.version) (
      omit_registration s.ocpi (
        field "next_reservation_id" (integer s.next_reservation_id) (
          field "next_transaction_id" (integer s.next_transaction_id) (
            field "next_remote_start_id" (integer s.next_remote_start_id) (
              field "reservations" (array (encode_all encode_reservation s.reservations)) (
                field "transactions" (array (encode_all encode_transaction s.transactions))
                  no_field)))))))

-- What a value keeps in JSON: every field, and a time but for its monotonic reading.
abbrev pub json_reservation : Reservation → Reservation
json_reservation r = record r {
  expires_at = json_time r.expires_at;
  created_at = json_time r.created_at;
}

abbrev pub json_transaction : Transaction → Transaction
json_transaction t = record t { started_at = json_time t.started_at }

abbrev pub json_registration : Option OcpiRegistration → Option OcpiRegistration
json_registration none = none
json_registration (some r) = some (record r { registered_at = json_time r.registered_at })
