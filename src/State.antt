-- ===== src/State.antt =====
-- internal/state: the state file. This module has the data of state.go; `State.Store` is store.go.
-- A nil slice and an empty one are one list here, and `clone`, which keeps callers from sharing the
-- store's slices, is the identity of values.
pub mod Json
pub mod Decode
pub mod RoundTrip
pub mod Store
pub mod Laws
use headless_csms.Prelude.{String, List, [], ◌∷◌, map, Option, none, some, ℤ, pos}
use headless_csms.Clock.{Time, utc}

pub record Endpoint : Type 0 where
  pub identifier : String
  pub role : String
  pub url : String

pub record PartyRole : Type 0 where
  pub country_code : String
  pub party_id : String
  pub role : String

pub record OcpiRegistration : Type 0 where
  pub registered_at : Time
  pub token_b : String
  pub versions_url : String
  pub version : String
  pub endpoints : List Endpoint
  pub roles : List PartyRole

pub record Reservation : Type 0 where
  pub id : ℤ
  pub ocpi_reservation_id : String
  pub charge_point_id : String
  pub evse_uid : String
  pub id_tag : String
  pub expires_at : Time
  pub created_at : Time
  pub source : String
  pub response_url : String

pub record Transaction : Type 0 where
  pub id : String
  pub charge_point_id : String
  pub evse_uid : String
  pub connector_id : ℤ
  pub id_tag : String
  pub meter_start : ℤ
  pub started_at : Time
  pub reservation_id : ℤ

pub record State : Type 0 where
  pub version : ℤ
  pub ocpi : Option OcpiRegistration
  pub next_reservation_id : ℤ
  pub next_transaction_id : ℤ
  pub next_remote_start_id : ℤ
  pub reservations : List Reservation
  pub transactions : List Transaction

-- The constant `Version`.
abbrev pub current_version : ℤ
current_version = pos 1

unfoldable pub empty : State
empty = record {
  version = current_version;
  ocpi = none;
  next_reservation_id = pos 0;
  next_transaction_id = pos 0;
  next_remote_start_id = pos 0;
  reservations = [];
  transactions = [];
}

abbrev pub normalize_reservation : Reservation → Reservation
normalize_reservation r = record r { expires_at = utc r.expires_at; created_at = utc r.created_at }

abbrev pub normalize_transaction : Transaction → Transaction
normalize_transaction t = record t { started_at = utc t.started_at }

abbrev pub normalize_registration : Option OcpiRegistration → Option OcpiRegistration
normalize_registration none = none
normalize_registration (some r) = some (record r { registered_at = utc r.registered_at })

unfoldable pub normalize : State → State
normalize s = record s {
  version = current_version;
  ocpi = normalize_registration s.ocpi;
  reservations = map normalize_reservation s.reservations;
  transactions = map normalize_transaction s.transactions;
}
