-- ===== src/Config.antt =====
-- internal/config/config.go: the parsed configuration, and the two ways to look an EVSE up. A
-- duration is its number of nanoseconds, as validation leaves it.
pub mod Checks
pub mod Evses
pub mod Validate
pub mod Usable
use headless_csms.Prelude.{
  String, List, [], ◌∷◌, Option, none, some, if◌then◌else◌, ℤ, ◌==◌, string_eq, int_eq,
}

pub record Charger : Type 0 where
  pub id : String
  pub ip : String
  pub ocpp_version : String
  pub heartbeat_interval : ℤ
  pub heartbeat_timeout : ℤ
  pub call_timeout : ℤ

pub record Server : Type 0 where
  pub ocpp_bind : String
  pub ocpi_bind : String

pub record Auth : Type 0 where
  pub default_id_tag : String

pub record Push : Type 0 where
  pub debounce : ℤ
  pub max_retries : ℤ

pub record Ocpi : Type 0 where
  pub country_code : String
  pub party_id : String
  pub public_base_url : String
  pub token_a : String
  pub token_c : String
  pub push : Push

pub record Connector : Type 0 where
  pub id : String
  pub standard : String
  pub format : String
  pub power_type : String
  pub max_voltage : ℤ
  pub max_amperage : ℤ
  pub max_electric_power : ℤ

pub record Evse : Type 0 where
  pub uid : String
  pub evse_id : String
  pub ocpp_connector_id : ℤ
  pub connectors : List Connector

pub record Coordinates : Type 0 where
  pub latitude : String
  pub longitude : String

pub record Location : Type 0 where
  pub id : String
  pub name : String
  pub address : String
  pub city : String
  pub postal_code : String
  pub country : String
  pub coordinates : Coordinates
  pub evses : List Evse

pub record Config : Type 0 where
  pub charger : Charger
  pub server : Server
  pub auth : Auth
  pub ocpi : Ocpi
  pub location : Location

-- The `range` loops of the two lookups: the first EVSE that fits.
unfoldable pub find_uid : String → List Evse → Option Evse
find_uid uid [] = none
find_uid uid (e ∷ es) = if e.uid == uid then some e else find_uid uid es

unfoldable pub find_connector : ℤ → List Evse → Option Evse
find_connector id [] = none
find_connector id (e ∷ es) = if e.ocpp_connector_id == id then some e else find_connector id es

unfoldable pub evse_by_uid : Config → String → Option Evse
unfolding find_uid
evse_by_uid c uid = find_uid uid c.location.evses

unfoldable pub evse_by_connector_id : Config → ℤ → Option Evse
unfolding find_connector
evse_by_connector_id c id = find_connector id c.location.evses
