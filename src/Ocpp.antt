-- ===== src/Ocpp.antt =====
-- internal/ocpp/ocpp.go: the protocol versions and the errors sent to a peer.
pub mod Frame
pub mod Conn
pub mod V16
use Prim.Native.String.{◌++◌ as append}
use headless_csms.Prelude.{String, Bool, Option, none, some, if◌then◌else◌, ◌==◌, string_eq}

pub data Version : Type 0 where
  v16 v201 : Version

abbrev pub version_text : Version → String
version_text v16 = "1.6"
version_text v201 = "2.0.1"

unfoldable pub subprotocol : Version → String
subprotocol v = append "ocpp" (version_text v)

unfoldable pub version_from_subprotocol : String → Option Version
unfolding subprotocol
version_from_subprotocol s =
    if subprotocol v16 == s then some v16 else if subprotocol v201 == s then some v201 else none

-- `RPCError` without its details, which only a version handler fills.
pub record RpcError : Type 0 where
  pub code : String
  pub description : String

abbrev pub rpc_framework_error : String
rpc_framework_error = "RpcFrameworkError"

abbrev pub internal_error : String
internal_error = "InternalError"

abbrev pub not_implemented_error : String
not_implemented_error = "NotImplemented"

abbrev pub formation_violation : String
formation_violation = "FormationViolation"

abbrev pub property_constraint_violation : String
property_constraint_violation = "PropertyConstraintViolation"

-- Spelled as the specification spells it.
abbrev pub occurrence_constraint_violation : String
occurrence_constraint_violation = "OccurenceConstraintViolation"
