-- ===== src/Config/Evses.antt =====
-- internal/config/validate.go and errors.go: the list of problems, and `validateLocation`. What is used
-- of fmt, net, net/url, strconv and time is the argument `Std`.
use Prim.Native.String.{◌++◌ as append}
use headless_csms.Prelude.{
  ℕ, suc, String, Bool, not, leb, List, [], ◌∷◌, ◌++◌, Option, none, some, if◌then◌else◌, ℤ, pos,
  ltb_ℤ, string_eq, int_eq, contains, Eq, lookup, insert, Result,
}
use headless_csms.Text.{itoa}
use headless_csms.Config.{Evse, Connector, Location}
use headless_csms.Config.Checks.{
  len, is_blank, is_alpha3, is_degrees, is_evse_id, connector_standards, connector_formats,
  power_types,
}

pub record FieldError : Type 0 where
  pub path : String
  pub msg : String

-- The verb %q; whether `net.ParseIP` reads an address; `net.SplitHostPort`; `url.Parse`, as its scheme
-- and host; `time.ParseDuration`; `strconv.ParseFloat`, the order with a whole number of degrees either
-- way, and the verb %v of it; and the order of strings.
pub record Std : Type 1 where
  pub quote : String → String
  pub is_ip : String → Bool
  pub split_host_port : String → Option (String × String)
  pub parse_url : String → Result String (String × String)
  pub parse_duration : String → Option ℤ
  pub Number : Type 0
  pub parse_float : String → Option Number
  pub is_beyond : ℕ → Number → Bool
  pub number_text : Number → String
  pub less : String → String → Bool

abbrev pub problem : String → String → List FieldError
problem path msg = record { path = path; msg = msg } ∷ []

-- `required`, and what is checked only if it says true.
unfoldable pub required : String → String → List FieldError → List FieldError
unfolding is_blank
required path value checks = if is_blank value then problem path "is required" else checks

abbrev pub number : ℕ → String
number n = itoa (pos n)

abbrev pub unless : Bool → List FieldError → List FieldError
unless b errors = if b then [] else errors

-- The branch on an entry of a `seen` map: a problem that names the first index, or none.
abbrev pub if_seen : Option ℕ → (ℕ → List FieldError) → List FieldError
if_seen none f = []
if_seen (some first) f = f first

-- The map after that branch.
abbrev pub mark_at {ℓ} : {K : Type ℓ} ⦃e : Eq K⦄ → Option ℕ → K → ℕ → List (K × ℕ) → List (K × ℕ)
mark_at none k i seen = insert k i seen
mark_at (some first) k i seen = seen

unfoldable pub mark {ℓ} : {K : Type ℓ} ⦃e : Eq K⦄ → K → ℕ → List (K × ℕ) → List (K × ℕ)
mark k i seen = mark_at (lookup k seen) k i seen

-- `required` before the branch: a blank value is not entered.
unfoldable pub mark_text : String → ℕ → List (String × ℕ) → List (String × ℕ)
unfolding mark is_blank
mark_text k i seen = if is_blank k then seen else mark k i seen

unfoldable pub mark_connector : ℤ → ℕ → List (ℤ × ℕ) → List (ℤ × ℕ)
unfolding mark
mark_connector id i seen = if ltb_ℤ id (pos 1) then seen else mark id i seen

module _ (std : Std) where
  abbrev pub quoted : String → String → String
  quoted s text = append (std.quote s) text

  abbrev pub evses_at : ℕ → String
  evses_at i = append "location.evses[" (append (number i) "]")

  abbrev pub connectors_at : String → ℕ → String
  connectors_at base j = append base (append ".connectors[" (append (number j) "]"))

  -- A value of an enumeration.
  abbrev pub one_of : String → String → List String → String → List FieldError
  one_of path value values text =
      required path value (unless (contains value values) (problem path (quoted value text)))

  unfoldable pub validate_connector : String → ℕ → List (String × ℕ) → Connector → List FieldError
  unfolding required
  validate_connector base j seen c =
      let path = connectors_at base j in
      required (append path ".id") c.id (
        if_seen (lookup c.id seen) (λ first.
          problem (append path ".id")
            (quoted c.id (append " is already used by " (connectors_at base first)))))
      ++ one_of (append path ".standard") c.standard connector_standards
          " is not an OCPI 2.3.0 ConnectorType"
      ++ one_of (append path ".format") c.format connector_formats
          " is not a ConnectorFormat; want one of CABLE, SOCKET"
      ++ one_of (append path ".power_type") c.power_type power_types
          " is not a PowerType; want one of AC_1_PHASE, AC_2_PHASE, AC_2_PHASE_SPLIT, AC_3_PHASE, DC"
      ++ unless (ltb_ℤ (pos 0) c.max_voltage) (
          problem (append path ".max_voltage")
            (append "must be greater than zero, got " (itoa c.max_voltage)))
      ++ unless (ltb_ℤ (pos 0) c.max_amperage) (
          problem (append path ".max_amperage")
            (append "must be greater than zero, got " (itoa c.max_amperage)))
      ++ unless (not (ltb_ℤ c.max_electric_power (pos 0))) (
          problem (append path ".max_electric_power")
            (append "must not be negative, got " (itoa c.max_electric_power)))

  unfoldable pub validate_connectors_from :
      String → ℕ → List (String × ℕ) → List Connector → List FieldError
  unfolding validate_connector mark_text
  validate_connectors_from base j seen [] = []
  validate_connectors_from base j seen (c ∷ cs) =
      validate_connector base j seen c
      ++ validate_connectors_from base (suc j) (mark_text c.id j seen) cs

  unfoldable pub validate_connectors : String → List Connector → List FieldError
  unfolding validate_connectors_from
  validate_connectors base [] =
      problem (append base ".connectors") "at least one connector is required"
  validate_connectors base (c ∷ cs) = validate_connectors_from base 0 [] (c ∷ cs)

  abbrev pub too_long : String → String → List FieldError
  too_long path value = unless (leb (len value) 36) (
      problem path
        (append "must be at most 36 characters (OCPI CiString36), got " (number (len value))))

  unfoldable pub validate_uid : ℕ → List (String × ℕ) → String → List FieldError
  unfolding required
  validate_uid i seen uid =
      let path = append (evses_at i) ".uid" in
      required path uid (
        too_long path uid
        ++ if_seen (lookup uid seen)
            (λ first. problem path (quoted uid (append " is already used by " (evses_at first)))))

  unfoldable pub validate_evse_id : ℕ → List (String × ℕ) → String → List FieldError
  unfolding required
  validate_evse_id i seen evse_id =
      let path = append (evses_at i) ".evse_id" in
      required path evse_id (
        unless (is_evse_id evse_id) (
          problem path
            (quoted evse_id " does not look like an eMI3 EVSE ID, e.g. \"DE*FRY*E001*1\""))
        ++ if_seen (lookup evse_id seen) (λ first.
          problem path (quoted evse_id (append " is already used by " (evses_at first)))))

  unfoldable pub validate_connector_id : ℕ → List (ℤ × ℕ) → ℤ → List FieldError
  validate_connector_id i seen id =
      let path = append (evses_at i) ".ocpp_connector_id" in
      if ltb_ℤ id (pos 1)
      then problem path
          (append "must be 1 or greater (0 addresses the charge point itself), got " (itoa id))
      else if_seen (lookup id seen) (λ first.
        problem path (append (itoa id) (append " is already mapped by " (evses_at first))))

  -- The loop over the EVSEs, with the three `seen` maps.
  unfoldable pub validate_evses :
      ℕ → List (String × ℕ) → List (ℤ × ℕ) → List (String × ℕ) → List Evse → List FieldError
  unfolding validate_uid validate_evse_id validate_connector_id validate_connectors mark_text
      mark_connector
  validate_evses i uids ids names [] = []
  validate_evses i uids ids names (e ∷ es) =
      (validate_uid i uids e.uid
        ++ validate_evse_id i names e.evse_id
        ++ validate_connector_id i ids e.ocpp_connector_id
        ++ validate_connectors (evses_at i) e.connectors)
      ++ validate_evses (suc i) (mark_text e.uid i uids) (mark_connector e.ocpp_connector_id i ids)
          (mark_text e.evse_id i names) es

  abbrev pub in_degrees : String → ℕ → String → Option std.Number → List FieldError
  in_degrees path max value none = problem path (quoted value " is not a number")
  in_degrees path max value (some f) =
      if std.is_beyond max f
      then problem path (
          append (std.number_text f) (
            append " is out of range (-"
              (append (number max) (append " to " (append (number max) ")")))))
      else []

  unfoldable pub validate_coordinate : String → String → ℕ → ℕ → List FieldError
  unfolding required
  validate_coordinate path value digits max = required path value (
      if is_degrees digits value
      then in_degrees path max value (std.parse_float value)
      else problem path (
          quoted value
            " must be decimal degrees as a string with 5 to 7 decimal places, e.g. \"52.520008\""))

  unfoldable pub validate_all_evses : List Evse → List FieldError
  unfolding validate_evses
  validate_all_evses [] = problem "location.evses" "at least one EVSE is required"
  validate_all_evses (e ∷ es) = validate_evses 0 [] [] [] (e ∷ es)

  unfoldable pub validate_location : Location → List FieldError
  unfolding required validate_coordinate validate_all_evses
  validate_location l =
      required "location.id" l.id (too_long "location.id" l.id)
      ++ required "location.address" l.address []
      ++ required "location.city" l.city []
      ++ required "location.country" l.country (
          unless (is_alpha3 l.country) (
            problem "location.country"
              (quoted l.country " must be an ISO 3166-1 alpha-3 code, e.g. \"DEU\"")))
      ++ validate_coordinate "location.coordinates.latitude" l.coordinates.latitude 2 90
      ++ validate_coordinate "location.coordinates.longitude" l.coordinates.longitude 3 180
      ++ validate_all_evses l.evses
