-- ===== src/Config/Validate.antt =====
-- internal/config/validate.go: `Validate`. The texts of the durations, which it resolves, are an argument.
use Prim.Native.String.{◌++◌ as append}
use headless_csms.Prelude.{
  ℕ, String, Bool, false, not, ◌&&◌, ◌||◌, leb, List, [], ◌++◌, Option, none, some, if◌then◌else◌,
  ℤ, pos, ltb_ℤ, ◌==◌, string_eq, int_eq, contains, Result, ok, err,
}
use headless_csms.Text.{itoa, atoi}
use headless_csms.Config.{Config, Charger, Ocpi}
use headless_csms.Config.Checks.{
  is_blank, len, trim, is_charge_point_id, is_id_tag, is_country_code, is_alpha3, has_whitespace,
  is_wildcard_host, is_hostname, ocpp_versions,
}
use headless_csms.Config.Evses.{
  FieldError, Std, problem, required, unless, quoted, validate_location,
}
use headless_csms.Core.Sort.{sort}

-- The durations as written.
pub record Raws : Type 0 where
  pub heartbeat_interval : String
  pub heartbeat_timeout : String
  pub call_timeout : String
  pub debounce : String

abbrev pub min_token_len : ℕ
min_token_len = 8

module _ (std : Std) where
  -- A duration after `parse`: the new value, or the old one if the text is none.
  abbrev pub parsed_or : ℤ → Option ℤ → ℤ
  parsed_or old none = old
  parsed_or old (some d) = d

  -- The configuration after `Validate`.
  unfoldable pub resolve : Raws → Config → Config
  resolve r c = record c {
    charger = record c.charger {
      heartbeat_interval =
          parsed_or c.charger.heartbeat_interval (std.parse_duration r.heartbeat_interval);
      heartbeat_timeout =
          parsed_or c.charger.heartbeat_timeout (std.parse_duration r.heartbeat_timeout);
      call_timeout = parsed_or c.charger.call_timeout (std.parse_duration r.call_timeout);
    };
    ocpi = record c.ocpi {
      push = record c.ocpi.push {
        debounce = parsed_or c.ocpi.push.debounce (std.parse_duration r.debounce);
      };
    };
  }

  abbrev pub above_zero : String → String → Option ℤ → List FieldError
  above_zero path raw none = problem path (quoted std raw " is not a duration; want e.g. \"90s\"")
  above_zero path raw (some d) =
      unless (ltb_ℤ (pos 0) d) (problem path (append "must be greater than zero, got " raw))

  -- `positiveDuration`: its problems, and its answer.
  unfoldable pub positive_duration : String → String → List FieldError
  positive_duration path raw = above_zero path raw (std.parse_duration raw)

  abbrev pub is_above_zero : Option ℤ → Bool
  is_above_zero none = false
  is_above_zero (some d) = ltb_ℤ (pos 0) d

  abbrev pub is_positive_duration : String → Bool
  is_positive_duration raw = is_above_zero (std.parse_duration raw)

  -- `c` has been resolved.
  unfoldable pub validate_heartbeat : Raws → Charger → List FieldError
  validate_heartbeat r c =
      unless
        (not (
          is_positive_duration r.heartbeat_interval
          && is_positive_duration r.heartbeat_timeout
          && not (ltb_ℤ c.heartbeat_interval c.heartbeat_timeout)))
        (problem "charger.heartbeat_timeout" (
          append "must be greater than charger.heartbeat_interval ("
            (append r.heartbeat_interval (append "), got " r.heartbeat_timeout))))

  unfoldable pub validate_charger : Raws → Charger → List FieldError
  unfolding validate_heartbeat positive_duration
  validate_charger r c =
      required "charger.id" c.id (
        unless (is_charge_point_id c.id) (
          problem "charger.id" (
            quoted std c.id
              " is not usable as a URL path segment; allowed: letters, digits and . _ : ~ - (max 48)")))
      ++ unless (trim c.ip == "" || std.is_ip (trim c.ip) || is_hostname (trim c.ip))
          (problem "charger.ip" (quoted std (trim c.ip) " is neither an IP address nor a hostname"))
      ++ unless (contains c.ocpp_version ocpp_versions) (
          problem "charger.ocpp_version"
            (quoted std c.ocpp_version " is not supported; want one of 1.6, 2.0.1"))
      ++ positive_duration "charger.heartbeat_interval" r.heartbeat_interval
      ++ positive_duration "charger.heartbeat_timeout" r.heartbeat_timeout
      ++ positive_duration "charger.call_timeout" r.call_timeout
      ++ validate_heartbeat r c

  -- A listen address: its problems, or its host and port.
  abbrev pub Bound : Type 0
  Bound = Result (List FieldError) (String × ℤ)

  abbrev pub bound_port : String → String → String → Option ℤ → Bound
  bound_port path bind host none =
      err (problem path (quoted std bind " does not have a valid port (1-65535)"))
  bound_port path bind host (some port) =
      if ltb_ℤ port (pos 0) || ltb_ℤ (pos 65535) port
      then err (problem path (quoted std bind " does not have a valid port (1-65535)"))
      else if port == pos 0
      then err (
          problem path
            "port 0 picks a random port that nothing can be pointed at; choose a fixed port")
      else if is_wildcard_host host || std.is_ip host || is_hostname host
      then ok (host, port)
      else err (problem path (quoted std host " is not a valid host"))

  abbrev pub bound_to : String → String → Option (String × String) → Bound
  bound_to path bind none = err (problem path (quoted std bind " is not a host:port address"))
  bound_to path bind (some (host, port)) = bound_port path bind host (atoi port)

  unfoldable pub validate_bind : String → String → Bound
  unfolding atoi
  validate_bind path bind =
      if is_blank bind
      then err (problem path "is required")
      else bound_to path bind (std.split_host_port bind)

  abbrev pub bind_errors : Bound → List FieldError
  bind_errors (ok b) = []
  bind_errors (err errors) = errors

  abbrev pub collide : String → Bound → Bound → List FieldError
  collide bind (ok (host, port)) (ok (host', port')) =
      if port == port' && (host == host' || is_wildcard_host host || is_wildcard_host host')
      then problem "server.ocpi_bind" (
          append "cannot share port "
            (append (itoa port') (append " with server.ocpp_bind (" (append bind ")"))))
      else []
  collide bind _ _ = []

  unfoldable pub validate_server : String → String → List FieldError
  unfolding validate_bind
  validate_server ocpp_bind ocpi_bind =
      let ocpp = validate_bind "server.ocpp_bind" ocpp_bind in
      let ocpi = validate_bind "server.ocpi_bind" ocpi_bind in
      bind_errors ocpp ++ bind_errors ocpi ++ collide ocpp_bind ocpp ocpi

  unfoldable pub validate_auth : String → List FieldError
  validate_auth tag = required "auth.default_id_tag" tag (
      unless (is_id_tag tag) (
        problem "auth.default_id_tag" (
          quoted std tag
            " is not a valid OCPP idTag; want 1-20 printable ASCII characters without spaces")))

  unfoldable pub validate_token : String → String → List FieldError
  validate_token path token = required path token (
      unless (leb min_token_len (len token)) (problem path "must be at least 8 characters")
      ++ unless (not (has_whitespace token)) (problem path "must not contain whitespace"))

  abbrev pub url_errors : String → Result String (String × String) → List FieldError
  url_errors url (err text) =
      problem "ocpi.public_base_url" (quoted std url (append " is not a valid URL: " text))
  url_errors url (ok (scheme, host)) =
      if not (scheme == "http" || scheme == "https")
      then problem "ocpi.public_base_url" (quoted std url " must use http or https")
      else if host == ""
      then problem "ocpi.public_base_url" (quoted std url " is missing a host")
      else []

  abbrev pub debounce_errors : String → Option ℤ → List FieldError
  debounce_errors raw none =
      problem "ocpi.push.debounce" (quoted std raw " is not a duration; want e.g. \"500ms\"")
  debounce_errors raw (some d) =
      unless (not (ltb_ℤ d (pos 0)))
        (problem "ocpi.push.debounce" (append "must not be negative, got " raw))

  unfoldable pub validate_ocpi : Raws → Ocpi → List FieldError
  unfolding validate_token
  validate_ocpi r o =
      required "ocpi.country_code" o.country_code (
        unless (is_country_code o.country_code) (
          problem "ocpi.country_code"
            (quoted std o.country_code " must be two uppercase letters, e.g. \"DE\"")))
      ++ required "ocpi.party_id" o.party_id (
          unless (is_alpha3 o.party_id) (
            problem "ocpi.party_id"
              (quoted std o.party_id " must be three uppercase letters, e.g. \"FRY\"")))
      ++ required "ocpi.public_base_url" o.public_base_url
          (url_errors o.public_base_url (std.parse_url o.public_base_url))
      ++ validate_token "ocpi.token_a" o.token_a
      ++ validate_token "ocpi.token_c" o.token_c
      ++ unless (o.token_a == "" || not (o.token_a == o.token_c))
          (problem "ocpi.token_c" "must differ from ocpi.token_a")
      ++ debounce_errors r.debounce (std.parse_duration r.debounce)
      ++ unless (not (ltb_ℤ o.push.max_retries (pos 0))) (
          problem "ocpi.push.max_retries"
            (append "must not be negative, got " (itoa o.push.max_retries)))

  abbrev pub by_path : FieldError → FieldError → Bool
  by_path e f = std.less e.path f.path

  -- All problems, by their paths, and the configuration with its durations.
  unfoldable pub validate : Raws → Config → List FieldError × Config
  unfolding validate_charger validate_server validate_auth validate_ocpi
  validate r c =
      let done = resolve r c in
      (
        sort by_path (
            validate_charger r done.charger
            ++ validate_server done.server.ocpp_bind done.server.ocpi_bind
            ++ validate_auth done.auth.default_id_tag
            ++ validate_ocpi r done.ocpi
            ++ validate_location std done.location),
        done,
      )
