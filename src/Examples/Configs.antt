-- ===== src/Examples/Configs.antt =====
-- The results about configurations at a concrete one.
use headless_csms.Prelude.{
  refl, if◌then◌else◌, ◌==◌, string_eq, true, false, [], ◌∷◌, ok, some, pos, lookup, insert,
  contains,
}
use headless_csms.Text.{atoi, itoa, digits, scan, unsigned}
use headless_csms.Config.{Config, Evse, Connector}
use headless_csms.Config.Checks.{
  len, class_run, take_class, is_charge_point_id, is_id_tag, is_country_code, is_alpha3, degrees,
  is_degrees, is_evse_id, is_blank, has_whitespace, label_rest, is_label, split_dots, all_labels,
  is_hostname, trim_right, trim,
}
use headless_csms.Config.Evses.{
  Std, required, mark, mark_text, mark_connector, validate_connector, validate_connectors_from,
  validate_connectors, validate_uid, validate_evse_id, validate_connector_id, validate_evses,
  validate_coordinate, validate_all_evses, validate_location,
}
use headless_csms.Config.Validate.{
  Raws, resolve, positive_duration, validate_heartbeat, validate_charger, validate_bind,
  validate_server, validate_auth, validate_token, validate_ocpi, validate,
}
use headless_csms.Config.Usable.{IsUsable, validate-IsUsable}
use headless_csms.Core.Sort.{sort, insert_sorted}
use headless_csms.Examples.Fixtures.{two_evses, evse1, evse2}

abbrev socket : Connector
socket = record {
  id = "1";
  standard = "IEC_62196_T2";
  format = "SOCKET";
  power_type = "AC_3_PHASE";
  max_voltage = pos 230;
  max_amperage = pos 32;
  max_electric_power = pos 0;
}

abbrev with_socket : Evse → Evse
with_socket e = record e { connectors = socket ∷ [] }

-- What `Std` answers for this configuration.
abbrev std : Std
std = record {
  quote = λ s. s;
  is_ip = λ s. true;
  split_host_port = λ s. some ("", if s == ":9000" then "9000" else "8080");
  parse_url = λ s. ok ("http", "box.lan");
  parse_duration = λ s. some (if s == "60s" then pos 60000000000 else pos 180000000000);
  Number = Unit;
  parse_float = λ s. some tt;
  is_beyond = λ n f. false;
  number_text = λ f. "0";
  less = λ s t. false;
}

abbrev texts : Raws
texts = record {
  heartbeat_interval = "60s";
  heartbeat_timeout = "3m";
  call_timeout = "3m";
  debounce = "3m";
}

abbrev good : Config
good = record two_evses {
  ocpi = record two_evses.ocpi {
    public_base_url = "http://box.lan";
    token_a = "aaaaaaaa";
    token_c = "cccccccc";
  };
  location = record two_evses.location {
    address = "Street 1";
    city = "Town";
    country = "DEU";
    coordinates = record { latitude = "52.520008"; longitude = "13.404954" };
    evses = with_socket evse1 ∷ with_socket evse2 ∷ [];
  };
}

validate-IsUsable_example : IsUsable (validate std texts good).1
unfolding len class_run take_class is_charge_point_id is_id_tag is_country_code is_alpha3 degrees
    is_degrees is_evse_id is_blank has_whitespace label_rest is_label split_dots all_labels
    is_hostname trim_right trim required mark mark_text mark_connector validate_connector
    validate_connectors_from validate_connectors validate_uid validate_evse_id validate_connector_id
    validate_evses validate_coordinate validate_all_evses validate_location resolve
    positive_duration validate_heartbeat validate_charger validate_bind validate_server
    validate_auth validate_token validate_ocpi validate atoi itoa digits scan unsigned lookup insert
    contains sort insert_sorted
validate-IsUsable_example = validate-IsUsable std texts good refl
