-- ===== src/Config/Checks.antt =====
-- The tests of internal/config/validate.go on single values, and its enumerations, of enums.go. The
-- regular expressions are read from left to right: in none of them a character can be taken in two ways.
use Prim.Native.Char.{code}
use Prim.Native.String.{◌++◌ as append}
use headless_csms.Prelude.{
  ◌≡◌, refl, ◌-◌, ℕ, zero, suc, ◌+◌, String, Bool, true, false, ◌&&◌, ◌||◌, not, eqb, leb, ltb,
  List, [], ◌∷◌, Option, none, some, if◌then◌else◌, ◌==◌, string_eq,
}
use headless_csms.Text.{is_digit}

abbrev pub is_upper : ℕ → Bool
is_upper c = leb b'A' c && leb c b'Z'

abbrev pub is_lower : ℕ → Bool
is_lower c = leb b'a' c && leb c b'z'

abbrev pub is_letter : ℕ → Bool
is_letter c = is_upper c || is_lower c

abbrev pub is_alnum : ℕ → Bool
is_alnum c = is_letter c || is_digit c

-- `len` of a string: its bytes in UTF-8.
abbrev pub char_bytes : ℕ → ℕ
char_bytes c = if ltb c 0x80 then 1 else if ltb c 0x800 then 2 else if ltb c 0x10000 then 3 else 4

unfoldable pub len : String → ℕ
len String.[] = 0
len (String.◌∷◌ c s) = char_bytes (code c) + len s

-- Between `lo` and `hi` characters, all of a class, and then the end.
unfoldable pub class_run : (ℕ → Bool) → ℕ → ℕ → String → Bool
class_run p lo hi String.[] = eqb lo 0
class_run p lo hi (String.◌∷◌ c s) =
    let rest = class_run p (lo - 1) (hi - 1) s in p (code c) && ltb 0 hi && rest

-- The rest after exactly `n` characters of a class.
unfoldable pub take_class : (ℕ → Bool) → ℕ → String → Option String
take_class p zero s = some s
take_class p (suc n) String.[] = none
take_class p (suc n) (String.◌∷◌ c s) =
    let rest = take_class p n s in if p (code c) then rest else none

-- The rest after a character that may be left out.
abbrev pub skip : ℕ → String → String
skip x String.[] = String.[]
skip x (String.◌∷◌ c s) = if eqb (code c) x then s else String.◌∷◌ c s

abbrev pub is_char_of_id : ℕ → Bool
is_char_of_id c = is_alnum c || eqb c b'.' || eqb c b'_' || eqb c b':' || eqb c b'~' || eqb c b'-'

-- `chargePointIDRe`, `idTagRe`, `countryCodeRe`, `partyIDRe` and `alpha3Re`.
unfoldable pub is_charge_point_id : String → Bool
unfolding class_run
is_charge_point_id = class_run is_char_of_id 1 48

unfoldable pub is_id_tag : String → Bool
unfolding class_run
is_id_tag = class_run (λ c. leb 0x21 c && leb c 0x7e) 1 20

unfoldable pub is_country_code : String → Bool
unfolding class_run
is_country_code = class_run is_upper 2 2

unfoldable pub is_alpha3 : String → Bool
unfolding class_run
is_alpha3 = class_run is_upper 3 3

-- The digits before a point, at most `max` and at least one unless `seen`, and 5 to 7 after it.
unfoldable pub degrees : ℕ → Bool → String → Bool
unfolding class_run
degrees max seen String.[] = false
degrees zero seen (String.◌∷◌ c s) = eqb (code c) b'.' && seen && class_run is_digit 5 7 s
degrees (suc max) seen (String.◌∷◌ c s) =
    let rest = degrees max true s in
    if is_digit (code c) then rest else eqb (code c) b'.' && seen && class_run is_digit 5 7 s

-- `latitudeRe` and `longitudeRe`, with 2 and 3 digits at most.
unfoldable pub is_degrees : ℕ → String → Bool
unfolding degrees
is_degrees max s = degrees max false (skip b'-' s)

abbrev pub or_else : Option String → (String → Option String) → Option String
or_else none f = none
or_else (some s) f = f s

abbrev pub ends_with_run : Option String → Bool
ends_with_run none = false
ends_with_run (some s) = class_run (λ c. is_alnum c || eqb c b'*') 1 30 s

-- `evseIDRe`.
unfoldable pub is_evse_id : String → Bool
unfolding take_class class_run
is_evse_id s = ends_with_run (
    or_else (take_class is_letter 2 s) (λ t.
      or_else (take_class is_alnum 3 (skip b'*' t))
        (λ u. take_class (λ c. eqb c b'E' || eqb c b'e') 1 (skip b'*' u))))

-- The characters that `strings.TrimSpace` drops.
abbrev pub is_space : ℕ → Bool
is_space c =
    eqb c 0x20
    || (leb 0x9 c && leb c 0xd)
    || eqb c 0x85
    || eqb c 0xa0
    || eqb c 0x1680
    || (leb 0x2000 c && leb c 0x200a)
    || eqb c 0x2028
    || eqb c 0x2029
    || eqb c 0x202f
    || eqb c 0x205f
    || eqb c 0x3000

-- `strings.TrimSpace(s) == ""`.
unfoldable pub is_blank : String → Bool
is_blank String.[] = true
is_blank (String.◌∷◌ c s) = is_space (code c) && is_blank s

-- `strings.ContainsAny(s, " \t\r\n")`.
unfoldable pub has_whitespace : String → Bool
has_whitespace String.[] = false
has_whitespace (String.◌∷◌ c s) =
    (eqb (code c) 0x20 || eqb (code c) 0x9 || eqb (code c) 0xd || eqb (code c) 0xa)
    || has_whitespace s

abbrev pub is_wildcard_host : String → Bool
is_wildcard_host h = h == "" || h == "0.0.0.0" || h == "::" || h == "[::]"

-- One label of a name, after its first character: letters, digits and '-', which is not the last.
unfoldable pub label_rest : Bool → String → Bool
label_rest hyphen String.[] = not hyphen
label_rest hyphen (String.◌∷◌ c s) =
    let more = label_rest (eqb (code c) b'-') s in (is_alnum (code c) || eqb (code c) b'-') && more

abbrev pub starts_with_hyphen : String → Bool
starts_with_hyphen String.[] = false
starts_with_hyphen (String.◌∷◌ c s) = eqb (code c) b'-'

unfoldable pub is_label : String → Bool
unfolding len label_rest
is_label s = not (s == "") && leb (len s) 63 && not (starts_with_hyphen s) && label_rest false s

-- `strings.Split(s, ".")`; `part` is what has been read of the current label.
unfoldable pub split_dots : String → String → List String
split_dots part String.[] = part ∷ []
split_dots part (String.◌∷◌ c s) =
    if eqb (code c) b'.'
    then part ∷ split_dots "" s
    else split_dots (append part (String.◌∷◌ c String.[])) s

unfoldable pub all_labels : List String → Bool
unfolding is_label
all_labels [] = true
all_labels (s ∷ ss) = is_label s && all_labels ss

unfoldable pub is_hostname : String → Bool
unfolding len split_dots all_labels
is_hostname s = not (s == "") && leb (len s) 253 && all_labels (split_dots "" s)

abbrev pub connector_standards : List String
connector_standards =
    "CHADEMO" ∷ "CHAOJI" ∷ "DOMESTIC_A" ∷ "DOMESTIC_B" ∷ "DOMESTIC_C" ∷ "DOMESTIC_D" ∷ "DOMESTIC_E"
    ∷ "DOMESTIC_F" ∷ "DOMESTIC_G" ∷ "DOMESTIC_H" ∷ "DOMESTIC_I" ∷ "DOMESTIC_J" ∷ "DOMESTIC_K"
    ∷ "DOMESTIC_L" ∷ "DOMESTIC_M" ∷ "DOMESTIC_N" ∷ "DOMESTIC_O" ∷ "GBT_AC" ∷ "GBT_DC"
    ∷ "IEC_60309_2_single_16" ∷ "IEC_60309_2_three_16" ∷ "IEC_60309_2_three_32"
    ∷ "IEC_60309_2_three_64" ∷ "IEC_62196_T1" ∷ "IEC_62196_T1_COMBO" ∷ "IEC_62196_T2"
    ∷ "IEC_62196_T2_COMBO" ∷ "IEC_62196_T3A" ∷ "IEC_62196_T3C" ∷ "NEMA_5_20" ∷ "NEMA_6_30"
    ∷ "NEMA_6_50" ∷ "NEMA_10_30" ∷ "NEMA_10_50" ∷ "NEMA_14_30" ∷ "NEMA_14_50"
    ∷ "PANTOGRAPH_BOTTOM_UP" ∷ "PANTOGRAPH_TOP_DOWN" ∷ "TESLA_R" ∷ "TESLA_S" ∷ []

abbrev pub connector_formats : List String
connector_formats = "SOCKET" ∷ "CABLE" ∷ []

abbrev pub power_types : List String
power_types = "AC_1_PHASE" ∷ "AC_2_PHASE" ∷ "AC_2_PHASE_SPLIT" ∷ "AC_3_PHASE" ∷ "DC" ∷ []

abbrev pub ocpp_versions : List String
ocpp_versions = "1.6" ∷ "2.0.1" ∷ []

is_evse_id_run : is_evse_id "DE*FRY*E001*1" ≡ true
unfolding is_evse_id take_class class_run
is_evse_id_run = refl

is_degrees_run : is_degrees 2 "-52.520008" ≡ true
unfolding is_degrees degrees class_run
is_degrees_run = refl

is_hostname_run : is_hostname "box-1.lan" ≡ true
unfolding is_hostname len split_dots all_labels is_label label_rest
is_hostname_run = refl

-- `strings.TrimSpace`.
unfoldable pub trim_right : String → String
unfolding is_blank
trim_right String.[] = String.[]
trim_right (String.◌∷◌ c s) =
    let rest = trim_right s in if is_blank (String.◌∷◌ c s) then String.[] else String.◌∷◌ c rest

unfoldable pub trim : String → String
unfolding trim_right
trim String.[] = String.[]
trim (String.◌∷◌ c s) =
    let rest = trim s in if is_space (code c) then rest else trim_right (String.◌∷◌ c s)
