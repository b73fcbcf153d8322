-- ===== src/Csms/Handshake.antt =====
-- internal/ocpp/csms/server.go: `ServeHTTP` up to the upgrade, `negotiate` and `chargePointID`.
pub mod Agreed
use Prim.Native.Char.{code}
use Prim.Native.String.{◌++◌ as append}
use headless_csms.Prelude.{
  ℕ, String, Bool, true, false, ◌||◌, not, eqb, List, [], ◌∷◌, Option, none, some, if◌then◌else◌,
  ◌==◌, string_eq, contains, Result, ok, err,
}
use headless_csms.Ocpp.{Version, v16, v201, subprotocol, version_from_subprotocol}

abbrev pub eq_version : Version → Version → Bool
eq_version v16 v16 = true
eq_version v201 v201 = true
eq_version _ _ = false

-- The versions of `Handlers`.
unfoldable pub supports : Version → List Version → Bool
supports v [] = false
supports v (w ∷ ws) = eq_version v w || supports v ws

abbrev pub first_supported : Option Version → List Version → Bool
first_supported none handlers = false
first_supported (some v) handlers = supports v handlers

-- The loop over the offered subprotocols.
unfoldable pub negotiate : List Version → List String → Option (Version × String)
unfolding version_from_subprotocol supports
negotiate handlers [] = none
negotiate handlers (offered ∷ more) =
    let rest = negotiate handlers more in
    elim (version_from_subprotocol offered) [
      | none ↦ rest
      | some v ↦ if supports v handlers then some (v, offered) else rest
    ]

-- The segments of a path; `part` is what has been read of the current one.
unfoldable pub split_slash : String → String → List String
split_slash part String.[] = part ∷ []
split_slash part (String.◌∷◌ c s) =
    if eqb (code c) b'/'
    then part ∷ split_slash "" s
    else split_slash (append part (String.◌∷◌ c String.[])) s

abbrev pub drop_last : List String → List String
drop_last [] = []
drop_last (s ∷ ss) = ss

-- `path.Clean` of a rooted path: the segments that are left, the last one first.
unfoldable pub clean : List String → List String → List String
clean stack [] = stack
clean stack (s ∷ ss) =
    clean (if s == "" || s == "." then stack else if s == ".." then drop_last stack else s ∷ stack)
      ss

abbrev pub base : List String → String
base [] = ""
base (s ∷ ss) = s

-- `chargePointID`: a path that is cleaned to the root has the identity "".
unfoldable pub charge_point_id : String → String
unfolding split_slash clean
charge_point_id url_path = base (clean [] (split_slash "" url_path))

pub data Refusal : Type 0 where
  -- 404: no identity in the path, or one that is not accepted.
  id_missing unknown_charge_point : Refusal
  -- 400: no version in common.
  no_subprotocol : Refusal

pub record Handshaken : Type 0 where
  pub id : String
  pub version : Version
  pub subprotocol : String

abbrev pub accepts : Option (String → Bool) → String → Bool
accepts none id = true
accepts (some accept) id = accept id

-- `ServeHTTP` up to the upgrade: what the connection is to be, or the refusal.
unfoldable pub handshake :
    Option (String → Bool) → List Version → String → List String → Result Refusal Handshaken
unfolding charge_point_id negotiate
handshake accept handlers url_path offered =
    let id = charge_point_id url_path in
    if id == ""
    then err id_missing
    else if not (accepts accept id)
    then err unknown_charge_point
    else elim (negotiate handlers offered) [
      | none ↦ err no_subprotocol
      | some (v, s) ↦ ok (record { id = id; version = v; subprotocol = s })
    ]
