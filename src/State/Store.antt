-- ===== src/State/Store.antt =====
-- internal/state/store.go. A file is a JSON text, and each system call of a write succeeds or fails as
-- its `Outcome` says.
use headless_csms.Prelude.{
  String, Bool, List, [], ◌∷◌, Option, none, some, if◌then◌else◌, ltb_ℤ, ℤ, ◌==◌, int_eq, not,
  Result, ok, err,
}
use headless_csms.State.{State, current_version, empty, normalize}
use headless_csms.State.Json.{Value, encode_state}
use headless_csms.State.Decode.{decode_version, decode_state}

-- The bytes of a file: a value, or the text of a syntax error.
abbrev pub Document : Type 0
Document = Result String Value

-- json.MarshalIndent of a state, with a line break behind it.
unfoldable pub marshal : State → Document
marshal s = ok (encode_state s)

pub data StoreError : Type 0 where
  invalid_json : String → StoreError
  no_version : StoreError
  newer_version unsupported_version : ℤ → StoreError
  reading encoding writing replacing : StoreError
  -- An error of the function given to `update`.
  refused : StoreError

-- The `switch` on the header's version.
abbrev pub check_version : Option ℤ → Result StoreError ℤ
check_version none = err no_version
check_version (some v) =
    if ltb_ℤ current_version v
    then err (newer_version v)
    else if not (v == current_version)
    then err (unsupported_version v)
    else ok v

abbrev pub decode_body : Result String State → Result StoreError State
decode_body (err e) = err (invalid_json e)
decode_body (ok s) = ok (normalize s)

-- The version in a value, and then the rest of it.
unfoldable pub parse_value : Value → Result StoreError State
parse_value v = elim (decode_version v) [
  | err e ↦ err (invalid_json e)
  | ok version ↦ elim (check_version version) [
    | err e ↦ err e
    | ok _ ↦ decode_body (decode_state v)
  ]
]

unfoldable pub parse : Document → Result StoreError State
unfolding parse_value
parse (err e) = err (invalid_json e)
parse (ok v) = parse_value v

-- The temporary file beside the state file.
pub data Temp : Type 0 where
  absent partial : Temp
  complete : Document → Temp

pub record Disk : Type 0 where
  pub target : Option Document
  pub temp : Temp

-- Whether each step of a write succeeds.
pub record Outcome : Type 0 where
  pub encodes : Bool
  pub creates : Bool
  pub writes : Bool
  pub syncs : Bool
  pub closes : Bool
  pub renames : Bool
  pub removes : Bool

-- A write's result, with every state of the disk on the way, in order: what a crash can leave.
pub record Written : Type 0 where
  pub seen : List Disk
  pub disk : Disk
  pub error : Option StoreError

-- The deferred clean-up after an error.
abbrev pub discard : Disk → Outcome → Disk
discard d o = if o.removes then record d { temp = absent } else d

unfoldable pub write : Disk → State → Outcome → Written
write d s o =
    if not o.encodes
    then record { seen = d ∷ []; disk = d; error = some encoding }
    else if not o.creates
    then record { seen = d ∷ []; disk = d; error = some writing }
    else if not o.writes
    then failed (d ∷ begun ∷ []) begun writing
    else if not o.syncs
    then failed (d ∷ begun ∷ full ∷ []) full writing
    else if not o.closes
    then failed (d ∷ begun ∷ full ∷ []) full writing
    else if not o.renames
    then failed (d ∷ begun ∷ full ∷ []) full replacing
    else record { seen = d ∷ begun ∷ full ∷ renamed ∷ []; disk = renamed; error = none }
  where
    begun : Disk
    begun = record d { temp = partial }

    full : Disk
    full = record d { temp = complete (marshal s) }

    renamed : Disk
    renamed = record { target = some (marshal s); temp = absent }

    failed : List Disk → Disk → StoreError → Written
    failed seen at e = record { seen = seen; disk = discard at o; error = some e }

pub record Store : Type 0 where
  pub path : String
  pub state : State
  pub disk : Disk

unfoldable pub get : Store → State
get s = s.state

-- The rest of `Update` once the function has run.
abbrev pub commit : Store → State → Written → Store × Option StoreError
commit s next w = elim w.error [
  | some e ↦ (record s { disk = w.disk }, some e)
  | none ↦ (record s { disk = w.disk; state = next }, none)
]

unfoldable pub update :
    (State → Result StoreError State) → Outcome → Store → Store × Option StoreError
update fn o s = elim (fn s.state) [
  | err e ↦ (s, some e)
  | ok next ↦ let n = normalize next in commit s n (write s.disk n o)
]

-- os.ReadFile at start-up.
pub data ReadFile : Type 0 where
  missing failed : ReadFile
  contents : Document → ReadFile

abbrev pub opened : String → Option Document → State → Store
opened path file s = record {
  path = path;
  state = s;
  disk = record { target = file; temp = absent };
}

unfoldable pub open_store : String → ReadFile → Result StoreError Store
open_store path missing = ok (opened path none empty)
open_store path failed = err reading
open_store path (contents d) = elim (parse d) [ err e ↦ err e | ok s ↦ ok (opened path (some d) s) ]
