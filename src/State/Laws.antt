-- ===== src/State/Laws.antt =====
-- What the state store promises: no torn file, and memory that agrees with what a restart reads.
-- About internal/state/store.go.
use headless_csms.Prelude.{
  ◌≡◌, refl, sym, ap, ◌∙◌, String, ◌⊎◌, inl, inr, List, [], ◌∷◌, map, Option, none, some, All,
  Result, ok, err, arith, ◌≢◌, true,
}
use headless_csms.State.{
  State, Reservation, Transaction, OcpiRegistration, normalize, normalize_reservation,
  normalize_transaction, normalize_registration, current_version,
}
use headless_csms.State.Json.{Value, json_reservation, json_transaction, json_registration}
use headless_csms.State.Decode.{decode_version}
use headless_csms.State.RoundTrip.{decode_state-encode, decode_version-encode}
use headless_csms.State.Store.{
  Document, StoreError, Disk, Outcome, Store, ReadFile, missing, failed, contents, opened, marshal,
  parse, parse_value, write, update, open_store,
}

json_reservations :
    (rs : List Reservation)
    → map normalize_reservation (map json_reservation (map normalize_reservation rs))
      ≡ map normalize_reservation rs
json_reservations [] = refl
json_reservations (r ∷ rs) = ap (◌∷◌ (normalize_reservation r)) (json_reservations rs)

json_transactions :
    (ts : List Transaction)
    → map normalize_transaction (map json_transaction (map normalize_transaction ts))
      ≡ map normalize_transaction ts
json_transactions [] = refl
json_transactions (t ∷ ts) = ap (◌∷◌ (normalize_transaction t)) (json_transactions ts)

json_ocpi :
    (o : Option OcpiRegistration)
    → normalize_registration (json_registration (normalize_registration o))
      ≡ normalize_registration o
json_ocpi none = refl
json_ocpi (some r) = refl

-- What the store writes, whatever state it is given, reads back as the normalized state: version,
-- registration, counters, reservations and transactions, each field through its tag in the file,
-- those that are left out when empty among them, with every time in UTC.
pub parse-marshal : (s : State) → parse (marshal (normalize s)) ≡ ok (normalize s)
unfolding parse parse_value marshal normalize
parse-marshal s =
    rw (decode_version-encode (normalize s), parse_value, decode_state-encode (normalize s))
      (cc (json_reservations s.reservations, json_transactions s.transactions, json_ocpi s.ocpi))

-- A disk seen while a state is being written: the state file is the old one or the whole new one.
abbrev pub IsWhole : Option Document → Document → Disk → Type 0
IsWhole old new d = (d.target ≡ old) ⊎ (d.target ≡ some new)

-- A write replaces the file atomically. Whatever steps fail, at every moment the state file is the
-- one from before or the complete new one; it ends as the new one if there is no error, and as the
-- old one if there is.
pub write-atomic :
    (d : Disk) (s : State) (o : Outcome)
    → All (IsWhole d.target (marshal s)) (write d s o).seen
      × (((write d s o).error ≡ none) × ((write d s o).disk.target ≡ some (marshal s))
          ⊎ ((write d s o).error ≢ none) × ((write d s o).disk.target ≡ d.target))
unfolding write
write-atomic d s o = ground arith

-- What a restart would find.
abbrev pub on_disk : Option Document → ReadFile
on_disk none = missing
on_disk (some d) = contents d

-- A restart would come up with the state that the store holds now.
abbrev pub IsSynced : Store → Type 0
IsSynced s = (r : Store) × (open_store s.path (on_disk s.disk.target) ≡ ok r) × (r.state ≡ s.state)

abbrev pub Update : Type 0
Update = State → Result StoreError State

-- What an update did: it stored the function's result, or it failed and changed nothing.
abbrev pub Stored : Update → Store → Store → Option StoreError → Type 0
Stored fn s t e =
    (next : State) × (fn s.state ≡ ok next)
    × (e ≡ none)
    × (t.state ≡ normalize next)
    × (t.disk.target ≡ some (marshal (normalize next)))
    × (t.path ≡ s.path)

abbrev pub Unchanged : Store → Store → Option StoreError → Type 0
Unchanged s t e =
    (e ≢ none) × (t.state ≡ s.state) × (t.disk.target ≡ s.disk.target) × (t.path ≡ s.path)

-- An update stores the normalized result of its function in memory and on disk and reports no
-- error, or it reports an error and leaves both the memory and the state file as they were.
pub update_all_or_nothing :
    (fn : Update) (o : Outcome) (s : Store)
    → Stored fn s (update fn o s).0 (update fn o s).1
      ⊎ Unchanged s (update fn o s).0 (update fn o s).1
unfolding update
update_all_or_nothing fn o s = by_result (fn s.state) refl
  where
    by_result :
        (r : Result StoreError State)
        → fn s.state ≡ r
        → Stored fn s (update fn o s).0 (update fn o s).1
          ⊎ Unchanged s (update fn o s).0 (update fn o s).1
    by_result (err e) p = inr (ground arith, ground arith, ground arith, ground arith)
    by_result (ok next) p = elim (write-atomic s.disk (normalize next) o).1 [
      | inl w ↦ inl (next, p, ground arith, ground arith, ground arith, ground arith)
      | inr w ↦ inr (ground arith, ground arith, ground arith, ground arith)
    ]

-- With a function that succeeds and a file system that does, an update succeeds.
pub update_succeeds :
    (fn : Update) (o : Outcome) (s : Store) (next : State)
    → fn s.state ≡ ok next
    → (o.encodes ≡ true) × (o.creates ≡ true) × (o.writes ≡ true)
    → (o.syncs ≡ true) × (o.closes ≡ true) × (o.renames ≡ true)
    → (update fn o s).1 ≡ none
unfolding update write
update_succeeds fn o s next p a b = ground arith

open_store-marshal :
    (path : String) (s : State)
    → open_store path (contents (marshal (normalize s)))
      ≡ ok (opened path (some (marshal (normalize s))) (normalize s))
unfolding open_store
open_store-marshal path s = rw (parse-marshal s, open_store)

-- Every update, successful or not, leaves the store so that a restart comes up with what it holds.
pub update-IsSynced :
    (fn : Update) (o : Outcome) (s : Store) → IsSynced s → IsSynced (update fn o s).0
update-IsSynced fn o s (r, opens, same) = elim (update_all_or_nothing fn o s) [
  | inl (next, p, e, st, disk, path) ↦ (
    opened s.path (some (marshal (normalize next))) (normalize next),
    rw (disk, path) (open_store-marshal s.path next),
    sym st,
  )
  | inr (e, st, disk, path) ↦ (r, rw (disk, path) opens, same ∙ sym st)
]

-- A store that has just been opened is in step with its file, whether there was one or not.
pub open_store-IsSynced :
    (path : String) (file : ReadFile) (s : Store) → open_store path file ≡ ok s → IsSynced s
unfolding open_store
open_store-IsSynced path missing s h = (s, ground arith, refl)
open_store-IsSynced path failed s h = absurd (ground arith)
open_store-IsSynced path (contents d) s h = (s, ground arith, refl)

-- Only a file that says version 1 is opened; any other is refused, and so never written to.
pub open_store-version :
    (path : String) (d : Document) (s : Store)
    → open_store path (contents d) ≡ ok s
    → (v : Value) × (d ≡ ok v) × (decode_version v ≡ ok (some current_version))
unfolding open_store parse parse_value
open_store-version path (err e) s h = absurd (ground arith)
open_store-version path (ok v) s h = (v, refl, ground arith)
