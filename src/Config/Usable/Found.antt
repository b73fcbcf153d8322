-- ===== src/Config/Usable/Found.antt =====
-- The loop over the EVSEs of internal/config/validate.go, where it finds no problem.
use Prim.Native.String.{◌++◌ as append}
use headless_csms.Prelude.{
  ℕ, suc, ◌≡◌, refl, String, Bool, true, false, List, [], ◌∷◌, ◌++◌, All, Option, none, some, ℤ,
  pos, negsuc, ltb_ℤ, ◌<ℤ◌, ◌==◌, string_eq, int_eq, Eq, lookup, insert, arith, Bool-cases, inl,
  inr, lookup-insert, ==_refl,
}
use headless_csms.Config.{Evse, find_uid, find_connector}
use headless_csms.Config.Checks.{is_blank}
use headless_csms.Config.Evses.{
  FieldError, Std, problem, required, unless, if_seen, mark, mark_text, mark_connector,
  validate_uid, validate_evse_id, validate_connector_id, validate_evses, evses_at, too_long,
  validate_connectors,
}

pub append-empty : {A : Type 0} (xs ys : List A) → xs ++ ys ≡ [] → (xs ≡ []) × (ys ≡ [])
append-empty [] ys h = (refl, h)
append-empty (x ∷ xs) ys h = absurd (cc (h))

pub required-empty :
    (path value : String) (checks : List FieldError)
    → required path value checks ≡ []
    → (is_blank value ≡ false) × (checks ≡ [])
unfolding required
required-empty path value checks h = elim (Bool-cases (is_blank value)) [
  | inl t ↦ absurd (let h' : problem path "is required" ≡ [] = rw (t, required) at h in cc (h'))
  | inr f ↦ (f, let h' : checks ≡ [] = rw (f, required) at h in h')
]

-- A test that adds no problem has succeeded.
pub unless-empty :
    (b : Bool) (e : FieldError) (es : List FieldError) → unless b (e ∷ es) ≡ [] → b ≡ true
unless-empty true e es h = refl
unless-empty false e es h = absurd (cc (h))

if_seen-empty :
    (o : Option ℕ) (path : String) (text : ℕ → String)
    → if_seen o (λ first. problem path (text first)) ≡ []
    → o ≡ none
if_seen-empty none path text h = refl
if_seen-empty (some i) path text h = absurd (cc (h))

pub All-map {ℓ κ λ'} :
    {A : Type ℓ} {P : A → Type κ} {Q : A → Type λ'} (f : (x : A) → P x → Q x) (xs : List A)
    → All P xs
    → All Q xs
All-map f [] h = tt
All-map f (x ∷ xs) h = (f x h.0, All-map f xs h.1)

-- A key that is not in the map after a mark is another one, and was not in it before.
marked {ℓ} :
    {K : Type ℓ} ⦃e : Eq K⦄ (k j : K) (i : ℕ) (seen : List (K × ℕ))
    → lookup j (insert k i seen) ≡ none
    → ((k == j) ≡ false) × (lookup j seen ≡ none)
marked k j i seen h = elim (Bool-cases (k == j)) [
  | inl t ↦ absurd (ground (arith, lookup-insert k j i seen))
  | inr f ↦ (f, ground (arith, lookup-insert k j i seen))
]

-- The loop has met neither id before, and each leads to this EVSE in the rest of the list.
pub record IsFound (uids : List (String × ℕ)) (ids : List (ℤ × ℕ)) (es : List Evse) (e : Evse)
    : Type 0 where
  pub new_uid : lookup e.uid uids ≡ none
  pub new_id : lookup e.ocpp_connector_id ids ≡ none
  pub by_uid : find_uid e.uid es ≡ some e
  pub by_id : find_connector e.ocpp_connector_id es ≡ some e
  pub above_zero : pos 0 <ℤ e.ocpp_connector_id

module _ (std : Std) where
  validate_uid-empty :
      (i : ℕ) (seen : List (String × ℕ)) (uid : String)
      → validate_uid std i seen uid ≡ []
      → (is_blank uid ≡ false) × (lookup uid seen ≡ none)
  unfolding validate_uid
  validate_uid-empty i seen uid h =
      let (filled, checks) = required-empty _ uid _ h in
      (filled, if_seen-empty (lookup uid seen) _ _ (append-empty (too_long std _ uid) _ checks).1)

  validate_connector_id-empty :
      (i : ℕ) (seen : List (ℤ × ℕ)) (id : ℤ)
      → validate_connector_id std i seen id ≡ []
      → (ltb_ℤ id (pos 1) ≡ false) × (lookup id seen ≡ none)
  unfolding validate_connector_id
  validate_connector_id-empty i seen id h = elim (Bool-cases (ltb_ℤ id (pos 1))) [
    | inl t ↦ absurd (
        let h' : problem (append (evses_at std i) ".ocpp_connector_id") _ ≡ [] =
          rw (t, validate_connector_id) at h in
        cc (h'))
    | inr f ↦ (f, if_seen-empty (lookup id seen) _ _ (rw (f, validate_connector_id) at h))
  ]

  mark-new :
      (uid : String) (i : ℕ) (uids : List (String × ℕ))
      → is_blank uid ≡ false
      → lookup uid uids ≡ none
      → mark_text uid i uids ≡ insert uid i uids
  unfolding mark_text mark
  mark-new uid i uids filled new = rw (filled, new) refl

  mark-new_id :
      (id : ℤ) (i : ℕ) (ids : List (ℤ × ℕ))
      → ltb_ℤ id (pos 1) ≡ false
      → lookup id ids ≡ none
      → mark_connector id i ids ≡ insert id i ids
  unfolding mark_connector mark
  mark-new_id id i ids high new = rw (high, new) refl

  -- What is found in the rest of the list is found in the whole.
  IsFound-later :
      (i : ℕ) (uids : List (String × ℕ)) (ids : List (ℤ × ℕ)) (e : Evse) (es : List Evse) (x : Evse)
      → IsFound (insert e.uid i uids) (insert e.ocpp_connector_id i ids) es x
      → IsFound uids ids (e ∷ es) x
  unfolding find_uid find_connector
  IsFound-later i uids ids e es x f =
      let (other_uid, new_uid) = marked e.uid x.uid i uids f.new_uid in
      let (other_id, new_id) = marked e.ocpp_connector_id x.ocpp_connector_id i ids f.new_id in
      record {
        new_uid = new_uid;
        new_id = new_id;
        by_uid = rw other_uid f.by_uid;
        by_id = rw other_id f.by_id;
        above_zero = f.above_zero;
      }

  above : (id : ℤ) → ltb_ℤ id (pos 1) ≡ false → pos 0 <ℤ id
  above (pos n) h = ground arith
  above (negsuc n) h = ground arith

  pub validate_evses-IsFound :
      (i : ℕ) (uids : List (String × ℕ)) (ids : List (ℤ × ℕ)) (names : List (String × ℕ))
      (es : List Evse)
      → validate_evses std i uids ids names es ≡ []
      → All (IsFound uids ids es) es
  unfolding validate_evses find_uid find_connector
  validate_evses-IsFound i uids ids names [] h = tt
  validate_evses-IsFound i uids ids names (e ∷ es) h =
      let own_uid = validate_uid std i uids e.uid in
      let own_name = validate_evse_id std i names e.evse_id in
      let own_id = validate_connector_id std i ids e.ocpp_connector_id in
      let links = validate_connectors std (evses_at std i) e.connectors in
      let uids' = mark_text e.uid i uids in
      let ids' = mark_connector e.ocpp_connector_id i ids in
      let names' = mark_text e.evse_id i names in
      let (own, rest) =
        append-empty (own_uid ++ own_name ++ own_id ++ links)
          (validate_evses std (suc i) uids' ids' names' es) h in
      let (own', linked) = append-empty (own_uid ++ own_name ++ own_id) links own in
      let (own'', id) = append-empty (own_uid ++ own_name) own_id own' in
      let (uid, name) = append-empty own_uid own_name own'' in
      let (filled, new_uid) = validate_uid-empty i uids e.uid uid in
      let (high, new_id) = validate_connector_id-empty i ids e.ocpp_connector_id id in
      let later = validate_evses-IsFound (suc i) uids' ids' names' es rest in
      let there : All (IsFound (insert e.uid i uids) (insert e.ocpp_connector_id i ids) es) es =
        rw
          (
            ← (mark-new e.uid i uids filled new_uid),
            ← (mark-new_id e.ocpp_connector_id i ids high new_id),
          )
          later in
      (
        record {
          new_uid = new_uid;
          new_id = new_id;
          by_uid = rw (==_refl e.uid) refl;
          by_id = rw (==_refl e.ocpp_connector_id) refl;
          above_zero = above e.ocpp_connector_id high;
        },
        All-map (IsFound-later i uids ids e es) es there,
      )
