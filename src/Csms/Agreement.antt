-- ===== src/Csms/Agreement.antt =====
-- What core and the registry of internal/ocpp/csms/server.go say of the same station.
use headless_csms.Prelude.{
  ℕ, ◌≡◌, refl, sym, ap, ◌∙◌, String, Bool, true, false, List, [], ◌∷◌, Option, none, some,
  if◌then◌else◌, ◌==◌, string_eq, nat_eq, int_eq, lookup, insert, delete, lookup-insert,
  lookup-delete, Option-cases, Bool-cases, ==_cases, arith, inl, inr, lookup-insert_ne,
}
use headless_csms.Clock.{Time}
use headless_csms.Core.Service.{is_online}
use headless_csms.Csms.Registry.{
  Phase, registered, running, stopped, leaving, returned, Session, Server, is_current,
}
use headless_csms.Csms.Online.{is_online-connected, is_online-disconnected}
use headless_csms.Csms.Whole.{
  Whole, arrives, departs, whole, run_whole, is_settled, arrived, arrived_lem, stopped_at,
  superseded, departed, departs-superseded, departs-current, arrives-known, departs-none,
  departs-returned,
}

abbrev pub is_there : Option ℕ → Bool
is_there none = false
is_there (some c) = true

-- Core shows a station as online exactly if the registry has a connection of it.
abbrev pub IsAgreed : Server → Type 0
IsAgreed s = (id : String) → is_online id s.core ≡ is_there (lookup id s.conns)

-- Between two whole moves: every session runs or has returned, and the two views agree.
pub record IsQuiet (s : Server) : Type 0 where
  pub settled : (c : ℕ) (x : Session) → lookup c s.sessions ≡ some x → is_settled x.phase ≡ true
  pub agreed : IsAgreed s

settled-insert :
    (c : ℕ) (y : Session) (m : List (ℕ × Session))
    → is_settled y.phase ≡ true
    → ((d : ℕ) (x : Session) → (c == d) ≡ false → lookup d m ≡ some x → is_settled x.phase ≡ true)
    → (d : ℕ) (x : Session) → lookup d (insert c y m) ≡ some x
    → is_settled x.phase ≡ true
settled-insert c y m good rest d x h = elim (==_cases c d) [
  | inl t ↦
      let same : some y ≡ some x = sym (rw (lookup-insert c d y m, t.0) refl) ∙ h in
      let alike : y ≡ x = cc (same) in rw (← alike) good
  | inr f ↦ rest d x f.0 (sym (lookup-insert_ne c d y m f.0) ∙ h)
]

is_there-insert :
    (id j : String) (c : ℕ) (m : List (String × ℕ))
    → is_there (lookup j (insert id c m)) ≡ (if id == j then true else is_there (lookup j m))
is_there-insert id j c m = ground (arith, lookup-insert id j c m)

arrived-IsQuiet :
    (c : ℕ) (id : String) (at : Time) (s : Server) → IsQuiet s → IsQuiet (arrived c id at s)
arrived-IsQuiet c id at s q = record {
  settled =
      settled-insert c (record { id = id; phase = running })
        (insert c (record { id = id; phase = registered }) s.sessions) refl
        (λ d x ne h.
          q.settled d x (
            sym (lookup-insert_ne c d (record { id = id; phase = registered }) s.sessions ne) ∙ h));
  agreed = λ j.
      is_online-connected id j at s.core
      ∙ ap (λ b. if id == j then true else b) (q.agreed j)
      ∙ sym (is_there-insert id j c s.conns);
}

is_there-delete :
    (id j : String) (m : List (String × ℕ))
    → is_there (lookup j (delete id m)) ≡ (if id == j then false else is_there (lookup j m))
is_there-delete id j m = ground (arith, lookup-delete id j m)

settled-stopped :
    (c : ℕ) (id reason : String) (s : Server)
    → IsQuiet s
    → (d : ℕ) (x : Session) → (c == d) ≡ false
    → lookup d (stopped_at c id reason s) ≡ some x
    → is_settled x.phase ≡ true
settled-stopped c id reason s q d x ne h =
    let old : Session = record { id = id; phase = stopped reason } in
    q.settled d x (sym (lookup-insert_ne c d old s.sessions ne) ∙ h)

superseded-IsQuiet :
    (c : ℕ) (id reason : String) (s : Server) → IsQuiet s → IsQuiet (superseded c id reason s)
superseded-IsQuiet c id reason s q = record {
  settled =
      settled-insert c (record { id = id; phase = returned }) (stopped_at c id reason s) refl
        (settled-stopped c id reason s q);
  agreed = q.agreed;
}

departed-IsQuiet :
    (c : ℕ) (id reason : String) (at : Time) (s : Server)
    → IsQuiet s
    → IsQuiet (departed c id reason at s)
departed-IsQuiet c id reason at s q = record {
  settled =
      let going : Session = record { id = id; phase = leaving reason } in
      let before = stopped_at c id reason s in
      settled-insert c (record { id = id; phase = returned }) (insert c going before) refl
        (λ d x ne h.
          settled-stopped c id reason s q d x ne (sym (lookup-insert_ne c d going before ne) ∙ h));
  agreed = λ j.
      is_online-disconnected id j reason at s.core
      ∙ ap (λ b. if id == j then false else b) (q.agreed j)
      ∙ sym (is_there-delete id j s.conns);
}

departs-IsQuiet :
    (c : ℕ) (reason : String) (at : Time) (s : Server) (id : String) (p : Phase)
    → IsQuiet s
    → lookup c s.sessions ≡ some (record { id = id; phase = p })
    → is_settled p ≡ true
    → IsQuiet (whole (departs c reason at) s)
departs-IsQuiet c reason at s id running q h settled =
    elim (Bool-cases (is_current (lookup id s.conns) c)) [
      | inl t ↦ rw (departs-current c id reason at s h t) (departed-IsQuiet c id reason at s q)
      | inr f ↦ rw (departs-superseded c id reason at s h f) (superseded-IsQuiet c id reason s q)
    ]
departs-IsQuiet c reason at s id returned q h settled = rw (departs-returned c id reason at s h) q
departs-IsQuiet c reason at s id registered q h settled = absurd (cc (settled))
departs-IsQuiet c reason at s id (stopped r) q h settled = absurd (cc (settled))
departs-IsQuiet c reason at s id (leaving r) q h settled = absurd (cc (settled))

whole-IsQuiet : (w : Whole) (s : Server) → IsQuiet s → IsQuiet (whole w s)
whole-IsQuiet (arrives c id at) s q = elim (Option-cases (lookup c s.sessions)) [
  | inl e ↦ rw (arrived_lem c id at s e) (arrived-IsQuiet c id at s q)
  | inr (x, e) ↦ rw (arrives-known c id at s x e (q.settled c x e)) q
]
whole-IsQuiet (departs c reason at) s q = elim (Option-cases (lookup c s.sessions)) [
  | inl e ↦ rw (departs-none c reason at s e) q
  | inr (x, e) ↦ departs-IsQuiet c reason at s x.id x.phase q e (q.settled c x e)
]

-- While no other goroutine comes between the steps of an arriving or of a departing connection, core
-- shows a station as online exactly if the registry has a connection of it, whatever connections come
-- and go and replace each other, if it is so in the state with which they begin.
pub run_whole-IsQuiet : (ws : List Whole) (s : Server) → IsQuiet s → IsQuiet (run_whole ws s)
unfolding run_whole
run_whole-IsQuiet [] s q = q
run_whole-IsQuiet (w ∷ ws) s q = run_whole-IsQuiet ws (whole w s) (whole-IsQuiet w s q)
