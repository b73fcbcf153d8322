-- ===== src/Csms/Whole.antt =====
-- The steps of `serveConn` of internal/ocpp/csms/server.go without another goroutine in between.
use headless_csms.Prelude.{
  ℕ, ◌≡◌, refl, ap, ◌∙◌, String, Bool, true, false, List, [], ◌∷◌, none, some, string_eq, nat_eq,
  int_eq, lookup, insert, delete, lookup-insert_self,
}
use headless_csms.Clock.{Time}
use headless_csms.Core.Service.{connected, disconnected}
use headless_csms.Csms.Registry.{
  Phase, registered, running, stopped, leaving, returned, Session, Server, registers, reports,
  stops, unregisters, tells, is_current, register, unregister, report_at, unregister_at, on_session,
  step, close_old,
}

-- `serveConn` up to its `Run`, and from there to its end, each without another goroutine in between.
pub data Whole : Type 0 where
  arrives : ℕ → String → Time → Whole
  departs : ℕ → String → Time → Whole

unfoldable pub whole : Whole → Server → Server
unfolding step
whole (arrives c id at) s = step (reports c at) (step (registers c id) s)
whole (departs c reason at) s = step (tells c at) (step (unregisters c) (step (stops c reason) s))

unfoldable pub run_whole : List Whole → Server → Server
unfolding whole
run_whole [] s = s
run_whole (w ∷ ws) s = run_whole ws (whole w s)

abbrev pub is_settled : Phase → Bool
is_settled running = true
is_settled returned = true
is_settled _ = false

-- The server once a new connection runs.
abbrev pub arrived : ℕ → String → Time → Server → Server
arrived c id at s = record {
  conns = insert id c s.conns;
  closed = close_old (lookup id s.conns) s.closed;
  sessions =
      insert c (record { id = id; phase = running })
        (insert c (record { id = id; phase = registered }) s.sessions);
  core = connected id at s.core;
}

pub arrived_lem :
    (c : ℕ) (id : String) (at : Time) (s : Server)
    → lookup c s.sessions ≡ none
    → whole (arrives c id at) s ≡ arrived c id at s
unfolding whole step register on_session
arrived_lem c id at s h =
    let new : Session = record { id = id; phase = registered } in
    rw (h, lookup-insert_self c new s.sessions) refl

-- The server once the connection of `x` has ended: its session stands as `phases` left it.
abbrev pub returned_at : ℕ → String → List (ℕ × Session) → List (ℕ × Session)
returned_at c id m = insert c (record { id = id; phase = returned }) m

abbrev pub stopped_at : ℕ → String → String → Server → List (ℕ × Session)
stopped_at c id reason s = insert c (record { id = id; phase = stopped reason }) s.sessions

abbrev pub superseded : ℕ → String → String → Server → Server
superseded c id reason s = record s { sessions = returned_at c id (stopped_at c id reason s) }

abbrev pub departed : ℕ → String → String → Time → Server → Server
departed c id reason at s = record s {
  conns = delete id s.conns;
  core = disconnected id reason at s.core;
  sessions =
      returned_at c id
        (insert c (record { id = id; phase = leaving reason }) (stopped_at c id reason s));
}

stops_lem :
    (c : ℕ) (reason : String) (s : Server) (id : String)
    → lookup c s.sessions ≡ some (record { id = id; phase = running })
    → step (stops c reason) s ≡ record s { sessions = stopped_at c id reason s }
unfolding step on_session
stops_lem c reason s id h = rw h refl

unregisters_lem :
    (c : ℕ) (reason : String) (s : Server) (id : String)
    → step (unregisters c) (record s { sessions = stopped_at c id reason s })
      ≡ unregister c id reason (record s { sessions = stopped_at c id reason s })
unfolding step on_session unregister_at
unregisters_lem c reason s id =
    let old : Session = record { id = id; phase = stopped reason } in
    rw (lookup-insert_self c old s.sessions) refl

pub departs-superseded :
    (c : ℕ) (id reason : String) (at : Time) (s : Server)
    → lookup c s.sessions ≡ some (record { id = id; phase = running })
    → is_current (lookup id s.conns) c ≡ false
    → whole (departs c reason at) s ≡ superseded c id reason s
unfolding whole
departs-superseded c id reason at s h f =
    ap (λ t. step (tells c at) (step (unregisters c) t)) (stops_lem c reason s id h)
    ∙ ap (step (tells c at)) (unregisters_lem c reason s id)
    ∙ ap (step (tells c at)) left
    ∙ told
  where
    left :
        unregister c id reason (record s { sessions = stopped_at c id reason s })
        ≡ superseded c id reason s
    left = unfold unregister in rw f refl

    told : step (tells c at) (superseded c id reason s) ≡ superseded c id reason s
    told =
        let gone : Session = record { id = id; phase = returned } in
        unfold step on_session in rw (lookup-insert_self c gone (stopped_at c id reason s)) refl

pub departs-current :
    (c : ℕ) (id reason : String) (at : Time) (s : Server)
    → lookup c s.sessions ≡ some (record { id = id; phase = running })
    → is_current (lookup id s.conns) c ≡ true
    → whole (departs c reason at) s ≡ departed c id reason at s
unfolding whole
departs-current c id reason at s h f =
    ap (λ t. step (tells c at) (step (unregisters c) t)) (stops_lem c reason s id h)
    ∙ ap (step (tells c at)) (unregisters_lem c reason s id)
    ∙ ap (step (tells c at)) left
    ∙ told
  where
    going : Session
    going = record { id = id; phase = leaving reason }

    left : unregister c id reason (record s { sessions = stopped_at c id reason s }) ≡ record s {
      conns = delete id s.conns;
      sessions = insert c going (stopped_at c id reason s);
    }
    left = unfold unregister in rw f refl

    told :
        step (tells c at) (record s {
          conns = delete id s.conns;
          sessions = insert c going (stopped_at c id reason s);
        })
        ≡ departed c id reason at s
    told = unfold step on_session in rw (lookup-insert_self c going (stopped_at c id reason s)) refl

-- A move of a connection that is not there, or not in the phase for it.
pub arrives-known :
    (c : ℕ) (id : String) (at : Time) (s : Server) (x : Session)
    → lookup c s.sessions ≡ some x
    → is_settled x.phase ≡ true
    → whole (arrives c id at) s ≡ s
unfolding whole step on_session
arrives-known c id at s x h settled = rw (h, h) (reported x.phase settled)
  where
    reported : (p : Phase) → is_settled p ≡ true → report_at c at x.id p s ≡ s
    reported running e = refl
    reported returned e = refl
    reported registered e = absurd (cc (e))
    reported (stopped r) e = absurd (cc (e))
    reported (leaving r) e = absurd (cc (e))

pub departs-none :
    (c : ℕ) (reason : String) (at : Time) (s : Server)
    → lookup c s.sessions ≡ none
    → whole (departs c reason at) s ≡ s
unfolding whole step on_session
departs-none c reason at s h = rw (h, h, h) refl

pub departs-returned :
    (c : ℕ) (id reason : String) (at : Time) (s : Server)
    → lookup c s.sessions ≡ some (record { id = id; phase = returned })
    → whole (departs c reason at) s ≡ s
unfolding whole step on_session unregister_at
departs-returned c id reason at s h = rw (h, h, h) refl
