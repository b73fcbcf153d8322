-- ===== src/Csms/Registry.antt =====
-- internal/ocpp/csms/server.go: `serveConn` as the steps between which other goroutines run, and what
-- every interleaving keeps of the registry.
use headless_csms.Prelude.{
  ℕ, String, Bool, false, eqb, List, [], ◌∷◌, Option, none, some, if◌then◌else◌, string_eq, nat_eq,
  lookup, insert, delete,
}
use headless_csms.Clock.{Time}
use headless_csms.Core.Types.{Service}
use headless_csms.Core.Service.{connected, disconnected}

-- How far `serveConn` of a connection has come: registered; reported to core, and running; no longer
-- running, with the reason; out of the registry, where it still stood; and returned.
pub data Phase : Type 0 where
  registered running : Phase
  stopped leaving : String → Phase
  returned : Phase

pub record Session : Type 0 where
  pub id : String
  pub phase : Phase

-- `conns` is the registry, `closed` the connections on which `Close` has been called.
pub record Server : Type 0 where
  pub conns : List (String × ℕ)
  pub closed : List ℕ
  pub sessions : List (ℕ × Session)
  pub core : Service

pub data Move : Type 0 where
  -- A new connection, which the handshake has given an identity.
  registers : ℕ → String → Move
  reports : ℕ → Time → Move
  stops : ℕ → String → Move
  unregisters : ℕ → Move
  tells : ℕ → Time → Move
  -- `Shutdown` closes every connection.
  shuts : Move

abbrev pub close_old : Option ℕ → List ℕ → List ℕ
close_old none closed = closed
close_old (some c) closed = c ∷ closed

abbrev pub at_phase : ℕ → String → Phase → Server → Server
at_phase c id p s = record s { sessions = insert c (record { id = id; phase = p }) s.sessions }

unfoldable pub register : ℕ → String → Server → Server
register c id s =
    at_phase c id registered
      (record s { conns = insert id c s.conns; closed = close_old (lookup id s.conns) s.closed })

abbrev pub is_current : Option ℕ → ℕ → Bool
is_current none c = false
is_current (some d) c = eqb d c

-- The second locked section of `serveConn`.
unfoldable pub unregister : ℕ → String → String → Server → Server
unregister c id reason s =
    if is_current (lookup id s.conns) c
    then at_phase c id (leaving reason) (record s { conns = delete id s.conns })
    else at_phase c id returned s

-- Each step of the goroutine of `c` is taken only where its phase says.
abbrev pub report_at : ℕ → Time → String → Phase → Server → Server
report_at c at id registered s = at_phase c id running (record s { core = connected id at s.core })
report_at c at id _ s = s

abbrev pub stop_at : ℕ → String → String → Phase → Server → Server
stop_at c reason id running s = at_phase c id (stopped reason) s
stop_at c reason id _ s = s

unfoldable pub unregister_at : ℕ → String → Phase → Server → Server
unfolding unregister
unregister_at c id (stopped reason) s = unregister c id reason s
unregister_at c id _ s = s

abbrev pub tell_at : ℕ → Time → String → Phase → Server → Server
tell_at c at id (leaving reason) s =
    at_phase c id returned (record s { core = disconnected id reason at s.core })
tell_at c at id _ s = s

unfoldable pub on_session : (String → Phase → Server → Server) → Option Session → Server → Server
on_session f none s = s
on_session f (some x) s = f x.id x.phase s

-- A connection is a new pointer.
abbrev pub register_new : ℕ → String → Option Session → Server → Server
register_new c id none s = register c id s
register_new c id (some x) s = s

abbrev pub close_all : List (String × ℕ) → List ℕ → List ℕ
close_all [] closed = closed
close_all ((id, c) ∷ cs) closed = c ∷ close_all cs closed

unfoldable pub step : Move → Server → Server
unfolding on_session register unregister_at
step (registers c id) s = register_new c id (lookup c s.sessions) s
step (reports c at) s = on_session (report_at c at) (lookup c s.sessions) s
step (stops c reason) s = on_session (stop_at c reason) (lookup c s.sessions) s
step (unregisters c) s = on_session (unregister_at c) (lookup c s.sessions) s
step (tells c at) s = on_session (tell_at c at) (lookup c s.sessions) s
step shuts s = record s { closed = close_all s.conns s.closed }

unfoldable pub run : List Move → Server → Server
run [] s = s
run (m ∷ ms) s = run ms (step m s)
