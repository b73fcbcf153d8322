-- ===== src/Csms/Race.antt =====
-- The window of `serveConn` of internal/ocpp/csms/server.go between the registry and core.
use headless_csms.Prelude.{
  ℕ, ◌≡◌, refl, ◌∙◌, String, false, [], ◌∷◌, none, some, string_eq, nat_eq, int_eq, lookup, insert,
  delete, lookup-insert_self, lookup-insert_ne, arith,
}
use headless_csms.Clock.{Time}
use headless_csms.Core.Service.{connected, disconnected, is_online}
use headless_csms.Csms.Registry.{
  registered, running, stopped, leaving, returned, Session, Server, registers, reports, unregisters,
  tells, register, unregister, unregister_at, on_session, step, close_old,
}
use headless_csms.Csms.Online.{is_online-disconnected}
use headless_csms.Csms.Registry.{run}
use headless_csms.Prelude.{◌==◌, eqb_iff, ==_refl, delete}

module _ (c d : ℕ) (id reason : String) (at_report at_tell : Time) (s : Server) where
  -- `c` has found itself the current connection, and left the registry.
  abbrev left : Server
  left = record s {
    conns = delete id s.conns;
    sessions = insert c (record { id = id; phase = leaving reason }) s.sessions;
  }

  -- Its replacement has come, and is served.
  abbrev replaced : Server
  replaced = record {
    conns = insert id d (delete id s.conns);
    closed = close_old (lookup id (delete id s.conns)) s.closed;
    sessions =
        insert d (record { id = id; phase = running })
          (insert d (record { id = id; phase = registered }) left.sessions);
    core = connected id at_report s.core;
  }

  abbrev blanked : Server
  blanked = record replaced {
    core = disconnected id reason at_tell replaced.core;
    sessions = insert c (record { id = id; phase = returned }) replaced.sessions;
  }

  leaves_lem :
      lookup c s.sessions ≡ some (record { id = id; phase = stopped reason })
      → lookup id s.conns ≡ some c
      → step (unregisters c) s ≡ left
  unfolding step on_session unregister_at unregister
  leaves_lem h current = rw (h, unregister_at, current, ==_refl c) refl

  arrives_lem :
      (c == d) ≡ false
      → lookup d s.sessions ≡ none
      → step (reports d at_report) (step (registers d id) left) ≡ replaced
  unfolding step on_session register
  arrives_lem ne new =
      let going : Session = record { id = id; phase = leaving reason } in
      let fresh : Session = record { id = id; phase = registered } in
      rw (lookup-insert_ne c d going s.sessions ne, new, lookup-insert_self d fresh left.sessions)
        refl

  tells_lem : (c == d) ≡ false → step (tells c at_tell) replaced ≡ blanked
  unfolding step on_session
  tells_lem ne =
      let ne' : (d == c) ≡ false = ground (arith, eqb_iff c d, eqb_iff d c) in
      let going : Session = record { id = id; phase = leaving reason } in
      let fresh : Session = record { id = id; phase = registered } in
      let served : Session = record { id = id; phase = running } in
      rw
        (
          lookup-insert_ne d c served (insert d fresh left.sessions) ne',
          lookup-insert_ne d c fresh left.sessions ne',
          lookup-insert_self c going s.sessions,
        )
        refl

  -- A connection that ends as the current one takes itself out of the registry before it tells core. If
  -- a replacement comes in between, registers itself and reports to core, then core shows the station
  -- as offline although the replacement stands in the registry and is served.
  pub replaced-not_online :
      lookup c s.sessions ≡ some (record { id = id; phase = stopped reason })
      → lookup id s.conns ≡ some c
      → (c == d) ≡ false
      → lookup d s.sessions ≡ none
      → let after =
          run (unregisters c ∷ registers d id ∷ reports d at_report ∷ tells c at_tell ∷ []) s in
        (lookup id after.conns ≡ some d) × (is_online id after.core ≡ false)
  unfolding run
  replaced-not_online h current ne new =
      rw (leaves_lem h current, arrives_lem ne new, tells_lem ne)
        (
          lookup-insert_self id d (delete id s.conns),
          is_online-disconnected id id reason at_tell replaced.core ∙ rw (==_refl id) refl,
        )
