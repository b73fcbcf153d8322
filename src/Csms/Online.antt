-- ===== src/Csms/Online.antt =====
-- What core says of a station while the steps of `serveConn` do not interleave. About
-- internal/ocpp/csms/server.go and internal/core/service.go.
use headless_csms.Prelude.{
  ◌≡◌, refl, ap, ◌∙◌, String, true, false, not, if◌then◌else◌, ◌==◌, string_eq, nat_eq, int_eq,
  lookup-insert, Bool-cases, arith, inl, inr,
}
use headless_csms.Clock.{Time}
use headless_csms.Core.Types.{ChargePointState, Service}
use headless_csms.Core.ChargePoint.{recompute}
use headless_csms.Core.ChargePoint.Effective.{recompute_lem}
use headless_csms.Core.Service.{
  ensure, put, connected_locked, connected, disconnected_locked, disconnected, is_online,
}

is_online-put :
    (id j : String) (cp : ChargePointState) (s : Service)
    → is_online j (put id cp s) ≡ (if id == j then cp.online else is_online j s)
unfolding is_online put
is_online-put id j cp s = ground (arith, lookup-insert id j cp s.cps)

recompute-online : (at : Time) (cp : ChargePointState) → (recompute at cp).0.online ≡ cp.online
recompute-online at cp = ap (λ (c : ChargePointState). c.online) (recompute_lem at cp).1

pub is_online-connected :
    (id j : String) (at : Time) (s : Service)
    → is_online j (connected id at s) ≡ (if id == j then true else is_online j s)
unfolding connected connected_locked
is_online-connected id j at s =
    let cp : ChargePointState = record (ensure id s) { online = true; last_seen = at } in
    same ∙ is_online-put id j (recompute at cp).0 s ∙ rw (recompute-online at cp) refl
  where
    same : is_online j (connected id at s) ≡ is_online j (connected_locked id at s).0
    same = unfold is_online in refl

is_online-gone :
    (id j : String) (cp : ChargePointState) (s t : Service)
    → t ≡ put id cp s
    → cp.online ≡ false
    → is_online j t ≡ (if id == j then false else is_online j s)
is_online-gone id j cp s t e off = ap (is_online j) e ∙ is_online-put id j cp s ∙ rw off refl

is_online-disconnected_locked :
    (id j reason : String) (at : Time) (s : Service)
    → is_online j (disconnected_locked id reason at s).0
      ≡ (if id == j then false else is_online j s)
unfolding disconnected_locked
is_online-disconnected_locked id j reason at s =
    let old = ensure id s in
    let gone : ChargePointState = record old {
      online = false;
      last_disconnect = record { at = at; reason = reason };
    } in
    elim (Bool-cases (not old.online)) [
      | inl t ↦
          is_online-gone id j old s (disconnected_locked id reason at s).0
            (rw (t, disconnected_locked) refl) (ground arith)
      | inr f ↦
          is_online-gone id j (recompute at gone).0 s (disconnected_locked id reason at s).0
            (rw (f, disconnected_locked) refl) (recompute-online at gone)
    ]

pub is_online-disconnected :
    (id j reason : String) (at : Time) (s : Service)
    → is_online j (disconnected id reason at s) ≡ (if id == j then false else is_online j s)
is_online-disconnected id j reason at s = same ∙ is_online-disconnected_locked id j reason at s
  where
    same :
        is_online j (disconnected id reason at s)
        ≡ is_online j (disconnected_locked id reason at s).0
    same = unfold disconnected is_online in refl
