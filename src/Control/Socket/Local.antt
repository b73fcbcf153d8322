-- ===== src/Control/Socket/Local.antt =====
-- The requests that internal/control/socket/server.go answers with the code "refused".
use headless_csms.Prelude.{
  ◌≡◌, refl, ap, ◌∙◌, String, [], Result, ok, err, Bool-cases, Option-cases, inl, inr, arith,
  lookup, string_eq, int_eq, ◌==◌,
}
use headless_csms.Config.{Config}
use headless_csms.Core.Types.{Service}
use headless_csms.Core.Reservations.{already_reserved, unknown_evse, recording}
use headless_csms.Control.Types.{
  CommandStatus, accepted, rejected, occupied, faulted, unavailable, unlocked, unlock_failed,
  not_supported, not_implemented, unknown, CallError, timed_out, not_connected, unknown_to_station,
  rpc_error, other, Station, ControlError, of_core, of_call, not_configured, no_reservation,
  no_active_transaction, shutting_down, refused, recording_start, ambiguous, vanished, Done,
}
use headless_csms.Control.Socket.{
  version, nothing, reserve_result, reserve_params, code_refused, SocketError, Request, Response,
  Payload, code_of_status, classify_call, classify, Words, Course, Served, served, expires_in,
  reserve_served, Action, gives_status, probes, reserves, cancels, starts, stops, unlocks, actions,
  act, dispatch,
}
use headless_csms.Control.Socket.Actions.{
  IsLocal, IsHonest, Result-cases, cancel-IsHonest, stop-IsHonest, unlock-IsHonest, start-IsHonest,
  reserve-IsHonest,
}

code_of_status-other : (st : CommandStatus) → ¬ (code_of_status st ≡ code_refused)
code_of_status-other accepted h = cc (h)
code_of_status-other rejected h = cc (h)
code_of_status-other occupied h = cc (h)
code_of_status-other faulted h = cc (h)
code_of_status-other unavailable h = cc (h)
code_of_status-other unlocked h = cc (h)
code_of_status-other unlock_failed h = cc (h)
code_of_status-other not_supported h = cc (h)
code_of_status-other not_implemented h = cc (h)
code_of_status-other unknown h = cc (h)

classify_call-other :
    (text : String) (e : CallError) → ¬ ((classify_call text e).code ≡ code_refused)
classify_call-other text timed_out h = cc (h)
classify_call-other text not_connected h = cc (h)
classify_call-other text (unknown_to_station uid) h = cc (h)
classify_call-other text (other why) h = cc (h)
classify_call-other text (rpc_error code) h = ground arith

classify-IsLocal :
    (text : String) (e : ControlError) → (classify text e).code ≡ code_refused → IsLocal e
unfolding classify
classify-IsLocal text (refused op uid a) h = absurd (code_of_status-other a.status h)
classify-IsLocal text (of_call e) h = absurd (classify_call-other text e h)
classify-IsLocal text (of_core (already_reserved uid)) h = tt
classify-IsLocal text (of_core (unknown_evse uid)) h = absurd (cc (h))
classify-IsLocal text (of_core (recording e)) h = absurd (cc (h))
classify-IsLocal text shutting_down h = tt
classify-IsLocal text (no_reservation uid) h = tt
classify-IsLocal text (no_active_transaction uid) h = tt
classify-IsLocal text (not_configured uid) h = absurd (cc (h))
classify-IsLocal text (recording_start e) h = absurd (cc (h))
classify-IsLocal text (ambiguous uid ids) h = absurd (cc (h))
classify-IsLocal text (vanished id) h = absurd (cc (h))

module _ (w : Words) where
  -- A response: the code "refused" means that nothing was done.
  abbrev IsTruthful : Service → Served → Type 0
  IsTruthful s d =
      (e : SocketError)
      → d.response ≡ err e
      → e.code ≡ code_refused
      → (d.sent ≡ []) × (d.service ≡ s)

  served-IsTruthful {ℓ} :
      {A : Type ℓ} (f : A → Payload) (s : Service) (d : Done A)
      → IsHonest s d
      → IsTruthful s (served w f d)
  unfolding served
  served-IsTruthful f s d honest e h c = elim (Result-cases d.result) [
    | inl (x, k) ↦
        let same : ◌≡◌ {A = Response} (err (classify (w.error_text x) x)) (err e) =
          rw (served, k) at h in
        let inner : classify (w.error_text x) x ≡ e = cc (same) in
        honest x k
          (classify-IsLocal (w.error_text x) x (ap (λ (y : SocketError). y.code) inner ∙ c))
    | inr (a, k) ↦
        absurd (let h' : ◌≡◌ {A = Response} (ok (f a)) (err e) = rw (served, k) at h in cc (h'))
  ]

  module _ (cfg : Config) (commands : String → Result CallError Station) (charge_point_id : String)
      (k : Course) where
    reserve_served-IsTruthful :
        (req : Request) (s : Service)
        → IsTruthful s (reserve_served w cfg commands charge_point_id k req s)
    unfolding reserve_served
    reserve_served-IsTruthful req s =
        elim (Result-cases (expires_in w cfg commands charge_point_id k req.expires_in)) [
          | inl (e, g) ↦ rw (reserve_served, g) (λ f h c. (refl, refl))
          | inr (d, g) ↦
              rw (reserve_served, g)
                (served-IsTruthful (reserve_result w cfg commands charge_point_id k) s _ (
                  reserve-IsHonest cfg commands k.closed
                    (reserve_params w cfg commands charge_point_id k req d) k.now k.created k.armed
                    k.at k.first_write k.second_write k.during s))
        ]

    act-IsTruthful :
        (a : Action) (req : Request) (s : Service)
        → IsTruthful s (act w cfg commands charge_point_id k a req s)
    unfolding act
    act-IsTruthful gives_status req s e h c = (refl, refl)
    act-IsTruthful probes req s e h c = (refl, refl)
    act-IsTruthful reserves req s e h c = reserve_served-IsTruthful req s e h c
    act-IsTruthful cancels req s e h c =
        served-IsTruthful (λ u. nothing) s _
          (cancel-IsHonest cfg commands req.evse k.at k.first_write k.during s) e h c
    act-IsTruthful starts req s e h c =
        served-IsTruthful (λ u. nothing) s _
          (start-IsHonest cfg commands req.evse req.id_tag k.first_write k.during s) e h c
    act-IsTruthful stops req s e h c =
        served-IsTruthful (λ u. nothing) s _ (stop-IsHonest cfg commands req.evse k.during s) e h c
    act-IsTruthful unlocks req s e h c =
        served-IsTruthful (λ u. nothing) s _ (unlock-IsHonest cfg commands req.evse k.during s) e h
          c

    dispatch-IsTruthful :
        (req : Request) (s : Service)
        → IsTruthful s (dispatch w cfg commands charge_point_id k req s)
    unfolding dispatch
    dispatch-IsTruthful req s = elim (Bool-cases (req.v == version)) [
      | inr f ↦ rw f (λ e h c. (refl, refl))
      | inl t ↦ elim (Option-cases (lookup req.op actions)) [
        | inl n ↦ rw (t, n) (λ e h c. (refl, refl))
        | inr (a, y) ↦ rw (t, y) (act-IsTruthful a req s)
      ]
    ]

    -- Whatever is asked over the socket: if the response is an error with the code "refused", then no
    -- command was sent to the station and core is as it was before.
    pub dispatch-refused :
        (req : Request) (s : Service) (e : SocketError)
        → (dispatch w cfg commands charge_point_id k req s).response ≡ err e
        → e.code ≡ code_refused
        → ((dispatch w cfg commands charge_point_id k req s).sent ≡ [])
          × ((dispatch w cfg commands charge_point_id k req s).service ≡ s)
    dispatch-refused req s e h c = dispatch-IsTruthful req s e h c
