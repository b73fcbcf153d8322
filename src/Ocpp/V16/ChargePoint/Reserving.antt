-- ===== src/Ocpp/V16/ChargePoint/Reserving.antt =====
-- `Reserve` of internal/control/control.go over the OCPP 1.6 adapter, internal/ocpp/v16/chargepoint.go.
use headless_csms.Prelude.{
  subst, ◌≡◌, refl, sym, ap, ◌∙◌, String, Bool, true, false, List, [], ◌∷◌, Result, ok, err,
  Bool-cases, inl, inr, arith,
}
use headless_csms.Clock.{Time}
use headless_csms.Config.{Config, Evse}
use headless_csms.State.Store.{Outcome}
use headless_csms.Core.Types.{Reservation, Service}
use headless_csms.Core.Reservations.{CoreError, begin_locked, begin_reservation}
use headless_csms.Core.Reservations.Begin.{begin_reservation-inv}
use headless_csms.Control.Types.{
  Answer, CallError, Command, Station, ControlError, ReserveParams, Done, is_accepted,
}
use headless_csms.Control.{
  check_evse, tag_or_default, expiry, reserve_command, reserve_answered, guarded, charge_point,
  request, recorded_for, reserve_begin, reserve_sent, reserve, failing,
}
use headless_csms.Ocpp.V16.Shown.{map_command_status-yes}
use headless_csms.Ocpp.V16.ChargePoint.{Caller, send, new_charge_point_16}
use headless_csms.Ocpp.V16.ChargePoint.Wired.{IsAnswered, send-IsAnswered}

begin_locked-asked :
    (r q : Reservation) (now : Time) (s t : Service)
    → begin_locked r now s ≡ ok (q, t)
    → (q.evse_uid ≡ r.evse_uid) × (q.id_tag ≡ r.id_tag) × (q.expires_at ≡ r.expires_at)
unfolding begin_locked
begin_locked-asked r q now s t h = ground arith

-- An accepted reservation had an answer that says so.
reserve_answered-IsAccepted :
    (r q : Reservation) (now at : Time) (o : Outcome) (x : Result CallError Answer) (s : Service)
    → (reserve_answered r now at o x s).1 ≡ ok q
    → (a : Answer) × (x ≡ ok a) × (is_accepted a.status ≡ true)
unfolding reserve_answered
reserve_answered-IsAccepted r q now at o (err e) s h = absurd (cc (h))
reserve_answered-IsAccepted r q now at o (ok a) s h = elim (Bool-cases (is_accepted a.status)) [
  | inl t ↦ (a, refl, t)
  | inr f ↦ absurd (ground arith)
]

module _ (c : Caller) (cfg : Config) where
  abbrev pub wired : String → Result CallError Station
  wired id = ok (new_charge_point_16 c cfg)

  -- What was recorded, and what the station said to the message for it.
  pub record IsReserved (p : ReserveParams) (now : Time) (sent : List Command) : Type 0 where
    pub reservation : Reservation
    pub on : reservation.evse_uid ≡ p.evse_uid
    pub by : reservation.id_tag ≡ tag_or_default cfg p.id_tag
    pub until : reservation.expires_at ≡ expiry p now
    pub command : sent ≡ reserve_command reservation ∷ []
    pub answer : Answer
    pub answered : IsAnswered c cfg (reserve_command reservation) answer
    pub accepted : answer.raw ≡ "Accepted"

  accepted-raw :
      (cmd : Command) (a : Answer)
      → IsAnswered c cfg cmd a
      → is_accepted a.status ≡ true
      → a.raw ≡ "Accepted"
  accepted-raw cmd a wire t =
      ((map_command_status-yes wire.action a.raw).0 (ap is_accepted (sym wire.means) ∙ t)).0

  sent-IsReserved :
      (p : ReserveParams) (now created armed at : Time) (o o' : Outcome)
      (during : Service → Service) (s : Service) (q : Reservation)
      (x : Service × Result CoreError Reservation)
      → begin_reservation (request cfg wired (new_charge_point_16 c cfg) p now) created o s ≡ x
      → (reserve_sent cfg wired armed at o' during
          (recorded_for (new_charge_point_16 c cfg) x)).result
        ≡ ok q
      → IsReserved p now
          (reserve_sent cfg wired armed at o' during
            (recorded_for (new_charge_point_16 c cfg) x)).sent
  sent-IsReserved p now created armed at o o' during s q (t, err e) b h = absurd (cc (h))
  sent-IsReserved p now created armed at o o' during s q (t, ok r) b h =
      let inverted =
        begin_reservation-inv (request cfg wired (new_charge_point_16 c cfg) p now) r created o s t
          b in
      let (on, by, until) =
        begin_locked-asked (request cfg wired (new_charge_point_16 c cfg) p now) r created s
          inverted.0 inverted.1 in
      let (a, came, t') =
        reserve_answered-IsAccepted r q armed at o' (send c cfg (reserve_command r)) (during t) h in
      let wire = send-IsAnswered c cfg (reserve_command r) a came in
      record {
        reservation = r;
        on = unfold request in on;
        by = unfold request in by;
        until = unfold request in until;
        command = refl;
        answer = a;
        answered = wire;
        accepted = accepted-raw (reserve_command r) a wire t';
      }

  module _ (p : ReserveParams) (now created armed at : Time) (o o' : Outcome)
      (during : Service → Service) (s : Service) where
    reserve-unconfigured :
        (e : ControlError)
        → check_evse cfg p.evse_uid ≡ err e
        → reserve cfg wired false p now created armed at o o' during s ≡ failing s e
    unfolding reserve reserve_begin guarded charge_point
    reserve-unconfigured e k = rw (reserve_begin, guarded, k) refl

    reserve-configured :
        (e : Evse)
        → check_evse cfg p.evse_uid ≡ ok e
        → reserve cfg wired false p now created armed at o o' during s
          ≡ reserve_sent cfg wired armed at o' during (
              recorded_for (new_charge_point_16 c cfg) (
                begin_reservation
                  (request cfg wired (new_charge_point_16 c cfg) p now)
                  created
                  o
                  s))
    unfolding reserve reserve_begin guarded charge_point
    reserve-configured e k = rw (reserve_begin, guarded, k) refl

  -- A Reserve over OCPP 1.6 that succeeds has sent one ReserveNow, for the EVSE, the tag and the end that
  -- were asked for, to the connector that the configuration maps the EVSE to, and the station has
  -- answered "Accepted".
  pub reserve-IsReserved :
      (closed : Bool) (p : ReserveParams) (now created armed at : Time) (o o' : Outcome)
      (during : Service → Service) (s : Service) (q : Reservation)
      → (reserve cfg wired closed p now created armed at o o' during s).result ≡ ok q
      → IsReserved p now (reserve cfg wired closed p now created armed at o o' during s).sent
  unfolding reserve reserve_begin
  reserve-IsReserved true p now created armed at o o' during s q h = absurd (cc (h))
  reserve-IsReserved false p now created armed at o o' during s q h =
      by_evse (check_evse cfg p.evse_uid) refl
    where
      by_evse :
          (e : Result ControlError Evse)
          → check_evse cfg p.evse_uid ≡ e
          → IsReserved p now (reserve cfg wired false p now created armed at o o' during s).sent
      by_evse (err e) k =
          let same = reserve-unconfigured p now created armed at o o' during s e k in
          let clash : err e ≡ ok q = sym (ap (λ (d : Done Reservation). d.result) same) ∙ h in
          absurd (cc (clash))
      by_evse (ok e) k =
          let same = reserve-configured p now created armed at o o' during s e k in
          subst (λ (d : Done Reservation). IsReserved p now d.sent) (sym same)
            (sent-IsReserved p now created armed at o o' during s q
              (begin_reservation (request cfg wired (new_charge_point_16 c cfg) p now) created o s)
              refl (sym (ap (λ (d : Done Reservation). d.result) same) ∙ h))
