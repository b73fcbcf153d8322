-- ===== src/Ocpp/V16/ChargePoint/Wired.antt =====
-- What an answer to a command says of the messages. About internal/ocpp/v16/chargepoint.go.
use headless_csms.Prelude.{
  ◌≡◌, refl, subst, String, some, ℤ, Result, ok, err, Option-cases, inl, inr, ◌⊎◌,
}
use headless_csms.Text.{atoi}
use headless_csms.Clock.{Time, rfc3339}
use headless_csms.Config.{Config, Evse, evse_by_uid}
use headless_csms.Control.Types.{
  Answer, unknown_to_station, other, Command, reserve_now, cancel_reservation, remote_start,
  remote_stop, unlock_connector, trigger,
}
use headless_csms.Ocpp.V16.{map_command_status}
use headless_csms.Ocpp.V16.ChargePoint.{
  Request, reserve_now_req, cancel_reservation_req, remote_start_transaction_req,
  remote_stop_transaction_req, unlock_connector_req, trigger_message_req, Caller, status_read,
  command, with_connector, send_reserve_now, send_cancel_reservation, send_remote_start,
  send_remote_stop, send_unlock_connector, send_trigger_status, send,
}

-- The message of OCPP 1.6 for a command: its connector is the one that the configuration maps the EVSE
-- to, and the transaction has an integer for an id.
pub data IsMessage (cfg : Config) : Command → String → Request → Type 0 where
  reserves :
      (id : ℤ) (uid tag : String) (at : Time) (e : Evse)
      → evse_by_uid cfg uid ≡ some e
      → IsMessage cfg
          (reserve_now
            (record { reservation_id = id; evse_uid = uid; id_tag = tag; expires_at = at }))
          "ReserveNow"
          (reserve_now_req e.ocpp_connector_id (rfc3339 at) tag id)
  cancels :
      (id : ℤ)
      → IsMessage cfg (cancel_reservation id) "CancelReservation" (cancel_reservation_req id)
  starts :
      (id : ℤ) (uid tag : String) (e : Evse)
      → evse_by_uid cfg uid ≡ some e
      → IsMessage cfg
          (remote_start (record { remote_start_id = id; evse_uid = uid; id_tag = tag }))
          "RemoteStartTransaction"
          (remote_start_transaction_req e.ocpp_connector_id tag)
  stops :
      (text : String) (id : ℤ)
      → atoi text ≡ some id
      → IsMessage cfg (remote_stop text) "RemoteStopTransaction" (remote_stop_transaction_req id)
  unlocks :
      (uid : String) (e : Evse)
      → evse_by_uid cfg uid ≡ some e
      → IsMessage cfg
          (unlock_connector uid)
          "UnlockConnector"
          (unlock_connector_req e.ocpp_connector_id)
  triggers :
      (uid : String) (e : Evse)
      → evse_by_uid cfg uid ≡ some e
      → IsMessage cfg
          (trigger uid)
          "TriggerMessage"
          (trigger_message_req "StatusNotification" e.ocpp_connector_id)

module _ (c : Caller) (cfg : Config) where
  -- The message that was sent for a command, and what came back.
  pub record IsAnswered (cmd : Command) (a : Answer) : Type 0 where
    pub action : String
    pub request : Request
    pub answer : c.Raw
    pub message : IsMessage cfg cmd action request
    pub came : c.call action request ≡ ok answer
    pub says : c.read_status answer ≡ ok a.raw
    pub means : a.status ≡ map_command_status action a.raw

  Result-split {ℓ} :
      {E : Type 0} {A : Type ℓ} (r : Result {0, ℓ} E A)
      → ((e : E) × (r ≡ err e)) ⊎ ((v : A) × (r ≡ ok v))
  Result-split (err e) = inl (e, refl)
  Result-split (ok v) = inr (v, refl)

  command-IsAnswered :
      (cmd : Command) (action : String) (req : Request) (a : Answer)
      → IsMessage cfg cmd action req
      → command c cfg action req ≡ ok a
      → IsAnswered cmd a
  unfolding command
  command-IsAnswered cmd action req a msg h = elim (Result-split (c.call action req)) [
    | inl (e, came) ↦ absurd (let h' : err e ≡ ok a = rw (command, came) at h in cc (h'))
    | inr (raw, came) ↦ elim (Result-split (c.read_status raw)) [
      | inl (e, says) ↦ absurd (
          let h' : status_read c cfg action (err e) ≡ ok a = rw (command, came, says) at h in
          cc (h'))
      | inr (status, says) ↦
          let h' : status_read c cfg action (ok status) ≡ ok a = rw (command, came, says) at h in
          let same : record { status = map_command_status action status; raw = status } ≡ a =
            cc (h') in
          subst (IsAnswered cmd) same (record {
            action = action;
            request = req;
            answer = raw;
            message = msg;
            came = came;
            says = says;
            means = refl;
          })
    ]
  ]

  with_connector-IsAnswered :
      (cmd : Command) (uid action : String) (req : ℤ → Request) (a : Answer)
      → ((e : Evse)
          → evse_by_uid cfg uid ≡ some e
          → IsMessage cfg cmd action (req e.ocpp_connector_id))
      → with_connector c cfg uid (λ id. command c cfg action (req id)) ≡ ok a
      → IsAnswered cmd a
  unfolding with_connector
  with_connector-IsAnswered cmd uid action req a msg h = elim (Option-cases (evse_by_uid cfg uid)) [
    | inl e ↦
        absurd
          (let h' : err (unknown_to_station uid) ≡ ok a = rw (with_connector, e) at h in cc (h'))
    | inr (e, found) ↦
        command-IsAnswered cmd action (req e.ocpp_connector_id) a (msg e found)
          (rw (with_connector, found) at h)
  ]

  -- A command that has an answer has been sent as the message of OCPP 1.6 for it, with the connector that
  -- the configuration maps its EVSE to; the answer is what the station sent back, and its status is the
  -- one that the table of that action has for it. So a command for an EVSE that is not configured, or for
  -- a transaction whose id is not an integer, has none.
  pub send-IsAnswered : (cmd : Command) (a : Answer) → send c cfg cmd ≡ ok a → IsAnswered cmd a
  unfolding send
  send-IsAnswered (reserve_now r) a h =
      with_connector-IsAnswered (reserve_now r) r.evse_uid "ReserveNow"
        (λ id. reserve_now_req id (rfc3339 r.expires_at) r.id_tag r.reservation_id) a
        (λ e found. reserves r.reservation_id r.evse_uid r.id_tag r.expires_at e found)
        (unfold send_reserve_now in h)
  send-IsAnswered (cancel_reservation id) a h =
      command-IsAnswered (cancel_reservation id) "CancelReservation" (cancel_reservation_req id) a
        (cancels id) (unfold send_cancel_reservation in h)
  send-IsAnswered (remote_start r) a h =
      with_connector-IsAnswered (remote_start r) r.evse_uid "RemoteStartTransaction"
        (λ id. remote_start_transaction_req id r.id_tag) a
        (λ e found. starts r.remote_start_id r.evse_uid r.id_tag e found)
        (unfold send_remote_start in h)
  send-IsAnswered (remote_stop text) a h = elim (Option-cases (atoi text)) [
    | inl e ↦ absurd (let h' : err (other _) ≡ ok a = rw (send_remote_stop, e) at h in cc (h'))
    | inr (id, e) ↦
        command-IsAnswered (remote_stop text) "RemoteStopTransaction"
          (remote_stop_transaction_req id) a (stops text id e)
          (unfold send_remote_stop in (rw (send_remote_stop, e) at h))
  ]
  send-IsAnswered (unlock_connector uid) a h =
      with_connector-IsAnswered (unlock_connector uid) uid "UnlockConnector" unlock_connector_req a
        (λ e found. unlocks uid e found) (unfold send_unlock_connector in h)
  send-IsAnswered (trigger uid) a h =
      with_connector-IsAnswered (trigger uid) uid "TriggerMessage"
        (trigger_message_req "StatusNotification") a (λ e found. triggers uid e found)
        (unfold send_trigger_status in h)
