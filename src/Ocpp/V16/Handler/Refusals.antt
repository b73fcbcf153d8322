-- ===== src/Ocpp/V16/Handler/Refusals.antt =====
-- The messages that internal/ocpp/v16/handler.go refuses.
use headless_csms.Prelude.{
  ◌≡◌, subst, refl, ◌⊎◌, inl, inr, String, Option, none, some, Result, ok, err, Bool-cases,
  Option-cases, ◌==◌, string_eq, lookup,
}
use headless_csms.Config.{Config}
use headless_csms.Core.Types.{Service}
use headless_csms.Ocpp.{
  RpcError, not_implemented_error, formation_violation, property_constraint_violation,
  occurrence_constraint_violation,
}
use headless_csms.Ocpp.V16.{status_map}
use headless_csms.Ocpp.V16.Messages.{
  Wire, BootNotificationReq, StatusNotificationReq, StartTransactionReq, decode, decoded,
  validate_boot, validate_status, validate_start, is_negative, is_positive, decode_boot,
  decode_status, decode_authorize, decode_start, decode_stop, decode_meters, decode_transfer,
  decode_only,
}
use headless_csms.Ocpp.V16.Handler.{
  Moment, Answer, known_tag, boot_notification, heartbeat, status_notification, authorize,
  start_transaction_req, stop_transaction_req, meter_values_req, data_transfer, status_only, Action,
  actions, boots, beats, reports, authorizes, starts, stops, meters, transfers, notifies,
  take_action, handle_call, boot_notified_by, status_notified_by, started_by,
}

-- The codes for a message that is refused.
abbrev pub IsCode : String → Type 0
IsCode code =
    (code ≡ not_implemented_error)
    ⊎ (code ≡ formation_violation)
    ⊎ (code ≡ property_constraint_violation)
    ⊎ (code ≡ occurrence_constraint_violation)

-- An answer, with core as it is then: an error has one of the codes, and has left core alone.
abbrev pub IsHonest : Service → Answer → Type 0
IsHonest s (ok c, t) = Unit
IsHonest s (err e, t) = (t ≡ s) × IsCode e.code

abbrev HasCode : Option RpcError → Type 0
HasCode none = Unit
HasCode (some e) = IsCode e.code

module _ (w : Wire) where
  abbrev Reads {ℓ} : {A : Type ℓ} → Result {0, ℓ} RpcError A → Type 0
  Reads (ok v) = Unit
  Reads (err e) = IsCode e.code

  decode-Reads {ℓ} :
      {A : Type ℓ} (zero_value : A) (read : w.Raw → Result {0, ℓ} String A) (raw : w.Raw)
      → Reads (decode w zero_value read raw)
  unfolding decode
  decode-Reads {A = A} zero_value read raw = elim (Bool-cases (w.is_empty raw)) [
    | inl t ↦ rw t tt
    | inr f ↦ rw f (by_read (read raw))
  ]
    where
      by_read : (r : Result {0, ℓ} String A) → Reads (decoded w r)
      by_read (ok v) = tt
      by_read (err text) = inr (inl refl)

  validate_boot-HasCode : (r : BootNotificationReq) → HasCode (validate_boot w r)
  unfolding validate_boot
  validate_boot-HasCode r = elim (Bool-cases (r.charge_point_vendor == "")) [
    | inl t ↦ rw t (inr (inr (inr refl)))
    | inr f ↦ elim (Bool-cases (r.charge_point_model == "")) [
      | inl t ↦ rw (f, t) (inr (inr (inr refl)))
      | inr g ↦ rw (f, g) tt
    ]
  ]

  validate_status-HasCode : (r : StatusNotificationReq) → HasCode (validate_status w r)
  unfolding validate_status
  validate_status-HasCode r = elim (Bool-cases (is_negative r.connector_id)) [
    | inl t ↦ rw t (inr (inr (inl refl)))
    | inr f ↦ elim (Bool-cases (r.status == "")) [
      | inl t ↦ rw (f, t) (inr (inr (inr refl)))
      | inr g ↦ elim (Option-cases (lookup r.status status_map)) [
        | inl e ↦ rw (f, g, e) (inr (inr (inl refl)))
        | inr (st, e) ↦ rw (f, g, e) tt
      ]
    ]
  ]

  validate_start-HasCode : (r : StartTransactionReq) → HasCode (validate_start w r)
  unfolding validate_start
  validate_start-HasCode r = elim (Bool-cases (is_positive r.connector_id)) [
    | inr f ↦ rw f (inr (inr (inl refl)))
    | inl t ↦ elim (Bool-cases (r.id_tag == "")) [
      | inl u ↦ rw (t, u) (inr (inr (inr refl)))
      | inr g ↦ rw (t, g) tt
    ]
  ]

Result-cases {ℓ} :
    {A : Type ℓ} (r : Result {0, ℓ} RpcError A)
    → ((e : RpcError) × (r ≡ err e)) ⊎ ((v : A) × (r ≡ ok v))
Result-cases (err e) = inl (e, refl)
Result-cases (ok v) = inr (v, refl)

module _ (w : Wire) (cfg : Config) (m : Moment) (cp_id : String) where
  -- The code of an error that was met.
  code_of {ℓ} :
      {A : Type ℓ} {r : Result {0, ℓ} RpcError A} {e : RpcError}
      → r ≡ err e
      → Reads w r
      → IsCode e.code
  code_of h c = subst (Reads w) h c

  boot-IsHonest : (raw : w.Raw) (s : Service) → IsHonest s (boot_notification w cfg m cp_id raw s)
  unfolding boot_notification
  boot-IsHonest raw s = elim (Result-cases (decode_boot w raw)) [
    | inl (e, h) ↦ rw (h, boot_notification) (refl, code_of h (decode-Reads w _ w.boot raw))
    | inr (req, h) ↦
        rw (h, boot_notification) (tested req (validate_boot w req) (validate_boot-HasCode w req))
  ]
    where
      tested :
          (req : BootNotificationReq) (v : Option RpcError)
          → HasCode v
          → IsHonest s (boot_notified_by w cfg m cp_id req v s)
      tested req none c = tt
      tested req (some e) c = (refl, c)

  status-IsHonest :
      (raw : w.Raw) (s : Service) → IsHonest s (status_notification w cfg m cp_id raw s)
  unfolding status_notification
  status-IsHonest raw s = elim (Result-cases (decode_status w raw)) [
    | inl (e, h) ↦ rw (h, status_notification) (refl, code_of h (decode-Reads w _ w.status raw))
    | inr (req, h) ↦
        rw (h, status_notification)
          (tested req (validate_status w req) (validate_status-HasCode w req))
  ]
    where
      tested :
          (req : StatusNotificationReq) (v : Option RpcError)
          → HasCode v
          → IsHonest s (status_notified_by w cfg m cp_id req v s)
      tested req none c = tt
      tested req (some e) c = (refl, c)

  authorize-IsHonest : (raw : w.Raw) (s : Service) → IsHonest s (authorize w cfg m cp_id raw s)
  unfolding authorize
  authorize-IsHonest raw s = elim (Result-cases (decode_authorize w raw)) [
    | inl (e, h) ↦ rw (h, authorize) (refl, code_of h (decode-Reads w _ w.authorize raw))
    | inr (req, h) ↦ elim (Bool-cases (req.id_tag == "")) [
      | inl t ↦ rw (h, authorize, t) (refl, inr (inr (inr refl)))
      | inr f ↦ rw (h, authorize, f) tt
    ]
  ]

  start-IsHonest :
      (raw : w.Raw) (s : Service) → IsHonest s (start_transaction_req w cfg m cp_id raw s)
  unfolding start_transaction_req
  start-IsHonest raw s = elim (Result-cases (decode_start w raw)) [
    | inl (e, h) ↦ rw (h, start_transaction_req) (refl, code_of h (decode-Reads w _ w.start raw))
    | inr (req, h) ↦
        rw (h, start_transaction_req)
          (tested req (validate_start w req) (validate_start-HasCode w req))
  ]
    where
      tested :
          (req : StartTransactionReq) (v : Option RpcError)
          → HasCode v
          → IsHonest s (started_by w cfg m cp_id req v s)
      tested req none c = elim (Bool-cases (known_tag cfg req.id_tag)) [
        | inl t ↦ rw t tt
        | inr f ↦ rw f tt
      ]
      tested req (some e) c = (refl, c)

  take_action-IsHonest :
      (a : Action) (raw : w.Raw) (s : Service) → IsHonest s (take_action w cfg m cp_id a raw s)
  unfolding take_action heartbeat stop_transaction_req meter_values_req data_transfer status_only
  take_action-IsHonest boots raw s = boot-IsHonest raw s
  take_action-IsHonest beats raw s = tt
  take_action-IsHonest reports raw s = status-IsHonest raw s
  take_action-IsHonest authorizes raw s = authorize-IsHonest raw s
  take_action-IsHonest starts raw s = start-IsHonest raw s
  take_action-IsHonest stops raw s = elim (Result-cases (decode_stop w raw)) [
    | inl (e, h) ↦ rw (h, stop_transaction_req) (refl, code_of h (decode-Reads w _ w.stop raw))
    | inr (req, h) ↦ rw (h, stop_transaction_req) tt
  ]
  take_action-IsHonest meters raw s = elim (Result-cases (decode_meters w raw)) [
    | inl (e, h) ↦ rw (h, meter_values_req) (refl, code_of h (decode-Reads w _ w.meters raw))
    | inr (req, h) ↦ rw (h, meter_values_req) tt
  ]
  take_action-IsHonest transfers raw s = elim (Result-cases (decode_transfer w raw)) [
    | inl (e, h) ↦ rw (h, data_transfer) (refl, code_of h (decode-Reads w _ w.transfer raw))
    | inr (req, h) ↦ rw (h, data_transfer) tt
  ]
  take_action-IsHonest notifies raw s = elim (Result-cases (decode_only w raw)) [
    | inl (e, h) ↦ rw (h, status_only) (refl, code_of h (decode-Reads w _ w.only raw))
    | inr (req, h) ↦ rw (h, status_only) tt
  ]

  -- Whatever a charge point sends: if the answer is an error, then core is as it was before, and the
  -- code is NotImplemented, FormationViolation, PropertyConstraintViolation or
  -- OccurenceConstraintViolation.
  pub handle_call-IsHonest :
      (action : String) (raw : w.Raw) (s : Service)
      → IsHonest s (handle_call w cfg m cp_id action raw s)
  unfolding handle_call
  handle_call-IsHonest action raw s = elim (Option-cases (lookup action actions)) [
    | inl e ↦ rw (e, handle_call) (refl, inl refl)
    | inr (a, e) ↦ rw (e, handle_call) (take_action-IsHonest a raw s)
  ]
