-- ===== src/Core/Transactions/Session.antt =====
-- What core keeps of a session from its start to its stop. About internal/core/transactions.go.
use headless_csms.Prelude.{
  ◌≡◌, refl, ap, ◌∙◌, String, true, Option, some, ℤ, lookup, insert, lookup-insert_self, string_eq,
}
use headless_csms.Clock.{Time}
use headless_csms.State.Store.{Outcome}
use headless_csms.Core.Types.{Transaction, TransactionStart, is_active, ChargePointState, Service}
use headless_csms.Core.Service.{ensure, put}
use headless_csms.Core.Service.Repeat.{ensure-put}
use headless_csms.Core.Persist.{persist_or_log}
use headless_csms.Core.Persist.Frame.{persist_or_log_frame}
use headless_csms.Core.Transactions.{
  or_now, stopped, start_locked, start_transaction, stop_locked, stop_transaction,
}

-- What core has under a transaction id of a station.
abbrev pub find : String → String → Service → Option Transaction
find cp_id id s = lookup id (ensure cp_id s).transactions

find-cps : (cp_id id : String) (s t : Service) → s.cps ≡ t.cps → find cp_id id s ≡ find cp_id id t
unfolding ensure
find-cps cp_id id s t h = rw h refl

pub find-persist_or_log :
    (cp_id id : String) (o : Outcome) (s : Service)
    → find cp_id id (persist_or_log o s) ≡ find cp_id id s
find-persist_or_log cp_id id o s =
    find-cps cp_id id (persist_or_log o s) s
      (ap (λ (t : Service). t.cps) (persist_or_log_frame o s))

-- A transaction that has been started is there.
pub find-start_transaction :
    (cp_id : String) (t : TransactionStart) (now ended last : Time) (o : Outcome) (s : Service)
    → find cp_id t.id (start_transaction cp_id t now ended last o s).0
      ≡ some (start_transaction cp_id t now ended last o s).1
find-start_transaction cp_id t now ended last o s =
    same ∙ find-persist_or_log cp_id t.id o (start_locked cp_id t now ended last s).1 ∙ there
  where
    same :
        find cp_id t.id (start_transaction cp_id t now ended last o s).0
        ≡ find cp_id t.id (persist_or_log o (start_locked cp_id t now ended last s).1)
    same = unfold start_transaction ensure in refl

    there :
        find cp_id t.id (start_locked cp_id t now ended last s).1
        ≡ some (start_transaction cp_id t now ended last o s).1
    there =
        unfold start_transaction start_locked ensure put in
        rw (lookup-insert_self, lookup-insert_self) refl

abbrev closed : ℤ → String → Time → Transaction → Transaction
closed meter why at tx = record tx { stopped_at = at; meter_stop = meter; reason = why }

stop_locked-active :
    (cp_id id : String) (meter : ℤ) (why : String) (at last : Time) (s : Service) (tx : Transaction)
    → find cp_id id s ≡ some tx
    → is_active tx ≡ true
    → stop_locked cp_id id meter why at last s ≡ (
      put cp_id
          (record (ensure cp_id s) {
            transactions = insert id (closed meter why at tx) (ensure cp_id s).transactions;
            last_seen = last;
          })
          s,
      some (closed meter why at tx),
    )
unfolding stop_locked
stop_locked-active cp_id id meter why at last s tx here runs = rw (here, stop_locked, runs) refl

-- A transaction that runs is stopped as the message says.
pub find-stop_transaction :
    (cp_id id : String) (meter : ℤ) (why : String) (at now last : Time) (o : Outcome) (s : Service)
    (tx : Transaction)
    → find cp_id id s ≡ some tx
    → is_active tx ≡ true
    → find cp_id id (stop_transaction cp_id id meter why at now last o s).0
      ≡ some (record tx { stopped_at = or_now at now; meter_stop = meter; reason = why })
unfolding stop_transaction
find-stop_transaction cp_id id meter why at now last o s tx here runs =
    let tx' = closed meter why (or_now at now) tx in
    let cp : ChargePointState = record (ensure cp_id s) {
      transactions = insert id tx' (ensure cp_id s).transactions;
      last_seen = last;
    } in
    ap
      (λ (p : Service × Option Transaction).
        find cp_id id (stopped cp_id id why (or_now at now) o p).0)
      (stop_locked-active cp_id id meter why (or_now at now) last s tx here runs)
    ∙ same cp
    ∙ find-persist_or_log cp_id id o (put cp_id cp s)
    ∙ rw ensure-put (lookup-insert_self id tx' (ensure cp_id s).transactions)
  where
    same :
        (cp : ChargePointState)
        → find cp_id id
            (stopped cp_id id why
              (or_now at now)
              o
              (put cp_id cp s, some (closed meter why (or_now at now) tx))).0
          ≡ find cp_id id (persist_or_log o (put cp_id cp s))
    same cp = unfold ensure in refl
