-- ===== src/Core/Steps.antt =====
-- The domain state as goroutines interleave on it: each section that holds `s.mu`, each write to
-- the store and each publication of internal/core is one step, and a run is any list of them.
pub mod Table
pub mod Statuses
use headless_csms.Prelude.{String, List, [], ◌∷◌, Option, none, some, ℤ, succ, Result, ok, err}
use headless_csms.Clock.{Time}
use headless_csms.State.Store.{Outcome}
use headless_csms.Core.Status.{EvseStatus}
use headless_csms.Core.Event.{Event}
use headless_csms.Core.Types.{BootInfo, Reservation, TransactionStart, Service}
use headless_csms.Core.Service.{
  connected_locked, disconnected_locked, booted_locked, seen, set_connector_status_locked,
  record_meter_values_locked,
}
use headless_csms.Core.Persist.{persist_or_log}
use headless_csms.Core.Reservations.{
  EndReason, CoreError, begin_locked, forget, activate_locked, end_by_id_locked, orphan_locked,
  expire_locked, publishing,
}
use headless_csms.Core.Transactions.{start_locked, stop_locked}

pub data Section : Type 0 where
  connects : String → Time → Section
  disconnects : String → String → Time → Section
  boots : String → BootInfo → Time → Section
  sees : String → Time → Section
  reports : String → ℤ → EvseStatus → String → Time → Section
  meters : String → ℤ → Time → Section
  begins : Reservation → Time → Section
  forgets : ℤ → Section
  activates : ℤ → Time → Section
  ends : ℤ → EndReason → Time → Section
  orphans : ℤ → Section
  expires : ℤ → Time → Time → Section
  takes_transaction_id takes_remote_start_id : Section
  starts : String → TransactionStart → Time → Time → Time → Section
  stops : String → String → ℤ → String → Time → Time → Section
  persists : Outcome → Section
  publishes : Event → Section

abbrev pub after_begin : Service → Result {0, 0} CoreError (Reservation × Service) → Service
after_begin s (err e) = s
after_begin s (ok (r, s')) = s'

abbrev pub after {ℓ} : {A : Type ℓ} → Service → Option (A × Service) → Service
after s none = s
after s (some (a, s')) = s'

unfoldable pub apply : Section → Service → Service
apply (connects cp at) s = (connected_locked cp at s).0
apply (disconnects cp reason at) s = (disconnected_locked cp reason at s).0
apply (boots cp info at) s = booted_locked cp info at s
apply (sees cp at) s = seen cp at s
apply (reports cp c st e at) s = (set_connector_status_locked cp c st e at s).0
apply (meters cp c at) s = record_meter_values_locked cp c at s
apply (begins r now) s = after_begin s (begin_locked r now s)
apply (forgets id) s = forget id s
apply (activates id now) s = after s (activate_locked id now s)
apply (ends id reason now) s = elim (end_by_id_locked id reason now s) [
  | none ↦ s
  | some (r, s', e) ↦ s'
]
apply (orphans id) s = after s (orphan_locked id s)
apply (expires id t now) s = elim (expire_locked id t now s) [ none ↦ s | some (s', e) ↦ s' ]
apply takes_transaction_id s = record s { next_transaction_id = succ s.next_transaction_id }
apply takes_remote_start_id s = record s { next_remote_start_id = succ s.next_remote_start_id }
apply (starts cp t now ended last) s = (start_locked cp t now ended last s).1
apply (stops cp id meter reason at last) s = (stop_locked cp id meter reason at last s).0
apply (persists o) s = persist_or_log o s
apply (publishes e) s = publishing e s

unfoldable pub run : List Section → Service → Service
unfolding apply
run [] s = s
run (c ∷ cs) s = run cs (apply c s)
