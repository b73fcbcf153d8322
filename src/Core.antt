-- ===== src/Core.antt =====
-- internal/core: the domain state. This module has its data; its children have the operations
-- (ChargePoint and Service: service.go; Reservations: reservations.go; Transactions:
-- transactions.go; Persist: persist.go; Status and Event: the files of those names) and, below
-- them, what is proved of them. `s.mu` makes each locked section one step, so an operation is the
-- sequence of its sections; the clock's readings and the outcome of a store's write are arguments.
pub mod Status
pub mod Event
pub mod Types
pub mod Sort
pub mod ChargePoint
pub mod Service
pub mod Persist
pub mod Reservations
pub mod Transactions
pub mod Snapshot
pub mod Steps
