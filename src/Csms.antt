-- ===== src/Csms.antt =====
-- internal/ocpp/csms/server.go: the handshake and the registry of connections. A connection is told
-- apart by a number, as the source tells them apart by their pointers.
pub mod Handshake
pub mod Registry
pub mod Online
pub mod Whole
pub mod Agreement
pub mod Race
