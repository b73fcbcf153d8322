-- ===== src/Examples.antt =====
-- Each theorem of the results at one concrete input.
pub mod Fixtures
pub mod Stores
pub mod Reservations
pub mod Sessions
pub mod Stations
pub mod Actions
pub mod Frames
pub mod Messages
pub mod Connections
pub mod Servers
pub mod Calls
pub mod Configs
pub mod Sockets
