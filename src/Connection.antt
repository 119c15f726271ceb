-- ===== src/Connection.antt =====
-- connection/pvpn_connection.rs: the connection loop.
pub mod State
pub mod Write
pub mod Pull
pub mod Read
pub mod Messages
pub mod Run
pub mod Contract
pub mod Refines
pub mod Fuel
pub mod Ending
pub mod PeerSync
pub mod Reached
pub mod Guarantees
pub mod Handle
