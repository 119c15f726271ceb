-- ===== src/Client.antt =====
-- The data that the crate exchanges with the third-party crate `pvpnclient`, as connection/ and api/
-- build and take it apart.
pub mod Tunnel
pub mod Agent
pub mod Interface
