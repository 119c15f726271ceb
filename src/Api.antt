-- ===== src/Api.antt =====
-- The types of the crate's public interface, api/*.rs.
pub mod Config
pub mod LocalAgent
pub mod State
pub mod Events
