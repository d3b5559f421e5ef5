-- ===== src/Satori.antt =====
-- crates/ferroq-gateway/src/satori.rs: the Satori protocol.
pub mod Escape
pub mod Elements
pub mod Events
pub mod Api
