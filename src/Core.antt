-- ===== src/Core.antt =====
-- crates/ferroq-core/src: the types that every part of the gateway shares, the configuration and
-- its validation.
pub mod External
pub mod Error
pub mod Json
pub mod Plugin
pub mod Api
pub mod Message
pub mod Event
pub mod Adapter
pub mod Config
pub mod Validation
