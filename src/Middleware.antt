-- ===== src/Middleware.antt =====
-- crates/ferroq-gateway/src/middleware.rs and shared_config.rs: what stands before the HTTP
-- handlers.
pub mod Text
pub mod Auth
pub mod RateLimiter
