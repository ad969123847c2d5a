-- ===== src/Middleware.antt =====
-- crates/core/src/middleware: what runs before and after the plugins.
pub mod RateLimit
pub mod Cors
