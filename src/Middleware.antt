-- ===== src/Middleware.antt =====
-- The request guards of app/middleware: one child for each.
pub mod Csrf
pub mod IpAccess
pub mod Stack
pub mod RateLimit
mod Tests
