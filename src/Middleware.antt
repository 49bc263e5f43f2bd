-- ===== src/Middleware.antt =====
-- internal/api/middleware: what stands in front of the handlers.
pub mod RateLimit
