-- ===== src/Middleware.antt =====
-- runtime/middleware.py: one module for each class.
pub mod Breaker
pub mod RateLimit
pub mod Retry
pub mod Cache
