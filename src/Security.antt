-- ===== src/Security.antt =====
-- What guards the routes: the rate limiter and the permission matrix.
pub mod RateLimiter
pub mod Window
pub mod Limit
pub mod Permissions
pub mod Matrix
pub mod Access
