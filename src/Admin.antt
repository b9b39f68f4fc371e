-- ===== src/Admin.antt =====
-- internal/admin: signing in to the console.
pub mod LoginLimiter
pub mod Session
