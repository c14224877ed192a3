-- ===== src/Identity.antt =====
-- Accounts and logins (app/identity, app/core/security.py, app/core/dependencies.py).
pub mod Passwords
pub mod Redis
pub mod LoginAttempts
pub mod IpRateLimit
pub mod Login
pub mod Users
