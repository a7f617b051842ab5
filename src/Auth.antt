-- ===== src/Auth.antt =====
-- Accounts and sessions: middleware_python/auth/service.py and the token functions of
-- core/security.py. `State` has the tables, the world and the monad; the other children are the
-- operations, and below them what they achieve.
pub mod Fields
pub mod State
pub mod Lockout
pub mod Lockouts
pub mod Tokens
pub mod Login
pub mod Refresh
pub mod Logout
pub mod RoundTrip
pub mod Sample
pub mod Tests
pub mod ApiKeys
pub mod Register
