-- ===== src/Auth.antt =====
-- Authentication and authorization (auth.py): roles and permissions, tokens and API keys, the rate
-- limiter, and the dependencies that the endpoints ask for.
pub mod Access
pub mod Limiter
pub mod Zset
pub mod Verify
