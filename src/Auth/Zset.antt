-- ===== src/Auth/Zset.antt =====
-- The sorted sets of Redis as the rate limiter uses them: a third-party server, so an interface with
-- its documented behaviour, and one sample of it on which tests run. Times are in milliseconds.
mod Interface
pub mod Sample
pub use Interface.*
pub use Sample.{ZStore, zstore, ZStore-IsZset}
