-- ===== src/Redis.antt =====
-- Redis as its clients here use it: a third-party server, so an interface with its documented
-- behaviour, and one sample of it on which tests run.
mod Interface
mod Sample
pub use Interface.*
pub use Sample.{Store, store_redis, Store-IsRedis, fresh_store}
