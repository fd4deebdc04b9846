-- ===== src/Limits.antt =====
-- The two rate limits of server/workers/rate_limiter.py: a token bucket in each process, and a
-- fixed window that the processes share through a counter in Redis.
pub mod Bucket
pub mod Window
mod Tests
