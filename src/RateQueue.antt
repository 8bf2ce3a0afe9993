-- ===== src/RateQueue.antt =====
-- src/ratequeue.c: the rate limiter, which passes the requests of each source on at a bounded rate.
pub mod Bucket
pub mod Timers
