-- ===== src/Like.antt =====
-- internal/like: likes and unlikes, applied to Redis when they arrive and to Postgres by a worker
-- that reads the stream of events between the two.
pub mod Service
pub mod Repository
pub mod Worker
pub mod Reconciler
pub mod Pipeline
