-- ===== src/Job.antt =====
-- job/queue.go: the persistent job queue.
pub mod Config
pub mod Add
pub mod Worker
pub mod Subscribe
