-- ===== src/Scheduler.antt =====
-- server/internal/scheduler: when a job runs next, and which due jobs are started.
pub mod NextRun
pub mod Monthly
pub mod Dispatcher
pub mod Limits
pub mod Ticks
pub mod Account
pub mod Progress
