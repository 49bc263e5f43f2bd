-- ===== src/Scheduler.antt =====
-- internal/scheduler: the jobs that check the monitors.
pub mod Jobs
pub mod Distributed
pub mod Dispatcher
pub mod Results
pub mod Expiry
pub mod Verifier
