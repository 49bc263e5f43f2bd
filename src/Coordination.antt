-- ===== src/Coordination.antt =====
-- internal/coordination: which instance runs which monitor.
pub mod Partition
pub mod Coordinator
