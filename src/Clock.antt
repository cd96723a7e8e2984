-- ===== src/Clock.antt =====
-- The clocks of include/criticalPath.h.
pub mod State
pub mod Metric
pub mod CpClocks
pub mod Thread
pub mod Activity
pub mod Accounting
pub mod Sync
pub mod Message
pub mod Ordered
pub mod System
pub mod Barrier
pub mod Fresh
pub mod Atomic
mod Tests
