-- ===== src/Common.antt =====
-- common/: helpers of the whole program.
pub mod Lru
pub mod Uuid
pub mod TaskHeap
pub mod Scheduler
pub mod Manager
pub mod Redis
pub mod Logger
pub mod Tests
