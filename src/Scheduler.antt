-- ===== src/Scheduler.antt =====
-- The signer's scheduler, signer/src/scheduler.
pub mod Fifoq
pub mod Rbtree
pub mod Schedule
pub mod Task
