-- ===== src/Kernel.antt =====
-- The directory kernel/: what runs in supervisor mode.
pub mod Memory
pub mod TaskTable
pub mod Data
pub mod Scheduler
pub mod Boot
pub mod SystemCall
pub mod Print
pub mod Event
pub mod Invariant
pub mod Run
