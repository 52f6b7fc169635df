-- ===== src/Task.antt =====
-- Tasks and their scheduling, modules/axtask/src, with the features `multitask`, `irq` and `preempt`.
pub mod State
pub mod Alarms
pub mod WaitQueue
pub mod RunQueue
pub mod Timers
pub mod Balance
pub mod Waking
pub mod Timeouts
pub mod Exit
pub mod Collect
mod Tests
