-- ===== src/Tick.antt =====
-- source/tick_scheduler.h and `core_tick` of source/aelkey_core.cc: timers on timerfds.
mod Defs
pub mod Spec
pub mod Cancel
mod Tests
