-- ===== src/Loop.antt =====
-- source/aelkey_loop.cc: the event loop and what it cleans up.
pub mod Defs
pub mod Cleanup
pub mod Stops
pub mod Signals
mod Tests
