-- ===== src/Backends.antt =====
-- The table of backends of source/device_manager.cc, source/dispatcher_registry.h,
-- source/dispatcher_registry.cc and source/singleton.h.
pub mod Registry
pub mod Table
pub mod Dispatchers
pub mod Program
mod Tests
