-- ===== src/Hidraw.antt =====
-- source/dispatcher_hidraw.h, source/device_backend_hidraw.cc and source/aelkey_hid.cc: HID devices
-- that are read and written as raw reports.
pub mod Defs
pub mod Match
pub mod Lawful
pub mod Removal
pub mod Reports
mod Tests
