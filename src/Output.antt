-- ===== src/Output.antt =====
-- source/device_output.cc and source/device_capabilities.h: virtual output devices.
pub mod Keys
pub mod Tables
pub mod Defs
pub mod Setup
pub mod Order
pub mod Ranges
pub mod Create
pub mod Keep
mod Tests
