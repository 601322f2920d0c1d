-- ===== src/Evdev.antt =====
-- source/dispatcher_evdev.h and source/device_backend_evdev.cc: devices read through libevdev.
pub mod Defs
pub mod Frames
pub mod Delivery
pub mod Lawful
pub mod Close
pub mod Match
mod Tests
