-- ===== src/Usb.antt =====
-- source/device_backend_libusb.h, source/dispatcher_libusb.h and source/aelkey_usb.cc: devices that
-- are driven by USB transfers.
pub mod Defs
pub mod Lawful
pub mod Sync
pub mod Async
pub mod Lifecycle
pub mod Outcome
pub mod Settle
pub mod Complete
pub mod History
pub mod Events
mod Tests
