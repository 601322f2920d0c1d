-- ===== src/Gatt.antt =====
-- source/device_backend_gatt.h, source/device_backend_gatt.cc, source/dispatcher_gatt.h and
-- source/aelkey_gatt.cc: Bluetooth devices, reached through BlueZ on the system bus.
pub mod Bus
pub mod Hex
pub mod Paths
pub mod Tree
pub mod Scan
pub mod Found
pub mod Backend
pub mod Lawful
pub mod Notify
pub mod Pump
mod Tests
