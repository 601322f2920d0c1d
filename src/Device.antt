-- ===== src/Device.antt =====
-- The device layer: declarations and their parser, pattern matching, the shared state, the device
-- manager, hotplug events and the Lua entries that open, close and watch devices.
pub mod Decl
pub mod Helpers
pub mod Parser
pub mod App
pub mod Manager
pub mod Hotplug
pub mod Entry
pub mod Daemon
pub mod Removal
pub mod Attach
pub mod Single
pub mod Enumerate
pub mod Udev
pub mod Keyed
pub mod KeyedUdev
pub mod History
pub mod Watch
pub mod Parsing
mod Tests
