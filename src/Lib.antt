-- ===== src/Lib.antt =====
-- The verification library of aelkey, a daemon that remaps input devices with Lua scripts.
--
-- The program keeps one shared state (source/aelkey_state.h). Declarations of devices come from Lua
-- tables (source/device_parser.cc); the device manager (source/device_manager.cc) attaches them
-- through a backend for each type of device, when a script opens them (source/aelkey_device.cc) or
-- when udev reports them (source/dispatcher_udev.cc). Every part that waits for a descriptor is a
-- dispatcher (source/dispatcher.cc), which keeps an epoll payload for each: timers
-- (source/tick_scheduler.h) and force feedback (source/dispatcher_haptics.cc) among them. Virtual
-- output devices are described to libevdev from tables of codes (source/device_output.cc).
--
-- Files and what they model:
--   Base        shared types and lemmas: Boolean tests, C integers, `std::map` as a list of entries
--               in the order of the keys, searches in texts
--   Lua         the values that the program reads and builds through sol2
--   Dispatcher  DispatcherBase: register_fd, unregister_fd, flush_deferred, cleanup_fds
--   Tick        TickScheduler and core_tick of source/aelkey_core.cc
--   Crc32       source/aelkey_util.cc: crc32 and util_crc32, and util_now (Crc32/Now)
--   Haptics     DispatcherHaptics and source/aelkey_haptics.cc; Haptics/Effect is `ff_effect`,
--               Haptics/Defs sinks, sources and uploads, Haptics/Play what Lua calls,
--               Haptics/Events what the kernel asks
--   Device      Device/Decl and Device/Parser the declarations, Device/Helpers the patterns,
--               Device/App the shared state, Device/Manager the device manager, Device/Hotplug,
--               Device/Enumerate and Device/Udev source/dispatcher_udev.cc, Device/Entry
--               source/aelkey_device.cc and source/aelkey_state.cc, Device/Daemon
--               source/aelkey_daemon.cc
--   Output      source/device_capabilities.h (Output/Keys, Output/Tables), source/device_output.cc
--               (Output/Defs, Output/Setup, Output/Create) and `emit` and `syn_report` of
--               source/aelkey_core.cc (Output/Create)
--   Evdev       source/dispatcher_evdev.h and source/device_backend_evdev.cc: Evdev/Defs opens, grabs
--               and closes devices, Evdev/Frames collects events, Evdev/Match finds devices
--   Loop        source/aelkey_loop.cc, with the signals in Loop/Signals
--   Hidraw      source/dispatcher_hidraw.h, source/device_backend_hidraw.cc and source/aelkey_hid.cc
--               (Hidraw/Reports)
--   Usb         source/device_backend_libusb.h and source/dispatcher_libusb.h (Usb/Defs), and
--               source/aelkey_usb.cc: Usb/Sync the transfers that wait, Usb/Async the others, of
--               which Usb/Lifecycle, Usb/Outcome, Usb/Settle and Usb/Complete say what becomes of them,
--               and Usb/History what is allocated after any number of calls
--   Gatt        source/device_backend_gatt.h, source/device_backend_gatt.cc,
--               source/dispatcher_gatt.h and source/aelkey_gatt.cc: Gatt/Bus is D-Bus, Gatt/Hex and
--               Gatt/Paths the paths of objects, Gatt/Tree the walks over them, of which Gatt/Scan
--               and Gatt/Found say what they find, Gatt/Backend the connection, attach and detach,
--               of which Gatt/Notify says what they subscribe to, Gatt/Pump the signals
--   Backends    source/device_manager.cc (its tables), source/dispatcher_registry.h,
--               source/dispatcher_registry.cc and source/singleton.h: Backends/Dispatchers is the
--               registry, Backends/Program the table with the program's own backends
--   Load        source/aelkey.cc: the module's opening
--
-- Stateful code passes its state explicitly; a handler that fails returns an option or a flag as
-- the code does. Code outside the repository is a parameter: the epoll, timerfd, force-feedback and
-- uinput calls, libusb and the system bus are records of functions on the state of the world, a Lua
-- callback is a function on the whole state of its dispatcher, `std::regex` and the names of
-- libevdev are functions. An operation on a C integer that can wrap is written with its
-- wrap-around; identifiers and descriptors are integers. All loops are structural recursion over a
-- list, a string or a fixed count but one: the pump of the bus's messages runs on fuel, and
-- Gatt/Pump proves that as much fuel as messages wait and one more is enough. A loop that calls Lua
-- runs over the list as it was when the loop began: what a script adds to a map that is being walked
-- is not visited, and one that changes a vector or takes the current entry away is undefined in the
-- program. Where the program reads what it has freed, the model's result is none.
--
-- Not modelled: messages to stderr, the decoding of D-Bus messages, the functions that each C
-- module registers, and the scripts written in Lua.
pub mod Base
pub mod Lua
pub mod Dispatcher
pub mod Tick
pub mod Crc32
pub mod Haptics
pub mod Device
pub mod Output
pub mod Loop
pub mod Evdev
pub mod Hidraw
pub mod Usb
pub mod Gatt
pub mod Backends
pub mod Load
