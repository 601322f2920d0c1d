-- ===== src/Haptics.antt =====
-- source/dispatcher_haptics.h, source/dispatcher_haptics.cc and source/aelkey_haptics.cc.
pub mod Effect
pub mod Defs
pub mod View
pub mod Play
pub mod Backed
pub mod Events
pub mod Invariant
pub mod Convert
pub mod Playback
pub mod Create
pub mod History
mod Tests
