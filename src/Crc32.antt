-- ===== src/Crc32.antt =====
-- source/aelkey_util.cc: the checksum and the clock.
mod Defs
mod Xor
pub mod Bitwise
pub mod Now
mod Tests
unfoldable pub use Defs.{
  crc32_round, crc32_rounds, crc32_entry, make_crc32_table, crc32_loop, crc32, util_crc32,
}
