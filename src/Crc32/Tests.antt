-- ===== src/Crc32/Tests.antt =====
-- Runs of the checksum.
use aelkey.Base.{ℕ, ◌≡◌, ◌<◌, ◌^◌, ◌++◌, List, [], ◌∷◌, refl, arith}
use aelkey.Crc32.Defs.{
  crc32_round, crc32_rounds, crc32_entry, table_from, make_crc32_table, complement, crc32_byte,
  crc32_loop, crc32, util_crc32,
}
use aelkey.Crc32.Bitwise.{shift_register, AreBytes, util_crc32-shift_register, util_crc32-append}

abbrev digits : List ℕ
digits = b'1' ∷ b'2' ∷ b'3' ∷ b'4' ∷ b'5' ∷ b'6' ∷ b'7' ∷ b'8' ∷ b'9' ∷ []

-- The check value that the catalogues of checksums give for CRC-32.
check_value : util_crc32 digits 0 ≡ 0xCBF43926
unfolding util_crc32 crc32 crc32_loop crc32_byte make_crc32_table table_from crc32_entry
    crc32_rounds crc32_round
check_value = refl

are_bytes : AreBytes digits
are_bytes = (
  omega arith,
  (
    omega arith,
    (
      omega arith,
      (omega arith, (omega arith, (omega arith, (omega arith, (omega arith, (omega arith, tt)))))),
    ),
  ),
)

util_crc32-shift_register_example :
    util_crc32 digits 0 ≡ complement (shift_register (complement 0) digits)
util_crc32-shift_register_example = util_crc32-shift_register digits 0 are_bytes

util_crc32-append_example :
    (util_crc32 digits 0 < 2 ^ 32)
    × (util_crc32 (digits ++ digits) 0 ≡ util_crc32 digits (util_crc32 digits 0))
util_crc32-append_example = util_crc32-append digits digits 0 are_bytes (omega arith)
