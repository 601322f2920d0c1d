-- ===== src/Crc32/Defs.antt =====
-- `crc32_entry`, `make_crc32_table`, `crc32` and `util_crc32`. A `uint32_t` is a number below
-- 2 ^ 32, a byte one below 2 ^ 8; no operation here can leave that range.
use Prim.Native.Nat.{bit_and, bit_xor}
use aelkey.Base.{ℕ, zero, suc, ◌+◌, ◌-◌, ◌/◌, ◌^◌, List, [], ◌∷◌, if◌then◌else◌, eqb}

-- One turn of the loop of `crc32_entry`.
unfoldable pub crc32_round : ℕ → ℕ
crc32_round c = if eqb (bit_and c 1) 1 then bit_xor 0xEDB88320 (c / 2) else c / 2

unfoldable pub crc32_rounds : ℕ → ℕ → ℕ
crc32_rounds zero c = c
crc32_rounds (suc n) c = crc32_rounds n (crc32_round c)

unfoldable pub crc32_entry : ℕ → ℕ
crc32_entry i = crc32_rounds 8 i

-- The entries from `i` on, with `n` left to compute.
unfoldable pub table_from : ℕ → ℕ → List ℕ
table_from zero i = []
table_from (suc n) i = crc32_entry i ∷ table_from n (i + 1)

unfoldable pub make_crc32_table : List ℕ
make_crc32_table = table_from 256 0

abbrev pub get_or : List ℕ → ℕ → ℕ → ℕ
get_or [] i d = d
get_or (x ∷ xs) zero d = x
get_or (x ∷ xs) (suc i) d = get_or xs i d

-- `~x` on 32 bits
abbrev pub complement : ℕ → ℕ
complement x = 2 ^ 32 - 1 - x

-- The body of the loop of `crc32`. The index is below 256, so the default is never read.
unfoldable pub crc32_byte : ℕ → ℕ → ℕ
crc32_byte crc b = bit_xor (crc / 2 ^ 8) (get_or make_crc32_table (bit_and (bit_xor crc b) 0xFF) 0)

unfoldable pub crc32_loop : ℕ → List ℕ → ℕ
unfolding crc32_byte
crc32_loop crc [] = crc
crc32_loop crc (b ∷ bytes) = crc32_loop (crc32_byte crc b) bytes

unfoldable pub crc32 : List ℕ → ℕ → ℕ
unfolding crc32_loop
crc32 bytes seed = complement (crc32_loop (complement seed) bytes)

-- The Lua entry hands the bytes of its string over.
unfoldable pub util_crc32 : List ℕ → ℕ → ℕ
unfolding crc32
util_crc32 bytes seed = crc32 bytes seed
