-- ===== src/Crc32/Now.antt =====
-- `util_now` of source/aelkey_util.cc: the clock in three units, in `uint64_t`.
use aelkey.Base.{ℕ, ◌+◌, ◌*◌, ◌/◌, ◌%◌, ◌<◌, String, if◌then◌else◌, string_key, ◌==◌, ◌≡◌, arith}

-- `sec` and `nsec` are those of CLOCK_MONOTONIC, which are not negative.
unfoldable pub util_now : String → ℕ → ℕ → ℕ
util_now unit sec nsec =
    if unit == "us"
    then (sec * 1000000 + nsec / 1000) % 18446744073709551616
    else if unit == "ns"
    then (sec * 1000000000 + nsec) % 18446744073709551616
    else (sec * 1000 + nsec / 1000000) % 18446744073709551616

-- The three units agree, as long as the nanoseconds fit 64 bits: the coarser is the finer, rounded
-- down.
pub util_now-agree :
    (sec nsec : ℕ)
    → nsec < 1000000000
    → sec < 18446744073
    → (util_now "us" sec nsec ≡ util_now "ns" sec nsec / 1000)
      × (util_now "ms" sec nsec ≡ util_now "us" sec nsec / 1000)
unfolding util_now
util_now-agree sec nsec h k = (omega arith, omega arith)
