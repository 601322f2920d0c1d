-- ===== src/Crc32/Bitwise.antt =====
-- The table-driven loop against the bitwise definition of the checksum.
use Prim.Native.Nat.{bit_and, bit_xor}
use native.Mathlib.Nat.{pow-suc}
use aelkey.Base.{
  ℕ, zero, suc, ◌+◌, ◌*◌, ◌/◌, ◌%◌, ◌^◌, ◌<◌, ◌≡◌, refl, ap, sym, ◌∙◌, arith, List, [], ◌∷◌, ◌++◌,
  All, Bool-cases, inl, inr, eqb, if◌then◌else◌,
}
use aelkey.Crc32.Defs.{
  crc32_round, crc32_rounds, crc32_entry, table_from, make_crc32_table, get_or, complement,
  crc32_byte, crc32_loop, crc32, util_crc32,
}
use aelkey.Crc32.Xor.{
  bit_and-1, bit_and-255, bit_xor-half, bit_xor-parity, bit_xor-zero, bit_xor-left_comm, bit_xor-lt,
  bit_xor_comm, bit_xor-split_2, bit_xor-div_256, bit_xor-split,
}

abbrev pub poly : ℕ
poly = 0xEDB88320

-- One round, by the parity of the word.
round_even : (c : ℕ) → c % 2 ≡ 0 → crc32_round c ≡ c / 2
unfolding crc32_round
round_even c h = ground (arith, bit_and-1 c)

round_odd : (c : ℕ) → c % 2 ≡ 1 → crc32_round c ≡ bit_xor poly (c / 2)
unfolding crc32_round
round_odd c h = ground (arith, bit_and-1 c)

-- An even word passes through a round by a shift.
round_linear : (h l : ℕ) → crc32_round (bit_xor (h * 2) l) ≡ bit_xor h (crc32_round l)
round_linear h l =
    let e : h * 2 / 2 ≡ h = omega arith in
    let half : bit_xor (h * 2) l / 2 ≡ bit_xor h (l / 2) =
      bit_xor-half (h * 2) l ∙ ap (λ (t : ℕ). bit_xor t (l / 2)) e in
    elim (Bool-cases (eqb (l % 2) 0)) [
      | inl even ↦
          round_even (bit_xor (h * 2) l) (ground (arith, bit_xor-parity (h * 2) l))
          ∙ half
          ∙ sym (ap (bit_xor h) (round_even l (ground arith)))
      | inr odd ↦
          round_odd (bit_xor (h * 2) l) (ground (arith, bit_xor-parity (h * 2) l))
          ∙ ap (bit_xor poly) half
          ∙ bit_xor-left_comm poly h (l / 2)
          ∙ sym (ap (bit_xor h) (round_odd l (ground arith)))
    ]

-- So `n` rounds shift the part above the lowest `n` bits down, and work on those.
rounds_linear : (n h l : ℕ) → crc32_rounds n (bit_xor (h * 2 ^ n) l) ≡ bit_xor h (crc32_rounds n l)
unfolding crc32_rounds
rounds_linear zero h l = let e : h * 2 ^ 0 ≡ h = omega arith in rw e
rounds_linear (suc n) h l =
    let e : h * 2 ^ suc n ≡ h * 2 ^ n * 2 = omega (arith, ap (λ (t : ℕ). h * t) (pow-suc 2 n)) in
    rw (e, round_linear (h * 2 ^ n) l) (rounds_linear n h (crc32_round l))

get_or-table_from : (n i k : ℕ) → k < n → get_or (table_from n i) k 0 ≡ crc32_entry (i + k)
unfolding table_from
get_or-table_from zero i k h = absurd (omega arith)
get_or-table_from (suc n) i zero h = let e : i ≡ i + 0 = omega arith in ap crc32_entry e
get_or-table_from (suc n) i (suc k) h =
    get_or-table_from n (i + 1) k (omega arith)
    ∙ (let e : i + 1 + k ≡ i + suc k = omega arith in ap crc32_entry e)

table_entry : (k : ℕ) → k < 256 → get_or make_crc32_table k 0 ≡ crc32_entry k
unfolding make_crc32_table
table_entry k h =
    get_or-table_from 256 0 k h ∙ (let e : 0 + k ≡ k = omega arith in ap crc32_entry e)

-- The update by one byte is eight rounds on the word with the byte put in.
byte_rounds : (crc b : ℕ) → b < 256 → crc32_byte crc b ≡ crc32_rounds 8 (bit_xor crc b)
unfolding crc32_byte crc32_entry
byte_rounds crc b h =
    let x = bit_xor crc b in
    let low : get_or make_crc32_table (bit_and x 255) 0 ≡ crc32_rounds 8 (x % 256) =
      rw (bit_and-255 x) (table_entry (x % 256) (omega arith)) in
    ap (bit_xor (crc / 256)) low
    ∙ ap (λ (t : ℕ). bit_xor t (crc32_rounds 8 (x % 256))) (sym (bit_xor-div_256 crc b h))
    ∙ sym (rounds_linear 8 (x / 256) (x % 256))
    ∙ ap (crc32_rounds 8) (bit_xor-split x)

-- The checksum as a shift register: the message goes in bit by bit, the low bit of each byte
-- first, and each bit that differs from the lowest bit of the register feeds the polynomial back.
abbrev pub feed : ℕ → ℕ → ℕ
feed c bit = if eqb (c % 2) bit then c / 2 else bit_xor poly (c / 2)

pub feed_byte : ℕ → ℕ → ℕ → ℕ
feed_byte zero c b = c
feed_byte (suc n) c b = feed_byte n (feed c (b % 2)) (b / 2)

pub shift_register : ℕ → List ℕ → ℕ
shift_register c [] = c
shift_register c (b ∷ bytes) = shift_register (feed_byte 8 c b) bytes

feed_round : (c b : ℕ) → crc32_round (bit_xor c (b % 2)) ≡ feed c (b % 2)
feed_round c b =
    let z : b % 2 / 2 ≡ 0 = omega arith in
    let half : bit_xor c (b % 2) / 2 ≡ c / 2 =
      bit_xor-half c (b % 2) ∙ ap (bit_xor (c / 2)) z ∙ bit_xor-zero (c / 2) in
    elim (Bool-cases (eqb (c % 2) (b % 2))) [
      | inl same ↦
          rw same (round_even (bit_xor c (b % 2)) (ground (arith, bit_xor-parity c (b % 2))) ∙ half)
      | inr other ↦ rw other (
          round_odd (bit_xor c (b % 2)) (ground (arith, bit_xor-parity c (b % 2)))
          ∙ ap (bit_xor poly) half)
    ]

-- A round takes in the lowest bit, and leaves the others to the rounds that follow.
round_feed : (c b : ℕ) → crc32_round (bit_xor c b) ≡ bit_xor (feed c (b % 2)) (b / 2)
round_feed c b =
    ap (λ (t : ℕ). crc32_round (bit_xor c t)) (sym (bit_xor-split_2 b))
    ∙ ap crc32_round (bit_xor-left_comm c (b / 2 * 2) (b % 2))
    ∙ round_linear (b / 2) (bit_xor c (b % 2))
    ∙ bit_xor_comm (b / 2) (crc32_round (bit_xor c (b % 2)))
    ∙ ap (λ (t : ℕ). bit_xor t (b / 2)) (feed_round c b)

rounds_feed : (n c b : ℕ) → b < 2 ^ n → crc32_rounds n (bit_xor c b) ≡ feed_byte n c b
unfolding crc32_rounds feed_byte
rounds_feed zero c b h = let e : b ≡ 0 = omega arith in rw e (bit_xor-zero c)
rounds_feed (suc n) c b h =
    rw (round_feed c b) (rounds_feed n (feed c (b % 2)) (b / 2) (omega (arith, pow-suc 2 n)))

abbrev pub AreBytes : List ℕ → Type 0
AreBytes = All (λ b. b < 256)

loop-shift_register :
    (c : ℕ) (bytes : List ℕ) → AreBytes bytes → crc32_loop c bytes ≡ shift_register c bytes
unfolding crc32_loop shift_register
loop-shift_register c [] h = refl
loop-shift_register c (b ∷ bytes) h =
    loop-shift_register (crc32_byte c b) bytes h.1
    ∙ ap (λ (t : ℕ). shift_register t bytes)
        (byte_rounds c b h.0 ∙ rounds_feed 8 c b (omega (arith, h.0)))

-- On a string of bytes the table-driven checksum is that of the bitwise shift register, with the
-- register complemented before and after.
pub util_crc32-shift_register :
    (bytes : List ℕ) (seed : ℕ)
    → AreBytes bytes
    → util_crc32 bytes seed ≡ complement (shift_register (complement seed) bytes)
unfolding util_crc32 crc32
util_crc32-shift_register bytes seed h =
    ap complement (loop-shift_register (complement seed) bytes h)

loop-append : (c : ℕ) (xs ys : List ℕ) → crc32_loop c (xs ++ ys) ≡ crc32_loop (crc32_loop c xs) ys
unfolding crc32_loop
loop-append c [] ys = refl
loop-append c (x ∷ xs) ys = loop-append (crc32_byte c x) xs ys

round-lt : (c : ℕ) → c < 2 ^ 32 → crc32_round c < 2 ^ 32
unfolding crc32_round
round-lt c h = ground (arith, bit_xor-lt 32 poly (c / 2))

rounds-lt : (n c : ℕ) → c < 2 ^ 32 → crc32_rounds n c < 2 ^ 32
unfolding crc32_rounds
rounds-lt zero c h = h
rounds-lt (suc n) c h = rounds-lt n (crc32_round c) (round-lt c h)

loop-lt : (c : ℕ) (bytes : List ℕ) → AreBytes bytes → c < 2 ^ 32 → crc32_loop c bytes < 2 ^ 32
unfolding crc32_loop
loop-lt c [] h k = k
loop-lt c (b ∷ bytes) h k = loop-lt (crc32_byte c b) bytes h.1 (
    omega (
      arith,
      byte_rounds c b h.0,
      rounds-lt 8 (bit_xor c b) (bit_xor-lt 32 c b k (omega (arith, h.0))),
    ))

-- The checksum fits 32 bits, and a string may be fed in pieces: the checksum of the first piece
-- is the seed for the second.
pub util_crc32-append :
    (xs ys : List ℕ) (seed : ℕ)
    → AreBytes xs
    → seed < 2 ^ 32
    → (util_crc32 xs seed < 2 ^ 32)
      × (util_crc32 (xs ++ ys) seed ≡ util_crc32 ys (util_crc32 xs seed))
unfolding util_crc32 crc32
util_crc32-append xs ys seed h k =
    let c = crc32_loop (complement seed) xs in
    let back : complement (complement c) ≡ c =
      omega (arith, loop-lt (complement seed) xs h (omega arith)) in
    (
      omega arith,
      ap complement (loop-append (complement seed) xs ys)
          ∙ sym (ap (λ (t : ℕ). complement (crc32_loop t ys)) back),
    )
