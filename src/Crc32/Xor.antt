-- ===== src/Crc32/Xor.antt =====
-- Laws of the exclusive or at variables, from its equation for the lowest digit.
use Prim.Native.Nat.{
  bit_and, bit_xor, digits, bitwise, bit_xor-bitwise, bit_and-bitwise, min, differ,
}
use native.Mathlib.Nat.{pow-suc}
use native.Mathlib.Decide.{dec_le}
use aelkey.Base.{ℕ, zero, suc, ◌+◌, ◌*◌, ◌/◌, ◌%◌, ◌^◌, ◌≤◌, ◌<◌, ◌≡◌, refl, ap, sym, ◌∙◌, arith}

-- The fuel of the digit recursion does not matter once it reaches the first number.
module _ (last : ℕ → ℕ) (op : ℕ → ℕ → ℕ) where
  fuel_suc : (n a b : ℕ) → a ≤ n → digits last op (suc n) a b ≡ digits last op n a b
  fuel_suc zero zero b h = refl
  fuel_suc zero (suc a) b h = absurd (omega arith)
  fuel_suc (suc n) zero b h = refl
  fuel_suc (suc n) (suc a) b h =
      ap (λ (t : ℕ). t * 2 + op (suc a % 2) (b % 2)) (fuel_suc n (suc a / 2) (b / 2) (omega arith))

  fuel_enough : (m n a b : ℕ) → a ≤ n → n ≤ m → digits last op m a b ≡ digits last op n a b
  fuel_enough zero zero a b h k = refl
  fuel_enough zero (suc n) a b h k = absurd (omega arith)
  fuel_enough (suc m) n a b h k = elim (dec_le n m) [
    | yes le ↦ fuel_suc m a b (omega arith) ∙ fuel_enough m n a b h le
    | no gt ↦ let same : suc m ≡ n = omega arith in ap (λ (t : ℕ). digits last op t a b) same
  ]

  -- The lowest digit, where the first number has one.
  lowest_digit :
      (a b : ℕ)
      → bitwise last op (suc a) b ≡ bitwise last op (suc a / 2) (b / 2) * 2 + op (suc a % 2) (b % 2)
  lowest_digit a b =
      omega (arith, fuel_enough a (suc a / 2) (suc a / 2) (b / 2) (omega arith) (omega arith))

differ_bits : (a b : ℕ) → a < 2 → b < 2 → differ a b ≡ (a + b) % 2
differ_bits zero zero p q = refl
differ_bits zero (suc zero) p q = refl
differ_bits (suc zero) zero p q = refl
differ_bits (suc zero) (suc zero) p q = refl
differ_bits a (suc (suc b)) p q = absurd (omega arith)
differ_bits (suc (suc a)) b p q = absurd (omega arith)

pub bit_xor_step : (a b : ℕ) → bit_xor a b ≡ bit_xor (a / 2) (b / 2) * 2 + (a % 2 + b % 2) % 2
bit_xor_step zero b = simp bit_xor-bitwise (omega arith)
bit_xor_step (suc a) b = simp bit_xor-bitwise (
    omega (
      arith,
      lowest_digit (λ y. y) differ a b,
      differ_bits (suc a % 2) (b % 2) (omega arith) (omega arith),
    ))

bit_and_digit : (a b : ℕ) → bit_and a b ≡ bit_and (a / 2) (b / 2) * 2 + min (a % 2) (b % 2)
bit_and_digit zero b = simp bit_and-bitwise (omega arith)
bit_and_digit (suc a) b = simp bit_and-bitwise (lowest_digit (λ y. 0) min a b)

bit_and-zero_below : (n a : ℕ) → a < n → bit_and a 0 ≡ 0
bit_and-zero_below zero a h = absurd (omega arith)
bit_and-zero_below (suc n) zero h = refl
bit_and-zero_below (suc n) (suc a) h =
    omega (arith, bit_and_digit (suc a) 0, bit_and-zero_below n (suc a / 2) (omega arith))

bit_and-zero : (a : ℕ) → bit_and a 0 ≡ 0
bit_and-zero a = bit_and-zero_below (suc a) a (omega arith)

pub bit_and-1 : (a : ℕ) → bit_and a 1 ≡ a % 2
bit_and-1 a = omega (arith, bit_and_digit a 1, bit_and-zero (a / 2))

bit_and-15 : (a : ℕ) → bit_and a 15 ≡ a % 16
bit_and-15 a = omega (
  arith,
  bit_and_digit a 15,
  bit_and_digit (a / 2) 7,
  bit_and_digit (a / 2 / 2) 3,
  bit_and-1 (a / 2 / 2 / 2),
)

pub bit_and-255 : (a : ℕ) → bit_and a 255 ≡ a % 256
bit_and-255 a = omega (
  arith,
  bit_and_digit a 255,
  bit_and_digit (a / 2) 127,
  bit_and_digit (a / 2 / 2) 63,
  bit_and_digit (a / 2 / 2 / 2) 31,
  bit_and-15 (a / 2 / 2 / 2 / 2),
)

pub bit_xor-half : (a b : ℕ) → bit_xor a b / 2 ≡ bit_xor (a / 2) (b / 2)
bit_xor-half a b = omega (arith, bit_xor_step a b)

pub bit_xor-parity : (a b : ℕ) → bit_xor a b % 2 ≡ (a % 2 + b % 2) % 2
bit_xor-parity a b = omega (arith, bit_xor_step a b)

xor_zero_below : (n a : ℕ) → a < n → bit_xor a 0 ≡ a
xor_zero_below zero a h = absurd (omega arith)
xor_zero_below (suc n) zero h = refl
xor_zero_below (suc n) (suc a) h =
    omega (arith, bit_xor_step (suc a) 0, xor_zero_below n (suc a / 2) (omega arith))

pub bit_xor-zero : (a : ℕ) → bit_xor a 0 ≡ a
bit_xor-zero a = xor_zero_below (suc a) a (omega arith)

-- By the digits of all three numbers, which lie below a bound.
left_comm_below :
    (n p a b : ℕ) → p ≤ n → a ≤ n → b ≤ n → bit_xor p (bit_xor a b) ≡ bit_xor a (bit_xor p b)
left_comm_below zero zero zero zero h k l = refl
left_comm_below zero (suc p) a b h k l = absurd (omega arith)
left_comm_below zero zero (suc a) b h k l = absurd (omega arith)
left_comm_below zero zero zero (suc b) h k l = absurd (omega arith)
left_comm_below (suc n) p a b h k l = omega (
  arith,
  bit_xor_step p (bit_xor a b),
  bit_xor_step a (bit_xor p b),
  bit_xor-parity a b,
  bit_xor-parity p b,
  ap (bit_xor (p / 2)) (bit_xor-half a b),
  ap (bit_xor (a / 2)) (bit_xor-half p b),
  left_comm_below n (p / 2) (a / 2) (b / 2) (omega arith) (omega arith) (omega arith),
)

pub bit_xor-left_comm : (p a b : ℕ) → bit_xor p (bit_xor a b) ≡ bit_xor a (bit_xor p b)
bit_xor-left_comm p a b =
    left_comm_below (p + a + b) p a b (omega arith) (omega arith) (omega arith)

-- Words stay words.
pub bit_xor-lt : (k a b : ℕ) → a < 2 ^ k → b < 2 ^ k → bit_xor a b < 2 ^ k
bit_xor-lt zero a b h l =
    let e : a ≡ 0 = omega arith in let f : b ≡ 0 = omega arith in rw (e, f) (omega arith)
bit_xor-lt (suc k) a b h l = omega (
  arith,
  pow-suc 2 k,
  bit_xor_step a b,
  bit_xor-lt k (a / 2) (b / 2) (omega (arith, pow-suc 2 k)) (omega (arith, pow-suc 2 k)),
)

div_16 : (a : ℕ) → a / 2 / 2 / 2 / 2 ≡ a / 16
div_16 a = omega arith

-- Four digits at a time.
bit_xor-div_16 : (a b : ℕ) → bit_xor a b / 16 ≡ bit_xor (a / 16) (b / 16)
bit_xor-div_16 a b =
    rw (← div_16 a, ← div_16 b)
      (omega (
        arith,
        bit_xor-half a b,
        bit_xor-half (a / 2) (b / 2),
        bit_xor-half (a / 2 / 2) (b / 2 / 2),
        bit_xor-half (a / 2 / 2 / 2) (b / 2 / 2 / 2),
      ))

-- A byte changes the low byte only.
pub bit_xor-div_256 : (a b : ℕ) → b < 256 → bit_xor a b / 256 ≡ a / 256
bit_xor-div_256 a b h =
    let low : b / 16 / 16 ≡ 0 = omega arith in
    let inner : bit_xor (a / 16) (b / 16) / 16 ≡ bit_xor (a / 16 / 16) 0 =
      bit_xor-div_16 (a / 16) (b / 16) ∙ ap (bit_xor (a / 16 / 16)) low in
    omega (arith, bit_xor-div_16 a b, inner, bit_xor-zero (a / 16 / 16))

bit_xor-shift_16 : (q l : ℕ) → bit_xor (q * 16) l ≡ bit_xor q (l / 16) * 16 + l % 16
bit_xor-shift_16 q l =
    let e : q * 16 / 16 ≡ q = omega arith in
    let high : bit_xor (q * 16) l / 16 ≡ bit_xor q (l / 16) =
      bit_xor-div_16 (q * 16) l ∙ ap (λ (t : ℕ). bit_xor t (l / 16)) e in
    omega (
      arith,
      high,
      bit_xor_step (q * 16) l,
      bit_xor_step (q * 16 / 2) (l / 2),
      bit_xor_step (q * 16 / 2 / 2) (l / 2 / 2),
      bit_xor_step (q * 16 / 2 / 2 / 2) (l / 2 / 2 / 2),
    )

-- The two parts of a word put together again.
pub bit_xor-split : (x : ℕ) → bit_xor (x / 256 * 256) (x % 256) ≡ x
bit_xor-split x =
    let q = x / 256 in
    let r = x % 256 in
    let e : q * 256 ≡ q * 16 * 16 = omega arith in
    let z : r / 16 / 16 ≡ 0 = omega arith in
    rw e (
      omega (
        arith,
        bit_xor-shift_16 (q * 16) r,
        bit_xor-shift_16 q (r / 16),
        ap (bit_xor q) z,
        bit_xor-zero q,
      ))

pub bit_xor_comm : (a b : ℕ) → bit_xor a b ≡ bit_xor b a
bit_xor_comm a b =
    ap (bit_xor a) (sym (bit_xor-zero b))
    ∙ bit_xor-left_comm a b 0
    ∙ ap (bit_xor b) (bit_xor-zero a)

-- The lowest digit of a word and the rest.
pub bit_xor-split_2 : (x : ℕ) → bit_xor (x / 2 * 2) (x % 2) ≡ x
bit_xor-split_2 x =
    let e : x / 2 * 2 / 2 ≡ x / 2 = omega arith in
    let z : x % 2 / 2 ≡ 0 = omega arith in
    omega (
      arith,
      bit_xor_step (x / 2 * 2) (x % 2),
      ap (λ (t : ℕ). bit_xor t (x % 2 / 2)) e,
      ap (bit_xor (x / 2)) z,
      bit_xor-zero (x / 2),
    )
