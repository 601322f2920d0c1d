-- ===== src/Gatt/Hex.antt =====
-- Numbers in hexadecimal: `{:04X}` of `std::format`, and `strtoul` to base 16.
use aelkey.Base.{
  ℕ, ℤ, pos, negsuc, zero, suc, ◌+◌, ◌-◌, ◌*◌, ◌/◌, ◌%◌, ◌<◌, String, true, false, ◌&&◌, ◌||◌,
  Option, none, some, ltb, leb, eqb, if◌then◌else◌, ◌<>◌, append_assoc, ap, ◌≡◌, refl, ◌∙◌, arith,
}
use Prim.Native.Char.{Char, code}

unfoldable pub hex_digit : ℕ → String
hex_digit n =
    if eqb n 0
    then "0"
    else if eqb n 1
    then "1"
    else if eqb n 2
    then "2"
    else if eqb n 3
    then "3"
    else if eqb n 4
    then "4"
    else if eqb n 5
    then "5"
    else if eqb n 6
    then "6"
    else if eqb n 7
    then "7"
    else if eqb n 8
    then "8"
    else if eqb n 9
    then "9"
    else if eqb n 10
    then "A"
    else if eqb n 11
    then "B"
    else if eqb n 12
    then "C"
    else if eqb n 13
    then "D"
    else if eqb n 14
    then "E"
    else "F"

-- The value of a digit, in either case.
unfoldable pub hex_value : ℕ → Option ℕ
hex_value c =
    if leb 48 c && leb c 57
    then some (c - 48)
    else if leb 65 c && leb c 70
    then some (c - 55)
    else if leb 97 c && leb c 102
    then some (c - 87)
    else none

-- The digits that a text begins with, after those that make `n`.
unfoldable pub digits_from : ℕ → String → ℕ
digits_from n String.[] = n
digits_from n (String.◌∷◌ c s) = elim (hex_value (code c)) [
  | none ↦ n
  | some d ↦ digits_from (16 * n + d) s
]

-- `0x` before the digits is skipped. A sign and spaces, which `strtoul` would skip too, cannot stand
-- in the path of an object.
unfoldable pub strtoul16 : String → ℕ
unfolding digits_from
strtoul16 (String.◌∷◌ a (String.◌∷◌ b s)) =
    if eqb (code a) 48 && (eqb (code b) 120 || eqb (code b) 88)
    then digits_from 0 s
    else digits_from 0 (String.◌∷◌ a (String.◌∷◌ b s))
strtoul16 (String.◌∷◌ a String.[]) = digits_from 0 (String.◌∷◌ a String.[])
strtoul16 String.[] = 0

-- The conversion of an `unsigned long` to `int`; a number that is too large reads as ULONG_MAX.
unfoldable pub as_int : ℕ → ℤ
as_int n =
    let w = (if ltb n 18446744073709551616 then n else 18446744073709551615) % 4294967296 in
    if ltb w 2147483648 then pos w else negsuc (4294967295 - w)

-- The last `k` digits of a number.
unfoldable pub last_digits : ℕ → ℕ → String
last_digits zero n = ""
last_digits (suc k) n = last_digits k (n / 16) <> hex_digit (n % 16)

-- `{:04X}` of a C integer that is positive: at least 4 digits, and as many as it takes.
unfoldable pub hex4 : ℕ → String
unfolding last_digits hex_digit
hex4 n =
    if ltb n 65536
    then last_digits 4 n
    else if ltb n 1048576
    then last_digits 5 n
    else if ltb n 16777216
    then last_digits 6 n
    else if ltb n 268435456
    then last_digits 7 n
    else last_digits 8 n

IsReadBack : ℕ → Type 0
IsReadBack d = (c : Char) × (hex_digit d ≡ String.◌∷◌ c String.[]) × (hex_value (code c) ≡ some d)

hex_digit-IsReadBack : (d : ℕ) → d < 16 → IsReadBack d
unfolding IsReadBack hex_digit hex_value
hex_digit-IsReadBack zero h = ("0", refl, refl)
hex_digit-IsReadBack (suc zero) h = ("1", refl, refl)
hex_digit-IsReadBack (suc (suc zero)) h = ("2", refl, refl)
hex_digit-IsReadBack (suc (suc (suc zero))) h = ("3", refl, refl)
hex_digit-IsReadBack (suc (suc (suc (suc zero)))) h = ("4", refl, refl)
hex_digit-IsReadBack (suc (suc (suc (suc (suc zero))))) h = ("5", refl, refl)
hex_digit-IsReadBack (suc (suc (suc (suc (suc (suc zero)))))) h = ("6", refl, refl)
hex_digit-IsReadBack (suc (suc (suc (suc (suc (suc (suc zero))))))) h = ("7", refl, refl)
hex_digit-IsReadBack (suc (suc (suc (suc (suc (suc (suc (suc zero)))))))) h = ("8", refl, refl)
hex_digit-IsReadBack (suc (suc (suc (suc (suc (suc (suc (suc (suc zero))))))))) h =
    ("9", refl, refl)
hex_digit-IsReadBack (suc (suc (suc (suc (suc (suc (suc (suc (suc (suc zero)))))))))) h =
    ("A", refl, refl)
hex_digit-IsReadBack (suc (suc (suc (suc (suc (suc (suc (suc (suc (suc (suc zero))))))))))) h =
    ("B", refl, refl)
hex_digit-IsReadBack (suc (suc (suc (suc (suc (suc (suc (suc (suc (suc (suc (suc zero))))))))))))
      h =
    ("C", refl, refl)
hex_digit-IsReadBack
      (suc (suc (suc (suc (suc (suc (suc (suc (suc (suc (suc (suc (suc zero))))))))))))) h =
    ("D", refl, refl)
hex_digit-IsReadBack
      (suc (suc (suc (suc (suc (suc (suc (suc (suc (suc (suc (suc (suc (suc zero)))))))))))))) h =
    ("E", refl, refl)
hex_digit-IsReadBack
      (suc (suc (suc (suc (suc (suc (suc (suc (suc (suc (suc (suc (suc (suc (suc zero)))))))))))))))
      h =
    ("F", refl, refl)
hex_digit-IsReadBack
      (suc
        (suc (suc (suc (suc (suc (suc (suc (suc (suc (suc (suc (suc (suc (suc (suc n))))))))))))))))
      h =
    absurd (omega arith)

digits_from-hex_digit :
    (acc d : ℕ) (t : String)
    → d < 16
    → digits_from acc (hex_digit d <> t) ≡ digits_from (16 * acc + d) t
unfolding digits_from IsReadBack ◌<>◌
digits_from-hex_digit acc d t h =
    let (c, e, f) = hex_digit-IsReadBack d h in rw (e, f, digits_from) refl

-- Four digits, one after the other.
four : ℕ → String → String
four n t =
    hex_digit (n / 16 / 16 / 16 % 16)
    <> hex_digit (n / 16 / 16 % 16)
    <> hex_digit (n / 16 % 16)
    <> hex_digit (n % 16)
    <> t

last_digits-four : (n : ℕ) (t : String) → last_digits 4 n <> t ≡ four n t
unfolding last_digits four ◌<>◌
last_digits-four n t =
    let a = hex_digit (n / 16 / 16 / 16 % 16) in
    let b = hex_digit (n / 16 / 16 % 16) in
    let c = hex_digit (n / 16 % 16) in
    let d = hex_digit (n % 16) in
    append_assoc ((a <> b) <> c) d t
    ∙ append_assoc (a <> b) c (d <> t)
    ∙ append_assoc a b (c <> d <> t)

digits_from-four : (n : ℕ) (t : String) → n < 65536 → digits_from 0 (four n t) ≡ digits_from n t
unfolding four
digits_from-four n t h =
    let a = n / 16 / 16 / 16 % 16 in
    let b = n / 16 / 16 % 16 in
    let c = n / 16 % 16 in
    let d = n % 16 in
    let total : 16 * (16 * (16 * (16 * 0 + a) + b) + c) + d ≡ n = omega arith in
    digits_from-hex_digit 0 a _ (omega arith)
    ∙ digits_from-hex_digit (16 * 0 + a) b _ (omega arith)
    ∙ digits_from-hex_digit (16 * (16 * 0 + a) + b) c _ (omega arith)
    ∙ digits_from-hex_digit (16 * (16 * (16 * 0 + a) + b) + c) d t (omega arith)
    ∙ ap (λ (m : ℕ). digits_from m t) total

not_x : (c b : ℕ) → hex_value c ≡ some b → (eqb c 120 ≡ false) × (eqb c 88 ≡ false)
unfolding hex_value
not_x c b j = (ground arith, ground arith)

-- A digit is not the `x` of `0x`.
strtoul16-digits :
    (a b : ℕ) (t : String)
    → a < 16
    → b < 16
    → strtoul16 (hex_digit a <> hex_digit b <> t) ≡ digits_from 0 (hex_digit a <> hex_digit b <> t)
unfolding strtoul16 IsReadBack ◌<>◌
strtoul16-digits a b t h k =
    let (c, e, f) = hex_digit-IsReadBack a h in
    let (d, i, j) = hex_digit-IsReadBack b k in
    let (n, m) = not_x (code d) b j in rw (e, i, n, m) (ground arith)

-- Where no digit follows, the number is read back.
pub strtoul16-hex4 :
    (n : ℕ) (t : String) → n < 65536 → digits_from n t ≡ n → strtoul16 (hex4 n <> t) ≡ n
unfolding hex4 strtoul16 four
strtoul16-hex4 n t h stops =
    let small : ltb n 65536 ≡ true = ground arith in
    let split : hex4 n <> t ≡ four n t = rw (small, hex4) (last_digits-four n t) in
    let c = n / 16 % 16 in
    let d = n % 16 in
    ap strtoul16 split
    ∙ strtoul16-digits (n / 16 / 16 / 16 % 16) (n / 16 / 16 % 16) (hex_digit c <> hex_digit d <> t)
        (omega arith) (omega arith)
    ∙ digits_from-four n t h
    ∙ stops
