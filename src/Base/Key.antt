-- ===== src/Base/Key.antt =====
-- Types with a test for equality and an order: the keys of a `std::map`.
use Prim.Native.Nat.{ℕ}
use Prim.Native.Char.{code}
use Prim.Native.String.{String}
use mathlib.Core.Path.{◌≡◌, refl}
use mathlib.Core.Logic.{◌↔◌}
use mathlib.Core.Bool.{Bool, true, false, ◌&&◌, ◌||◌}
use native.Mathlib.Omega.{arith}
use text.Mathlib.Text.{◌==◌ as str_eq}
use text.Mathlib.TextEquality.{eq_iff}
use aelkey.Base.Tests.{ltb, eqb, eqb_iff}
use aelkey.Base.Int.{ℤ, ltb_ℤ, eqb_ℤ, eqb_ℤ_iff}

-- `before` is `operator<`; no theorem needs a law of it.
pub record Key {ℓ} (K : Type ℓ) : Type ℓ where
  pub beq : K → K → Bool
  pub before : K → K → Bool
  pub beq_iff : (a b : K) → (beq a b ≡ true) ↔ (a ≡ b)

infix 50 ◌==◌
abbrev pub ◌==◌ {ℓ} : {K : Type ℓ} ⦃k : Key K⦄ → K → K → Bool
◌==◌ ⦃k⦄ = k.beq

pub ==_iff {ℓ} : {K : Type ℓ} ⦃k : Key K⦄ (a b : K) → ((a == b) ≡ true) ↔ (a ≡ b)
==_iff ⦃k⦄ a b = k.beq_iff a b

pub ==_refl {ℓ} : {K : Type ℓ} ⦃k : Key K⦄ (a : K) → (a == a) ≡ true
==_refl a = (==_iff a a).1 refl

-- Lexicographic, by code points.
unfoldable pub str_before : String → String → Bool
str_before String.[] String.[] = false
str_before String.[] (String.◌∷◌ d t) = true
str_before (String.◌∷◌ c s) String.[] = false
str_before (String.◌∷◌ c s) (String.◌∷◌ d t) =
    ltb (code c) (code d) || (eqb (code c) (code d) && str_before s t)

instance abbrev pub nat_key : Key ℕ
nat_key = record { beq = eqb; before = ltb; beq_iff = eqb_iff }

instance abbrev pub int_key : Key ℤ
int_key = record { beq = eqb_ℤ; before = ltb_ℤ; beq_iff = eqb_ℤ_iff }

instance abbrev pub string_key : Key String
string_key = record { beq = str_eq; before = str_before; beq_iff = eq_iff }

-- `std::pair<A, B>`, compared by the first component and then by the second.
module _ {ℓ κ} {A : Type ℓ} {B : Type κ} ⦃a : Key A⦄ ⦃b : Key B⦄ where
  abbrev pub pair_beq : A × B → A × B → Bool
  pair_beq p q = (p.0 == q.0) && (p.1 == q.1)

  pub pair_beq_iff : (p q : A × B) → (pair_beq p q ≡ true) ↔ (p ≡ q)
  pair_beq_iff p q = ground (arith, a.beq_iff p.0 q.0, b.beq_iff p.1 q.1)

  instance abbrev pub pair_key : Key (A × B)
  pair_key = record {
    beq = pair_beq;
    before = λ p q. a.before p.0 q.0 || ((p.0 == q.0) && b.before p.1 q.1);
    beq_iff = pair_beq_iff;
  }
