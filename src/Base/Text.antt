-- ===== src/Base/Text.antt =====
-- `std::string` searches.
use Prim.Native.Nat.{ℕ, zero, suc}
use Prim.Native.Char.{code}
use Prim.Native.String.{String}
use mathlib.Core.Path.{◌≡◌, refl}
use native.Mathlib.Omega.{arith}
use mathlib.Core.Bool.{Bool, true, false, ◌&&◌, ◌||◌}
use aelkey.Base.Tests.{ltb, eqb}

-- s.empty()
abbrev pub is_empty : String → Bool
is_empty String.[] = true
is_empty (String.◌∷◌ c s) = false

-- s.rfind(p, 0) == 0
unfoldable pub starts_with : String → String → Bool
starts_with s String.[] = true
starts_with String.[] (String.◌∷◌ d p) = false
starts_with (String.◌∷◌ c s) (String.◌∷◌ d p) = eqb (code c) (code d) && starts_with s p

-- s.find(p) != npos
unfoldable pub has_infix : String → String → Bool
unfolding starts_with
has_infix String.[] p = starts_with String.[] p
has_infix (String.◌∷◌ c s) p = starts_with (String.◌∷◌ c s) p || has_infix s p

-- s.size()
unfoldable pub size : String → ℕ
size String.[] = 0
size (String.◌∷◌ c s) = suc (size s)

-- s.substr(0, n)
unfoldable pub prefix : ℕ → String → String
prefix zero s = String.[]
prefix (suc n) String.[] = String.[]
prefix (suc n) (String.◌∷◌ c s) = String.◌∷◌ c (prefix n s)

unfoldable pub min : ℕ → ℕ → ℕ
min zero b = zero
min (suc a) zero = zero
min (suc a) (suc b) = suc (min a b)

pub prefix-prefix : (a b : ℕ) (s : String) → prefix a (prefix b s) ≡ prefix (min a b) s
unfolding prefix min
prefix-prefix zero b s = refl
prefix-prefix (suc a) zero s = refl
prefix-prefix (suc a) (suc b) String.[] = refl
prefix-prefix (suc a) (suc b) (String.◌∷◌ c s) = cc (prefix-prefix a b s)

pub prefix_all : (n : ℕ) (s : String) → ltb n (size s) ≡ false → prefix n s ≡ s
unfolding prefix size
prefix_all zero String.[] h = refl
prefix_all zero (String.◌∷◌ c s) h = ground arith
prefix_all (suc n) String.[] h = refl
prefix_all (suc n) (String.◌∷◌ c s) h = cc (prefix_all n s (ground arith))

-- s + t
infixr 65 ◌<>◌
unfoldable pub ◌<>◌ : String → String → String
String.[] <> t = t
String.◌∷◌ c s <> t = String.◌∷◌ c (s <> t)

pub append_assoc : (s t u : String) → (s <> t) <> u ≡ s <> t <> u
unfolding ◌<>◌
append_assoc String.[] t u = refl
append_assoc (String.◌∷◌ c s) t u = cc (append_assoc s t u)
