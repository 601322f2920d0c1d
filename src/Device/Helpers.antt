-- ===== src/Device/Helpers.antt =====
-- source/device_helpers.cc: patterns for device names.
use Prim.Native.Char.{code}
use aelkey.Base.{
  ℕ, String, Bool, true, false, ◌||◌, Option, none, some, is_empty, has_infix, eqb, ◌==◌,
  string_key, if◌then◌else◌,
}

-- s.front() == c, s.back() == c
abbrev pub front_is : ℕ → String → Bool
front_is c String.[] = false
front_is c (String.◌∷◌ d s) = eqb (code d) c

unfoldable pub back_is : ℕ → String → Bool
back_is c String.[] = false
back_is c (String.◌∷◌ d String.[]) = eqb (code d) c
back_is c (String.◌∷◌ d (String.◌∷◌ e s)) = back_is c (String.◌∷◌ e s)

unfoldable pub looks_like_regex : String → Bool
looks_like_regex s =
    if is_empty s
    then false
    else front_is b'^' s || back_is b'$' s || has_infix s ".*" || has_infix s ".+"

-- `regex` is `std::regex`: none where its constructor throws, and otherwise what `regex_match`
-- answers; `throws` is a match that throws, which the code catches too.
pub data Match : Type 0 where
  answer : Bool → Match
  throws : Match

module _ (regex : String → Option (String → Match)) where
  unfoldable pub match_string : String → String → Bool
  match_string pattern value =
      if is_empty pattern
      then true
      else if looks_like_regex pattern
      then elim (regex pattern) [
        | none ↦ pattern == value
        | some m ↦ elim (m value) [ answer b ↦ b | throws ↦ pattern == value ]
      ]
      else pattern == value
