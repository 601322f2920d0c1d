-- ===== src/Output/Order.antt =====
-- In what order a device's description enables event types and codes.
use aelkey.Base.{
  String, Bool, true, false, ◌&&◌, ◌||◌, List, [], ◌∷◌, ◌++◌, Option, ◌==◌, string_key, ==_refl,
  ◌≡◌, refl, arith, Option-cases, inl, inr,
}
use aelkey.Device.Decl.{OutputDecl}
use aelkey.Output.Defs.{EvType, key, rel, abs, msc, sw, ff, rep}
use aelkey.Output.Setup.{
  Call, enable_type, enable_code, enable_property, enable_each, enable_codes, evtype_of, preset,
  enable_capability, enable_capabilities, setup,
}

abbrev pub number : EvType → String
number key = "key"
number rel = "rel"
number abs = "abs"
number msc = "msc"
number sw = "sw"
number ff = "ff"
number rep = "rep"

unfoldable pub is_in : EvType → List EvType → Bool
is_in t [] = false
is_in t (u ∷ us) = (number u == number t) || is_in t us

-- Every code comes after its type was enabled; `seen` are the types enabled before.
unfoldable pub ordered : List EvType → List Call → Bool
unfolding is_in
ordered seen [] = true
ordered seen (enable_type t ∷ cs) = ordered (t ∷ seen) cs
ordered seen (enable_code t c i ∷ cs) = is_in t seen && ordered seen cs
ordered seen (enable_property p ∷ cs) = ordered seen cs

abbrev IsOrdered : List Call → Type 0
IsOrdered cs = (seen : List EvType) → ordered seen cs ≡ true

ordered-append :
    (seen : List EvType) (xs ys : List Call)
    → ordered seen xs ≡ true
    → IsOrdered ys
    → ordered seen (xs ++ ys) ≡ true
unfolding ordered
ordered-append seen [] ys h k = k seen
ordered-append seen (enable_type t ∷ xs) ys h k = ordered-append (t ∷ seen) xs ys h k
ordered-append seen (enable_code t c i ∷ xs) ys h k =
    let tail : ordered seen xs ≡ true = ground arith in
    let rest = ordered-append seen xs ys tail k in ground arith
ordered-append seen (enable_property p ∷ xs) ys h k = ordered-append seen xs ys h k

ordered-preset : (type : String) → ordered [] (preset type) ≡ true
unfolding ordered preset enable_codes enable_each
ordered-preset type = ground arith

ordered-enable_codes :
    (t : EvType) (c : String) (seen : List EvType) → ordered seen (enable_codes t (c ∷ [])) ≡ true
unfolding ordered enable_codes enable_each is_in
ordered-enable_codes t c seen = rw (==_refl (number t)) refl

enable_capability-IsOrdered :
    (names : EvType → String → Option String) (cap : String)
    → IsOrdered (enable_capability names cap)
unfolding ordered enable_capability
enable_capability-IsOrdered names cap seen = elim (Option-cases (names (evtype_of cap) cap)) [
  | inl e ↦ rw (e, enable_capability) refl
  | inr (c, e) ↦ rw (e, enable_capability) (ordered-enable_codes (evtype_of cap) c seen)
]

enable_capabilities-IsOrdered :
    (names : EvType → String → Option String) (caps : List String)
    → IsOrdered (enable_capabilities names caps)
unfolding enable_capabilities ordered
enable_capabilities-IsOrdered names [] seen = refl
enable_capabilities-IsOrdered names (cap ∷ caps) seen =
    ordered-append seen (enable_capability names cap) (enable_capabilities names caps)
      (enable_capability-IsOrdered names cap seen) (enable_capabilities-IsOrdered names caps)

-- Whatever its type and its capabilities, a device's description enables no code before the type
-- of that code.
pub setup-IsOrdered :
    (names : EvType → String → Option String) (out : OutputDecl)
    → ordered [] (setup names out) ≡ true
unfolding setup
setup-IsOrdered names out =
    ordered-append [] (preset out.type) (enable_capabilities names out.capabilities)
      (ordered-preset out.type) (enable_capabilities-IsOrdered names out.capabilities)
