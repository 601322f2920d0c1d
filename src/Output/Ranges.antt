-- ===== src/Output/Ranges.antt =====
-- The ranges of absolute axes.
use aelkey.Base.{
  ltb_ℤ, String, Bool, true, false, ◌&&◌, not, List, [], ◌∷◌, none, some, string_key, ◌≡◌, arith,
}
use aelkey.Output.Defs.{abs, Absinfo, one_of, pick, default_absinfo_for}
use aelkey.Output.Setup.{Call, enable_code, enable_each, enable_codes, preset}

-- The range is not empty, and the initial value is not outside it.
abbrev pub is_range : Absinfo → Bool
is_range a =
    ltb_ℤ a.minimum a.maximum && not (ltb_ℤ a.value a.minimum) && not (ltb_ℤ a.maximum a.value)

-- Each axis that is enabled has a range.
unfoldable pub axes_have_ranges : List Call → Bool
axes_have_ranges [] = true
axes_have_ranges (enable_code abs c none ∷ cs) = false
axes_have_ranges (enable_code abs c (some a) ∷ cs) = is_range a && axes_have_ranges cs
axes_have_ranges (_ ∷ cs) = axes_have_ranges cs

-- In the description of each device type, every absolute axis that is enabled has a range, not
-- empty, that its initial value is in.
pub preset-axes_have_ranges : (type : String) → axes_have_ranges (preset type) ≡ true
unfolding axes_have_ranges preset enable_codes enable_each default_absinfo_for pick one_of
preset-axes_have_ranges type = ground arith
