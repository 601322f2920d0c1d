-- ===== src/Output/Defs.antt =====
-- source/device_output.cc: the virtual devices that the program creates. A code is the name of its
-- macro of linux/input-event-codes.h.
use aelkey.Base.{
  ℤ, pos, negsuc, String, Bool, false, ◌||◌, List, [], ◌∷◌, Option, none, some, if◌then◌else◌, ◌==◌,
  string_key,
}

pub data EvType : Type 0 where
  key : EvType
  rel : EvType
  abs : EvType
  msc : EvType
  sw : EvType
  ff : EvType
  rep : EvType

-- `struct input_absinfo`
pub record Absinfo : Type 0 where
  pub value : ℤ
  pub minimum : ℤ
  pub maximum : ℤ
  pub fuzz : ℤ
  pub flat : ℤ
  pub resolution : ℤ

abbrev pub range : ℤ → ℤ → ℤ → Absinfo
range lo hi res = record {
  value = pos 0;
  minimum = lo;
  maximum = hi;
  fuzz = pos 0;
  flat = pos 0;
  resolution = res;
}

abbrev pub pos_default : Absinfo
pos_default = range (pos 0) (pos 65535) (pos 0)

abbrev pub stick_default : Absinfo
stick_default = range (negsuc 32766) (pos 32767) (pos 0)

abbrev pub trigger_default : Absinfo
trigger_default = range (pos 0) (pos 255) (pos 0)

abbrev pub pressure_default : Absinfo
pressure_default = range (pos 0) (pos 65535) (pos 0)

abbrev pub tilt_default : Absinfo
tilt_default = range (negsuc 89) (pos 90) (pos 0)

abbrev pub distance_default : Absinfo
distance_default = range (pos 0) (pos 255) (pos 0)

abbrev pub orient_default : Absinfo
orient_default = range (pos 0) (pos 3) (pos 0)

abbrev pub wheel_default : Absinfo
wheel_default = range (negsuc 32767) (pos 32767) (pos 0)

abbrev pub hat_default : Absinfo
hat_default = range (negsuc 0) (pos 1) (pos 0)

abbrev pub accel_default : Absinfo
accel_default = range (negsuc 32766) (pos 32767) (pos 4096)

abbrev pub gyro_default : Absinfo
gyro_default = range (negsuc 32766999) (pos 32767000) (pos 14247)

abbrev pub mt_pos_default : Absinfo
mt_pos_default = range (pos 0) (pos 65535) (pos 0)

abbrev pub mt_slot_default : Absinfo
mt_slot_default = range (pos 0) (pos 4) (pos 0)

abbrev pub mt_trackid_default : Absinfo
mt_trackid_default = range (negsuc 0) (pos 65535) (pos 0)

abbrev pub mt_tooltype_default : Absinfo
mt_tooltype_default = range (pos 0) (pos 2) (pos 0)

abbrev pub mt_misc_default : Absinfo
mt_misc_default = range (pos 0) (pos 255) (pos 0)

-- The cases of the switch that share a result.
unfoldable pub one_of : String → List String → Bool
one_of c [] = false
one_of c (d ∷ ds) = (c == d) || one_of c ds

-- The cases of the switch, group by group.
abbrev pub absinfo_cases : List (List String × Absinfo)
absinfo_cases =
    ("ABS_RX" ∷ "ABS_RY" ∷ [], stick_default)
    ∷ ("ABS_X" ∷ "ABS_Y" ∷ [], pos_default)
    ∷ (
      "ABS_Z" ∷ "ABS_RZ" ∷ "ABS_THROTTLE" ∷ "ABS_BRAKE" ∷ "ABS_GAS" ∷ "ABS_RUDDER" ∷ [],
      trigger_default,
    )
    ∷ ("ABS_PRESSURE" ∷ "ABS_MT_PRESSURE" ∷ [], pressure_default)
    ∷ ("ABS_TILT_X" ∷ "ABS_TILT_Y" ∷ [], tilt_default)
    ∷ ("ABS_DISTANCE" ∷ [], distance_default)
    ∷ ("ABS_MT_ORIENTATION" ∷ [], orient_default)
    ∷ ("ABS_WHEEL" ∷ [], wheel_default)
    ∷ (
      "ABS_HAT0X" ∷ "ABS_HAT0Y" ∷ "ABS_HAT1X" ∷ "ABS_HAT1Y" ∷ "ABS_HAT2X" ∷ "ABS_HAT2Y"
          ∷ "ABS_HAT3X" ∷ "ABS_HAT3Y" ∷ [],
      hat_default,
    )
    ∷ ("ABS_MT_POSITION_X" ∷ "ABS_MT_POSITION_Y" ∷ [], mt_pos_default)
    ∷ ("ABS_MT_SLOT" ∷ [], mt_slot_default)
    ∷ ("ABS_MT_TRACKING_ID" ∷ [], mt_trackid_default)
    ∷ ("ABS_MT_TOOL_TYPE" ∷ [], mt_tooltype_default)
    ∷ (
      "ABS_MT_TOUCH_MAJOR" ∷ "ABS_MT_TOUCH_MINOR" ∷ "ABS_MT_WIDTH_MAJOR" ∷ "ABS_MT_WIDTH_MINOR"
          ∷ [],
      mt_misc_default,
    )
    ∷ ("ABS_VOLUME" ∷ "ABS_MISC" ∷ [], pos_default)
    ∷ []

unfoldable pub pick : String → List (List String × Absinfo) → Option Absinfo
unfolding one_of
pick c [] = none
pick c ((names, info) ∷ cases) = if one_of c names then some info else pick c cases

unfoldable pub default_absinfo_for : String → Option Absinfo
unfolding pick
default_absinfo_for c = pick c absinfo_cases
