-- ===== src/Output/Setup.antt =====
-- source/device_output.cc: the calls of libevdev that describe a device before it is created.
use aelkey.Base.{
  String, ◌||◌, List, [], ◌∷◌, ◌++◌, Option, none, some, if◌then◌else◌, ◌==◌, string_key,
  starts_with,
}
use aelkey.Device.Decl.{OutputDecl}
use aelkey.Output.Keys.{keyboard_keys, consumer_keys}
use aelkey.Output.Tables
use aelkey.Output.Defs.{
  EvType, key, rel, abs, msc, sw, ff, rep, Absinfo, default_absinfo_for, stick_default,
  accel_default, gyro_default,
}

-- libevdev_enable_event_type, libevdev_enable_event_code, libevdev_enable_property
pub data Call : Type 0 where
  enable_type : EvType → Call
  enable_code : EvType → String → Option Absinfo → Call
  enable_property : String → Call

abbrev pub absinfo_of : EvType → String → Option Absinfo
absinfo_of abs code = default_absinfo_for code
absinfo_of _ code = none

unfoldable pub enable_each : EvType → List String → List Call
enable_each t [] = []
enable_each t (c ∷ cs) = enable_code t c (absinfo_of t c) ∷ enable_each t cs

unfoldable pub enable_codes : EvType → List String → List Call
unfolding enable_each
enable_codes t cs = enable_type t ∷ enable_each t cs

-- The event type that the prefix of a capability stands for.
unfoldable pub evtype_of : String → EvType
evtype_of cap =
    if starts_with cap "KEY_" || starts_with cap "BTN_"
    then key
    else if starts_with cap "REL_"
    then rel
    else if starts_with cap "ABS_"
    then abs
    else if starts_with cap "MSC_"
    then msc
    else if starts_with cap "SW_"
    then sw
    else if starts_with cap "FF_"
    then ff
    else key

-- The `if` chain of `create_output_device` over the type of the device.
unfoldable pub preset : String → List Call
unfolding enable_codes
preset type =
    if type == "keyboard"
    then enable_codes key keyboard_keys
      ++ enable_type msc
        ∷ enable_code msc "MSC_SCAN" none
        ∷ enable_type rep
        ∷ enable_code rep "REP_DELAY" none
        ∷ enable_code rep "REP_PERIOD" none
        ∷ []
    else if type == "consumer"
    then enable_codes key consumer_keys
    else if type == "gamepad"
    then enable_codes key Tables.gamepad_buttons
      ++ enable_codes abs Tables.gamepad_abs
      ++ enable_codes ff Tables.gamepad_ff
      ++ enable_code abs "ABS_X" (some stick_default)
        ∷ enable_code abs "ABS_Y" (some stick_default)
        ∷ []
    else if type == "imu"
    then enable_type abs
      ∷ enable_code abs "ABS_X" (some accel_default)
      ∷ enable_code abs "ABS_Y" (some accel_default)
      ∷ enable_code abs "ABS_Z" (some accel_default)
      ∷ enable_code abs "ABS_RX" (some gyro_default)
      ∷ enable_code abs "ABS_RY" (some gyro_default)
      ∷ enable_code abs "ABS_RZ" (some gyro_default)
      ∷ enable_type msc
      ∷ enable_code msc "MSC_TIMESTAMP" none
      ∷ []
    else if type == "mouse"
    then enable_codes key Tables.mouse_buttons ++ enable_codes rel Tables.mouse_rel
    else if type == "touchpad"
    then enable_codes key Tables.touchpad_buttons
      ++ enable_codes rel Tables.touchpad_rel
      ++ enable_codes abs Tables.touchpad_abs
      ++ enable_property "INPUT_PROP_POINTER" ∷ []
    else if type == "touchpad_mt"
    then enable_codes key Tables.touchpad_buttons
      ++ enable_codes abs Tables.touchpad_mt_abs
      ++ enable_property "INPUT_PROP_POINTER" ∷ []
    else if type == "touchscreen"
    then enable_codes key Tables.touchscreen_keys
      ++ enable_codes abs Tables.touchscreen_abs
      ++ enable_property "INPUT_PROP_DIRECT" ∷ []
    else if type == "digitizer"
    then enable_codes key Tables.digitizer_keys
      ++ enable_codes abs Tables.digitizer_abs
      ++ enable_property "INPUT_PROP_DIRECT" ∷ []
    else []

-- `libevdev_event_code_from_name`: the code that a text names, if it names one of that type.
module _ (code_from_name : EvType → String → Option String) where
  unfoldable pub enable_capability : String → List Call
  unfolding enable_codes evtype_of
  enable_capability cap = elim (code_from_name (evtype_of cap) cap) [
    | none ↦ []
    | some code ↦ enable_codes (evtype_of cap) (code ∷ [])
  ]

  unfoldable pub enable_capabilities : List String → List Call
  unfolding enable_capability
  enable_capabilities [] = []
  enable_capabilities (cap ∷ caps) = enable_capability cap ++ enable_capabilities caps

  unfoldable pub setup : OutputDecl → List Call
  unfolding preset enable_capabilities
  setup out = preset out.type ++ enable_capabilities out.capabilities
