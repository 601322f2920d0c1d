-- ===== src/Output/Tables.antt =====
-- source/device_capabilities.h: the other tables, by macro name.
use aelkey.Base.{String, List, [], ◌∷◌}

abbrev pub gamepad_buttons : List String
gamepad_buttons =
    "BTN_A" ∷ "BTN_B" ∷ "BTN_X" ∷ "BTN_Y" ∷ "BTN_C" ∷ "BTN_Z" ∷ "BTN_TL" ∷ "BTN_TR" ∷ "BTN_TL2"
    ∷ "BTN_TR2" ∷ "BTN_SELECT" ∷ "BTN_START" ∷ "BTN_MODE" ∷ "BTN_THUMBL" ∷ "BTN_THUMBR" ∷ []

abbrev pub gamepad_abs : List String
gamepad_abs =
    "ABS_X" ∷ "ABS_Y" ∷ "ABS_RX" ∷ "ABS_RY" ∷ "ABS_Z" ∷ "ABS_RZ" ∷ "ABS_HAT0X" ∷ "ABS_HAT0Y" ∷ []

abbrev pub gamepad_ff : List String
gamepad_ff = "FF_RUMBLE" ∷ "FF_GAIN" ∷ "FF_PERIODIC" ∷ "FF_SQUARE" ∷ "FF_TRIANGLE" ∷ "FF_SINE" ∷ []

abbrev pub mouse_buttons : List String
mouse_buttons =
    "BTN_LEFT" ∷ "BTN_RIGHT" ∷ "BTN_MIDDLE" ∷ "BTN_SIDE" ∷ "BTN_EXTRA" ∷ "BTN_FORWARD" ∷ "BTN_BACK"
    ∷ "BTN_TASK" ∷ []

abbrev pub mouse_rel : List String
mouse_rel =
    "REL_X" ∷ "REL_Y" ∷ "REL_WHEEL" ∷ "REL_HWHEEL" ∷ "REL_WHEEL_HI_RES" ∷ "REL_HWHEEL_HI_RES" ∷ []

abbrev pub touchpad_buttons : List String
touchpad_buttons =
    "BTN_LEFT" ∷ "BTN_RIGHT" ∷ "BTN_MIDDLE" ∷ "BTN_SIDE" ∷ "BTN_EXTRA" ∷ "BTN_FORWARD" ∷ "BTN_BACK"
    ∷ "BTN_TASK" ∷ "BTN_TOUCH" ∷ "BTN_TOOL_FINGER" ∷ "BTN_TOOL_DOUBLETAP" ∷ "BTN_TOOL_TRIPLETAP"
    ∷ "BTN_TOOL_QUADTAP" ∷ "BTN_TOOL_QUINTTAP" ∷ []

abbrev pub touchpad_rel : List String
touchpad_rel = "REL_WHEEL" ∷ "REL_HWHEEL" ∷ "REL_WHEEL_HI_RES" ∷ "REL_HWHEEL_HI_RES" ∷ []

abbrev pub touchpad_abs : List String
touchpad_abs = "ABS_X" ∷ "ABS_Y" ∷ []

abbrev pub touchpad_mt_abs : List String
touchpad_mt_abs =
    "ABS_X" ∷ "ABS_Y" ∷ "ABS_MT_SLOT" ∷ "ABS_MT_POSITION_X" ∷ "ABS_MT_POSITION_Y"
    ∷ "ABS_MT_TRACKING_ID" ∷ "ABS_MT_TOOL_TYPE" ∷ []

abbrev pub touchscreen_keys : List String
touchscreen_keys = "BTN_TOUCH" ∷ []

abbrev pub touchscreen_abs : List String
touchscreen_abs =
    "ABS_X" ∷ "ABS_Y" ∷ "ABS_MT_SLOT" ∷ "ABS_MT_POSITION_X" ∷ "ABS_MT_POSITION_Y"
    ∷ "ABS_MT_TRACKING_ID" ∷ "ABS_MT_PRESSURE" ∷ "ABS_MT_TOUCH_MAJOR" ∷ "ABS_MT_TOUCH_MINOR" ∷ []

abbrev pub digitizer_keys : List String
digitizer_keys =
    "BTN_TOOL_PEN" ∷ "BTN_TOOL_RUBBER" ∷ "BTN_TOOL_BRUSH" ∷ "BTN_TOOL_PENCIL" ∷ "BTN_TOOL_AIRBRUSH"
    ∷ "BTN_TOOL_FINGER" ∷ "BTN_TOOL_MOUSE" ∷ "BTN_TOOL_LENS" ∷ "BTN_STYLUS" ∷ "BTN_STYLUS2"
    ∷ "BTN_STYLUS3" ∷ "BTN_TOUCH" ∷ []

abbrev pub digitizer_abs : List String
digitizer_abs =
    "ABS_X" ∷ "ABS_Y" ∷ "ABS_PRESSURE" ∷ "ABS_TILT_X" ∷ "ABS_TILT_Y" ∷ "ABS_DISTANCE" ∷ "ABS_WHEEL"
    ∷ []
