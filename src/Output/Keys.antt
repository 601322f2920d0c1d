-- ===== src/Output/Keys.antt =====
-- source/device_capabilities.h: the keys of keyboards and consumer controls, by macro name.
use aelkey.Base.{String, List, [], ◌∷◌}

abbrev pub keyboard_keys : List String
keyboard_keys =
    "KEY_A" ∷ "KEY_B" ∷ "KEY_C" ∷ "KEY_D" ∷ "KEY_E" ∷ "KEY_F" ∷ "KEY_G" ∷ "KEY_H" ∷ "KEY_I"
    ∷ "KEY_J" ∷ "KEY_K" ∷ "KEY_L" ∷ "KEY_M" ∷ "KEY_N" ∷ "KEY_O" ∷ "KEY_P" ∷ "KEY_Q" ∷ "KEY_R"
    ∷ "KEY_S" ∷ "KEY_T" ∷ "KEY_U" ∷ "KEY_V" ∷ "KEY_W" ∷ "KEY_X" ∷ "KEY_Y" ∷ "KEY_Z" ∷ "KEY_1"
    ∷ "KEY_2" ∷ "KEY_3" ∷ "KEY_4" ∷ "KEY_5" ∷ "KEY_6" ∷ "KEY_7" ∷ "KEY_8" ∷ "KEY_9" ∷ "KEY_0"
    ∷ "KEY_F1" ∷ "KEY_F2" ∷ "KEY_F3" ∷ "KEY_F4" ∷ "KEY_F5" ∷ "KEY_F6" ∷ "KEY_F7" ∷ "KEY_F8"
    ∷ "KEY_F9" ∷ "KEY_F10" ∷ "KEY_F11" ∷ "KEY_F12" ∷ "KEY_F13" ∷ "KEY_F14" ∷ "KEY_F15" ∷ "KEY_F16"
    ∷ "KEY_F17" ∷ "KEY_F18" ∷ "KEY_F19" ∷ "KEY_F20" ∷ "KEY_F21" ∷ "KEY_F22" ∷ "KEY_F23" ∷ "KEY_F24"
    ∷ "KEY_LEFTSHIFT" ∷ "KEY_RIGHTSHIFT" ∷ "KEY_LEFTCTRL" ∷ "KEY_RIGHTCTRL" ∷ "KEY_LEFTALT"
    ∷ "KEY_RIGHTALT" ∷ "KEY_LEFTMETA" ∷ "KEY_RIGHTMETA" ∷ "KEY_CAPSLOCK" ∷ "KEY_COMPOSE"
    ∷ "KEY_NUMLOCK" ∷ "KEY_SCROLLLOCK" ∷ "KEY_UP" ∷ "KEY_DOWN" ∷ "KEY_LEFT" ∷ "KEY_RIGHT"
    ∷ "KEY_HOME" ∷ "KEY_END" ∷ "KEY_PAGEUP" ∷ "KEY_PAGEDOWN" ∷ "KEY_INSERT" ∷ "KEY_DELETE"
    ∷ "KEY_BACKSPACE" ∷ "KEY_ENTER" ∷ "KEY_ESC" ∷ "KEY_TAB" ∷ "KEY_SPACE" ∷ "KEY_MINUS"
    ∷ "KEY_EQUAL" ∷ "KEY_LEFTBRACE" ∷ "KEY_RIGHTBRACE" ∷ "KEY_SEMICOLON" ∷ "KEY_APOSTROPHE"
    ∷ "KEY_GRAVE" ∷ "KEY_BACKSLASH" ∷ "KEY_COMMA" ∷ "KEY_DOT" ∷ "KEY_SLASH" ∷ "KEY_KP0" ∷ "KEY_KP1"
    ∷ "KEY_KP2" ∷ "KEY_KP3" ∷ "KEY_KP4" ∷ "KEY_KP5" ∷ "KEY_KP6" ∷ "KEY_KP7" ∷ "KEY_KP8" ∷ "KEY_KP9"
    ∷ "KEY_KPSLASH" ∷ "KEY_KPASTERISK" ∷ "KEY_KPMINUS" ∷ "KEY_KPPLUS" ∷ "KEY_KPENTER" ∷ "KEY_KPDOT"
    ∷ "KEY_KPEQUAL" ∷ "KEY_KPCOMMA" ∷ "KEY_KPLEFTPAREN" ∷ "KEY_KPRIGHTPAREN" ∷ "KEY_POWER"
    ∷ "KEY_SLEEP" ∷ "KEY_SCREENLOCK" ∷ "KEY_SYSRQ" ∷ "KEY_PAUSE" ∷ "KEY_PRINT" ∷ "KEY_MENU"
    ∷ "KEY_MUTE" ∷ "KEY_VOLUMEDOWN" ∷ "KEY_VOLUMEUP" ∷ "KEY_EJECTCD" ∷ "KEY_NEXTSONG"
    ∷ "KEY_PLAYPAUSE" ∷ "KEY_PREVIOUSSONG" ∷ "KEY_STOPCD" ∷ "KEY_WWW" ∷ "KEY_BACK" ∷ "KEY_FORWARD"
    ∷ "KEY_REFRESH" ∷ "KEY_SCROLLUP" ∷ "KEY_SCROLLDOWN" ∷ "KEY_ZENKAKUHANKAKU" ∷ "KEY_RO"
    ∷ "KEY_KATAKANA" ∷ "KEY_HIRAGANA" ∷ "KEY_HENKAN" ∷ "KEY_KATAKANAHIRAGANA" ∷ "KEY_MUHENKAN"
    ∷ "KEY_KPJPCOMMA" ∷ "KEY_HANGUEL" ∷ "KEY_HANJA" ∷ "KEY_YEN" ∷ "KEY_102ND" ∷ "KEY_STOP"
    ∷ "KEY_AGAIN" ∷ "KEY_PROPS" ∷ "KEY_UNDO" ∷ "KEY_FRONT" ∷ "KEY_COPY" ∷ "KEY_OPEN" ∷ "KEY_PASTE"
    ∷ "KEY_FIND" ∷ "KEY_CUT" ∷ "KEY_HELP" ∷ "KEY_CALC" ∷ "KEY_EDIT" ∷ "KEY_UNKNOWN" ∷ []

abbrev pub consumer_keys : List String
consumer_keys =
    "KEY_PLAY" ∷ "KEY_PAUSE" ∷ "KEY_PLAYPAUSE" ∷ "KEY_STOP" ∷ "KEY_STOPCD" ∷ "KEY_RECORD"
    ∷ "KEY_NEXTSONG" ∷ "KEY_PREVIOUSSONG" ∷ "KEY_FASTFORWARD" ∷ "KEY_REWIND" ∷ "KEY_VOLUMEUP"
    ∷ "KEY_VOLUMEDOWN" ∷ "KEY_MUTE" ∷ "KEY_WWW" ∷ "KEY_BACK" ∷ "KEY_FORWARD" ∷ "KEY_REFRESH"
    ∷ "KEY_STOP" ∷ "KEY_SEARCH" ∷ "KEY_FAVORITES" ∷ "KEY_HOMEPAGE" ∷ "KEY_MAIL" ∷ "KEY_EMAIL"
    ∷ "KEY_CALC" ∷ "KEY_COMPUTER" ∷ "KEY_MEDIA" ∷ "KEY_CHAT" ∷ "KEY_PHONE" ∷ "KEY_POWER"
    ∷ "KEY_SLEEP" ∷ "KEY_WAKEUP" ∷ "KEY_PROG1" ∷ "KEY_PROG2" ∷ "KEY_PROG3" ∷ "KEY_PROG4"
    ∷ "KEY_CAMERA" ∷ "KEY_VIDEO" ∷ "KEY_AUDIO" ∷ "KEY_CD" ∷ "KEY_TUNER" ∷ "KEY_MP3" ∷ "KEY_DVD"
    ∷ "KEY_RADIO" ∷ "KEY_TV" ∷ "KEY_VCR" ∷ []
