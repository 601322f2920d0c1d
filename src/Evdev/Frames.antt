-- ===== src/Evdev/Frames.antt =====
-- `dispatch_evdev_logic` and `handle_event`: events are collected into frames, and a frame goes to
-- the script when its SYN_REPORT arrives.
use aelkey.Base.{
  u32, pos, negsuc, ltb, ◌-◌, ℕ, ℤ, eqb, String, Bool, not, ◌&&◌, List, [], ◌∷◌, ◌++◌, Option, none,
  some, find, insert, if◌then◌else◌, string_key, int_key, is_empty,
}
use aelkey.Lua.{Table, table, str, int, empty, field, item, or_else}
use aelkey.Device.Decl.{InputDecl}
use aelkey.Device.App.{App, AppLua, InputEvent}
use aelkey.Device.Manager.{Backends}
use aelkey.Device.Hotplug.{hang_up}

-- libevdev's names of types and codes, "" for none.
pub record Names : Type 0 where
  pub type_name : ℕ → String
  pub code_name : ℕ → ℕ → String

-- EV_SYN with SYN_REPORT, both 0
abbrev pub is_report : InputEvent → Bool
is_report ev = eqb ev.type 0 && eqb ev.code 0

-- `static_cast<int>` of the seconds and the microseconds.
abbrev s32 : ℤ → ℤ
s32 z = let w = u32 z in if ltb w 2147483648 then pos w else negsuc (4294967295 - w)

module _ (names : Names) where
  abbrev pub event_table : InputDecl → InputEvent → Table
  event_table decl e = field "device" (str decl.id) (
      field "type" (str (names.type_name e.type)) (
        field "code" (str (names.code_name e.type e.code)) (
          field "value" (int e.value)
            (field "sec" (int (s32 e.sec)) (field "usec" (int (s32 e.usec)) empty)))))

  unfoldable pub frame_table : InputDecl → List InputEvent → Table
  frame_table decl [] = empty
  frame_table decl (e ∷ es) = item (table (event_table decl e)) (frame_table decl es)

module _ {D : Type 0} (lua : AppLua D) (names : Names) where
  -- The call of the script with a whole frame.
  unfoldable pub deliver : InputDecl → List InputEvent → App D → App D
  unfolding frame_table
  deliver decl frame app =
      if is_empty decl.on_event
      then app
      else if lua.is_function app decl.on_event
      then lua.call decl.on_event (frame_table names decl frame) app
      else app

  abbrev pub set_frame : String → List InputEvent → App D → App D
  set_frame id frame app = record app { frames = insert id frame app.frames }

  -- One turn of the loop, for an event that was read. The frame is a reference into `frames`; it
  -- would dangle after a script that closes the device, where this model makes the entry again.
  unfoldable pub take_event : InputDecl → InputEvent → App D → App D
  unfolding deliver
  take_event decl ev app =
      let frame = or_else (find decl.id app.frames) [] ++ ev ∷ [] in
      let app1 = set_frame decl.id frame app in
      if is_report ev then set_frame decl.id [] (deliver decl frame app1) else app1

  -- The events are those that libevdev_next_event returns before it returns anything else.
  unfoldable pub take_events : InputDecl → List InputEvent → App D → App D
  unfolding take_event
  take_events decl [] app = app
  take_events decl (ev ∷ evs) app = take_events decl evs (take_event decl ev app)

  -- `has_idev` is whether the device has a libevdev handle.
  unfoldable pub dispatch_evdev_logic :
      (App D → InputDecl → Bool) → InputDecl → List InputEvent → App D → App D
  unfolding take_events
  dispatch_evdev_logic has_idev decl evs app =
      if not (has_idev app decl)
      then app
      else elim (find decl.id app.frames) [ none ↦ app | some frame ↦ take_events decl evs app ]

  -- `id_of` is a lookup in `devices_`; `hangup` is EPOLLHUP or EPOLLERR.
  module _ (backends : Backends D) (id_of : App D → ℤ → Option String)
      (has_idev : App D → InputDecl → Bool) where
    -- None where the hang-up reads the identifier that it has erased.
    unfoldable pub handle_event :
        ℤ → (hangup epollin : Bool) → List InputEvent → App D → Option (App D)
    unfolding dispatch_evdev_logic hang_up
    handle_event fd hangup epollin evs app = elim (id_of app fd) [
      | none ↦ some app
      | some id ↦ elim (find id app.input_map) [
        | none ↦ some app
        | some decl ↦
            if hangup
            then hang_up lua backends decl.id app
            else if not epollin
            then some app
            else some (dispatch_evdev_logic has_idev decl evs app)
      ]
    ]
