-- ===== src/Device/Tests.antt =====
-- Runs of the device layer. The only backend finds every device at one node and always succeeds.
use aelkey.Base.{
  List, inl, ℕ, pos, String, true, false, ◌&&◌, not, is_some, contains, [], ◌∷◌, Option, none, some,
  find, string_key, ◌==◌, if◌then◌else◌, ◌≡◌, refl, ap, All, ltb,
}
use aelkey.Lua.{Value, Table, str, table, empty, field, item, items, or_else}
use aelkey.Device.Decl.{InputDecl, default_input}
use aelkey.Device.Helpers.{Match}
use aelkey.Device.App.{App, AppLua}
use aelkey.Device.Parser.{EventNames, parse_input}
use aelkey.Device.Manager.{Backend, Backends, attach, detach}
use aelkey.Device.Hotplug.{UdevDevice, node_for, detach_removed, handle_udev_remove}
use aelkey.Device.Entry.{device_open, device_get_info}
use aelkey.Device.Daemon.{daemon_watch, count}
use aelkey.Device.Attach.{IsLawful, find-attach, find-detach}
use aelkey.Device.Removal.{is_for, handle_udev_remove_first, handle_udev_remove_stale}
use aelkey.Device.Keyed.{IsKeyed}
use aelkey.Device.History.{start, Reach, here, next, opened, removed, Reach-IsKeyed}
use aelkey.Device.Watch.{Selects, daemon_watch_lem}
use aelkey.Device.Parsing.{IsCode, parse_input-IsCode, parse_input-device_get_info}

abbrev backend : Backend ℕ
backend = record {
  match = λ app decl. (app, some "/dev/input/event3");
  attach = λ app node decl. (app, record decl { fd = pos 3 }, true);
  detach = λ app id. (app, true);
}

abbrev backends : Backends ℕ
backends = record { for_type = λ type. some backend; init_dispatcher = λ app type. app }

same_backend : (b : Backend ℕ) → some backend ≡ some b → backend ≡ b
same_backend b e = ap (λ (o : Option (Backend ℕ)). or_else o backend) e

lawful : IsLawful backends
lawful = record {
  match_map = λ type b app decl e. rw (← same_backend b e) refl;
  attach_map = λ type b app node decl e. rw (← same_backend b e) refl;
  attach_id = λ type b app node decl e. rw (← same_backend b e) refl;
  detach_map = λ type b app id e. inl (rw (← same_backend b e) refl);
  init_map = λ app type. refl;
}

abbrev keyboard : InputDecl
keyboard = record default_input { id = "keyboard"; type = "evdev"; devnode = "/dev/input/event3" }

abbrev mouse : InputDecl
mouse = record default_input { id = "mouse"; type = "evdev"; devnode = "/dev/input/event3" }

abbrev keyboard_table : Table
keyboard_table = field "id" (str "keyboard") (field "type" (str "evdev") empty)

abbrev lua : AppLua ℕ
lua = record {
  is_function = λ app name. false;
  call = λ name t app. app;
  inputs = λ app. keyboard_table ∷ [];
  outputs = λ app. [];
}

abbrev names : EventNames
names = record { type_from_name = λ s. pos 1; code_from_name = λ t s. pos 30 }

abbrev no_outputs : App ℕ → App ℕ
no_outputs app = app

-- The mouse is attached at the node that the keyboard's declaration still names.
abbrev replugged : App ℕ
replugged = record (start 0) {
  input_map = ("mouse", mouse) ∷ [];
  input_decls = keyboard ∷ mouse ∷ [];
}

abbrev unplugged : UdevDevice
unplugged = record { subsystem = some "input"; devnode = some "/dev/input/event3"; syspath = none }

history : Reach lua backends names no_outputs 0 (
    handle_udev_remove lua backends unplugged
      (device_open lua backends names no_outputs (start 0) none).0)
history = next (next here (opened none)) (removed unplugged)

Reach-IsKeyed_example : IsKeyed (
    handle_udev_remove lua backends unplugged
      (device_open lua backends names no_outputs (start 0) none).0)
Reach-IsKeyed_example =
    Reach-IsKeyed lua backends names no_outputs lawful (λ name t app k. k) (λ app. refl) history

find-attach_example :
    let (app1, decl1, ok) = attach backends replugged "/dev/input/event3" keyboard in
    (find "keyboard" app1.input_map
      ≡ (if ok then some decl1 else find "keyboard" replugged.input_map))
    × (decl1.id ≡ "keyboard")
    × ((ok && contains "keyboard" replugged.input_map) ≡ false)
unfolding attach contains find
find-attach_example = find-attach backends lawful replugged "/dev/input/event3" keyboard "keyboard"

find-detach_example :
    let (app1, gone) = detach backends replugged "mouse" in
    (find "mouse" app1.input_map
      ≡ (if is_some gone then none else find "mouse" replugged.input_map))
    × ((is_some gone && not (contains "mouse" replugged.input_map)) ≡ false)
unfolding detach contains find
find-detach_example = find-detach backends lawful replugged "mouse" "mouse"

is_for-keyboard : is_for unplugged "input" keyboard ≡ true
unfolding node_for
is_for-keyboard = refl

not_attached : find "keyboard" replugged.input_map ≡ none
unfolding find
not_attached = refl

handle_udev_remove_first_example :
    handle_udev_remove lua backends unplugged replugged
    ≡ detach_removed lua backends "keyboard" replugged
handle_udev_remove_first_example =
    handle_udev_remove_first lua backends unplugged "input" [] (mouse ∷ []) keyboard replugged refl
      refl refl tt is_for-keyboard

handle_udev_remove_stale_example : handle_udev_remove lua backends unplugged replugged ≡ replugged
handle_udev_remove_stale_example =
    handle_udev_remove_stale lua backends unplugged "input" [] (mouse ∷ []) keyboard replugged refl
      refl refl tt is_for-keyboard not_attached

abbrev idle : App ℕ
idle = start 0

abbrev watch_table : Table
watch_table = item (table keyboard_table) empty

abbrev desk : String
desk = "desk"

daemon_watch_lem_example :
    let (app1, n) = daemon_watch names idle desk watch_table in
    (valid : List InputDecl) × Selects names (items watch_table) valid
    × (n ≡ count valid)
    × (find desk app1.watch_map
        ≡ (if ltb 0 n && (desk == desk) then some valid else find desk idle.watch_map))
daemon_watch_lem_example = daemon_watch_lem names idle desk desk watch_table

parse_input-IsCode_example : All IsCode (parse_input names keyboard_table).capabilities
parse_input-IsCode_example = parse_input-IsCode names keyboard_table

abbrev mouse_info : Table
mouse_info = elim (device_get_info lua backends names no_outputs replugged "mouse") [
  | Value.table t ↦ t
  | _ ↦ empty
]

mouse_found : find "mouse" replugged.input_map ≡ some mouse
unfolding find
mouse_found = refl

mouse_informed : device_get_info lua backends names no_outputs replugged "mouse" ≡ table mouse_info
unfolding device_get_info find
mouse_informed = refl

parse_input-device_get_info_example :
    parse_input names mouse_info ≡ (record default_input { id = "mouse"; type = "evdev" })
parse_input-device_get_info_example =
    parse_input-device_get_info names lua backends no_outputs replugged "mouse" mouse mouse_info
      mouse_found mouse_informed

-- A library of patterns in which none is valid.
abbrev no_patterns : String → Option (String → Match)
no_patterns s = none
