-- ===== src/Gatt/Backend.antt =====
-- `DeviceBackendGATT` and `DispatcherGATT`: the connection to the bus, attach and detach, and the
-- reads and writes of source/aelkey_gatt.cc.
use aelkey.Base.{
  String, Bool, true, false, not, ◌||◌, List, [], ◌∷◌, Option, none, some, find, insert, erase,
  is_empty, is_negative, minus_one, if◌then◌else◌, string_key, ◌==◌, ◌<>◌,
}
use aelkey.Lua.{Table, get, get_int, get_str, as_bool, or_else}
use aelkey.Dispatcher.{Epoll, register_fd}
use aelkey.Device.Decl.{InputDecl}
use aelkey.Device.Helpers.{Match}
use aelkey.Device.App.{App}
use aelkey.Gatt.Bus.{Bus, GattState}
use aelkey.Gatt.Paths.{
  GattPathType, characteristic_path, classify_gatt_path, derive_device_path_from_char_path,
  resolve_char_path,
}
use aelkey.Gatt.Tree.{
  resolve_gatt_paths, get_characteristic_uuid, get_characteristic_flags, has_string, inspect_line,
}

abbrev pub is_characteristic : GattPathType → Bool
is_characteristic characteristic_path = true
is_characteristic _ = false

module _ {W : Type 0} (epoll : Epoll W) (bus : Bus W) where
  -- `DispatcherGATT::lazy_init`, with its `on_init`.
  unfoldable pub init_dispatcher : GattState W → GattState W × Bool
  init_dispatcher d =
      let (w, b) = register_fd epoll d.world d.base d.fd 1 in
      if d.dispatcher_initialized
      then (d, true)
      else if is_negative d.fd
      then (d, false)
      else (record d { world = w; base = b; dispatcher_initialized = true }, true)

  unfoldable pub on_init : GattState W → GattState W × Bool
  unfolding init_dispatcher
  on_init d =
      let (w, conn) = bus.get d.world in
      let (w1, found) = bus.unix_fd w in
      if d.conn
      then (d, true)
      else if not conn
      then (record d { world = w }, false)
      else elim found [
        | none ↦ (record d { world = w1; fd = minus_one; conn = false }, false)
        | some fd ↦ init_dispatcher (record d { world = w1; fd = fd; conn = true })
      ]

  -- `Singleton::lazy_init`. The dispatcher's `on_init` calls it once more, with the connection
  -- there, which changes nothing.
  unfoldable pub lazy_init : GattState W → GattState W
  unfolding on_init
  lazy_init d =
      let (d1, ok) = on_init d in if d.initialized then d else record d1 { initialized = ok }

  abbrev connect : App (GattState W) → App (GattState W)
  connect app = record app { devices = lazy_init app.devices }

  abbrev in_world : GattState W → W → GattState W
  in_world d w = record d { world = w }

  -- The rule for the signals of a characteristic.
  unfoldable pub match_rule : String → String
  match_rule path =
      "type='signal',interface='org.freedesktop.DBus.Properties',member='PropertiesChanged',path='"
      <> path <> "'"

  unfoldable pub characteristic_supports_notify : W → String → W × Bool
  unfolding has_string
  characteristic_supports_notify w path =
      let (w1, flags) = bus.flags w path in
      (w1, elim flags [ none ↦ false | some ss ↦ has_string "notify" ss ])

  -- The calls that `print_characteristic_inspect_line` makes, and its line.
  unfoldable pub inspect : W → String → W × String
  unfolding inspect_line get_characteristic_uuid get_characteristic_flags
  inspect w path =
      let (w1, os) = bus.objects w in
      let (w2, os') = bus.objects w1 in
      (w2, inspect_line path (get_characteristic_uuid path os) (get_characteristic_flags path os'))

  -- The loop over the characteristics that were found.
  unfoldable pub subscribe_all : W → List String → W
  unfolding inspect characteristic_supports_notify match_rule
  subscribe_all w [] = w
  subscribe_all w (ch ∷ chs) =
      let (w1, line) = inspect w ch in
      let (w2, supports) = characteristic_supports_notify w1 ch in
      subscribe_all
        (if supports then bus.start_notify (bus.add_match w2 (match_rule ch)) ch else w2) chs

  unfoldable pub subscribe_one : W → String → W
  unfolding inspect match_rule
  subscribe_one w ch =
      let (w1, line) = inspect w ch in
      bus.start_notify (bus.flush (bus.add_match w1 (match_rule ch))) ch

  module _ (regex : String → Option (String → Match)) where
    unfoldable pub gatt_match : App (GattState W) → InputDecl → App (GattState W) × Option String
    unfolding lazy_init resolve_gatt_paths
    gatt_match app decl =
        let app1 = connect app in
        let (w, os) = bus.objects app1.devices.world in
        let path = (resolve_gatt_paths regex decl false os).0 in
        let app2 = record app1 { devices = in_world app1.devices w } in
        if not app1.devices.conn
        then (app1, none)
        else if not (decl.type == "gatt")
        then (app1, none)
        else if is_empty path
        then (app2, none)
        else (app2, some path)

    unfoldable pub subscribe : W → InputDecl → String → W
    unfolding subscribe_all subscribe_one resolve_gatt_paths classify_gatt_path
    subscribe w decl devnode =
        let (w1, os) = bus.objects w in
        if is_characteristic (classify_gatt_path devnode)
        then subscribe_one w devnode
        else bus.flush (subscribe_all w1 (resolve_gatt_paths regex decl true os).1)

    unfoldable pub gatt_attach :
        App (GattState W) → String → InputDecl → App (GattState W) × InputDecl × Bool
    unfolding lazy_init subscribe classify_gatt_path derive_device_path_from_char_path
    gatt_attach app devnode decl =
        let app1 = connect app in
        let d = app1.devices in
        let gatt_path =
          if is_characteristic (classify_gatt_path devnode)
          then derive_device_path_from_char_path devnode
          else devnode in
        if not d.conn || is_empty devnode then (app1, decl, false) else (
          record app1 {
            devices = record d {
              world = subscribe d.world decl devnode;
              gatt_paths = insert decl.id gatt_path d.gatt_paths;
            };
          },
          record decl { devnode = devnode },
          true,
        )

  unfoldable pub gatt_detach : App (GattState W) → String → App (GattState W) × Bool
  unfolding lazy_init
  gatt_detach app id =
      let app1 = connect app in
      let d = app1.devices in
      if not d.conn then (app1, false) else elim (find id app1.input_map) [
        | none ↦ (app1, false)
        | some decl ↦ (
          record app1 {
            devices = record d {
              world =
                  if is_empty decl.devnode then d.world else bus.stop_notify d.world decl.devnode;
              gatt_paths = erase id d.gatt_paths;
            };
          },
          true,
        )
      ]

  unfoldable pub read_characteristic : GattState W → String → GattState W × Option String
  unfolding lazy_init
  read_characteristic d char_path =
      let d1 = lazy_init d in
      let (w, bytes) = bus.read_value d1.world char_path in
      if not d1.conn then (d1, none) else (record d1 { world = w }, bytes)

  unfoldable pub write_characteristic : GattState W → String → String → Bool → GattState W × Bool
  unfolding lazy_init
  write_characteristic d char_path bytes with_resp =
      let d1 = lazy_init d in
      let (w, ok) = bus.write_value d1.world char_path bytes with_resp in
      if not d1.conn then (d1, false) else (record d1 { world = w }, ok)

  -- The path that the options of a read or a write name.
  abbrev path_of : GattState W → Table → String
  path_of d opts =
      resolve_char_path d.gatt_paths (get_str opts "device" "") (get_int opts "service" minus_one)
        (get_int opts "characteristic" minus_one)

  -- None where the program throws.
  unfoldable pub gatt_read : GattState W → Table → GattState W × Option String
  unfolding read_characteristic resolve_char_path
  gatt_read d opts = read_characteristic d (path_of d opts)

  unfoldable pub gatt_write : GattState W → Table → GattState W × Bool
  unfolding write_characteristic resolve_char_path
  gatt_write d opts =
      write_characteristic d (path_of d opts) (get_str opts "data" "")
        (or_else (as_bool (get opts "response")) false)
