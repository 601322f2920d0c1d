-- ===== src/Backends/Program.antt =====
-- The table of backends with the program's own four backends and its dispatchers in it.
use aelkey.Base.{ℤ, String, List, Option, ◌≡◌, arith, if◌then◌else◌, ◌==◌, string_key}
use aelkey.Device.Decl.{InputDecl}
use aelkey.Device.App.{App}
use aelkey.Device.Helpers.{Match}
use aelkey.Device.Manager.{Backends}
use aelkey.Device.Attach.{IsLawful}
use aelkey.Evdev.Defs.{DispatcherEvdev, Libevdev}
use aelkey.Evdev.Match.{UdevNode, evdev_match}
use aelkey.Evdev.Lawful.{evdev_backend, evdev_backend-KeepsTable}
use aelkey.Hidraw.Defs.{HidrawState, Files}
use aelkey.Hidraw.Match.{HidrawNode, hidraw_match}
use aelkey.Hidraw.Lawful.{hidraw_backend, hidraw_backend-KeepsTable}
use aelkey.Usb.Defs.{UsbState, usb_backend}
use aelkey.Usb.Lawful.{usb_backend-KeepsTable}
use aelkey.Gatt.Lawful.{gatt_backend, gatt_backend-KeepsTable}
use aelkey.Backends.Table.{Part, widened, widened-KeepsTable, all_backends, all_backends-IsLawful}
use aelkey.Backends.Dispatchers.{Dispatchers, dispatchers, dispatchers-keep}

-- `input_nodes` and `hidraw_nodes` are the enumerations of libudev, with what libevdev and the
-- ioctls read of each device; `hex` is `std::stoi` to base 16. `register_sink` is the haptics
-- dispatcher's.
pub record Parts (D W : Type 0) : Type 0 where
  pub evdev : Part D (DispatcherEvdev W)
  pub hidraw : Part D (HidrawState W)
  pub usb : Part D (UsbState W)
  pub starting : Dispatchers D W
  pub libevdev : Libevdev W
  pub files : Files W
  pub regex : String → Option (String → Match)
  pub hex : String → ℤ
  pub input_nodes : W → W × List UdevNode
  pub hidraw_nodes : W → W × List HidrawNode
  pub register_sink : App (DispatcherEvdev W) → String → ℤ → App (DispatcherEvdev W)

module _ {D W : Type 0} (p : Parts D W) where
  unfoldable pub match_evdev :
      App (DispatcherEvdev W) → InputDecl → App (DispatcherEvdev W) × Option String
  unfolding evdev_match
  match_evdev app decl =
      let (w, nodes) = p.input_nodes app.devices.world in
      if decl.type == "evdev"
      then (
        record app { devices = record app.devices { world = w } },
        evdev_match p.regex decl nodes,
      )
      else (app, evdev_match p.regex decl nodes)

  unfoldable pub match_hidraw :
      App (HidrawState W) → InputDecl → App (HidrawState W) × Option String
  unfolding hidraw_match
  match_hidraw app decl =
      let (w, nodes) = p.hidraw_nodes app.devices.world in
      if decl.type == "hidraw"
      then (
        record app { devices = record app.devices { world = w } },
        hidraw_match p.regex p.hex decl nodes,
      )
      else (app, hidraw_match p.regex p.hex decl nodes)

  unfoldable pub program_backends : Backends D
  unfolding match_evdev match_hidraw dispatchers all_backends
  program_backends =
      let d = p.starting in
      all_backends (widened p.evdev (evdev_backend d.epoll p.libevdev p.register_sink match_evdev))
        (widened p.hidraw (hidraw_backend d.epoll p.files match_hidraw))
        (widened p.usb (usb_backend d.lib)) (widened d.gatt (gatt_backend d.epoll d.bus p.regex))
        (dispatchers d)

  input_map-match_evdev :
      (app : App (DispatcherEvdev W)) (decl : InputDecl)
      → (match_evdev app decl).0.input_map ≡ app.input_map
  unfolding match_evdev
  input_map-match_evdev app decl = ground arith

  input_map-match_hidraw :
      (app : App (HidrawState W)) (decl : InputDecl)
      → (match_hidraw app decl).0.input_map ≡ app.input_map
  unfolding match_hidraw
  input_map-match_hidraw app decl = ground arith

  -- The device manager can rely on its table of the program's four backends and its registry of
  -- dispatchers: matching a device, attaching one and starting a dispatcher leave the attached
  -- devices alone, attaching keeps the identifier, and detaching changes no entry but that of its
  -- device; where the registration of a haptics sink leaves the attached devices alone.
  pub program_backends-IsLawful :
      ((app : App (DispatcherEvdev W)) (id : String) (fd : ℤ)
        → (p.register_sink app id fd).input_map ≡ app.input_map)
      → IsLawful program_backends
  unfolding program_backends
  program_backends-IsLawful sink =
      let d = p.starting in
      let evdev = evdev_backend d.epoll p.libevdev p.register_sink match_evdev in
      let hidraw = hidraw_backend d.epoll p.files match_hidraw in
      let gatt = gatt_backend d.epoll d.bus p.regex in
      all_backends-IsLawful (widened p.evdev evdev) (widened p.hidraw hidraw)
        (widened p.usb (usb_backend d.lib)) (widened d.gatt gatt) (dispatchers d)
        (widened-KeepsTable p.evdev evdev (
          evdev_backend-KeepsTable d.epoll p.libevdev p.register_sink match_evdev sink
            input_map-match_evdev))
        (widened-KeepsTable p.hidraw hidraw
          (hidraw_backend-KeepsTable d.epoll p.files match_hidraw input_map-match_hidraw))
        (widened-KeepsTable p.usb (usb_backend d.lib) (usb_backend-KeepsTable d.lib))
        (widened-KeepsTable d.gatt gatt (gatt_backend-KeepsTable d.epoll d.bus p.regex))
        (dispatchers-keep d)
