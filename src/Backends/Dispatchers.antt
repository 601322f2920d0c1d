-- ===== src/Backends/Dispatchers.antt =====
-- The dispatchers that the constructor of `DeviceManager` registers, and what their `on_init` does.
use aelkey.Base.{
  String, Bool, true, [], All, All-insert, All-find, some, if◌then◌else◌, string_key, ◌≡◌, refl,
}
use aelkey.Dispatcher.{Epoll}
use aelkey.Device.App.{App}
use aelkey.Device.Udev.{UdevState, Libudev}
use aelkey.Usb.Defs.{UsbState, LibUsb}
use aelkey.Usb.Events.{UsbEvents}
use aelkey.Gatt.Bus.{GattState, Bus}
use aelkey.Gatt.Backend.{init_dispatcher}
use aelkey.Backends.Registry.{
  Singleton, lazy_init, Registry, register_self, get_dispatcher_for_type,
}
use aelkey.Backends.Table.{Part}

-- The dispatchers with an `on_init` of their own, and what they call.
pub record Dispatchers (D W : Type 0) : Type 0 where
  pub gatt : Part D (GattState W)
  pub libusb : Part D (Singleton (UsbState W))
  pub udev : Part D (Singleton (UdevState W))
  pub epoll : Epoll W
  pub bus : Bus W
  pub lib : LibUsb W
  pub poll : UsbEvents W
  pub libudev : Libudev W

-- `lazy_init` on a part of the program's state.
abbrev pub starts : {D S : Type 0} → Part D S → (S → S × Bool) → App D → App D × Bool
starts part init app =
    let (s, ok) = init (part.of app.devices) in
    (record app { devices = part.put app.devices s }, ok)

-- The `on_init` of `Singleton`, whose flag nothing else reads.
abbrev always : {D : Type 0} → App D → App D × Bool
always app = (app, true)

module _ {D W : Type 0} (d : Dispatchers D W) where
  -- The dispatcher asks the backend, which starts first, for its descriptor.
  unfoldable pub start_gatt : GattState W → GattState W × Bool
  unfolding init_dispatcher aelkey.Gatt.Backend.lazy_init
  start_gatt s =
      if s.dispatcher_initialized
      then (s, true)
      else init_dispatcher d.epoll d.bus (aelkey.Gatt.Backend.lazy_init d.epoll d.bus s)

  unfoldable pub dispatchers : Registry (App D)
  unfolding register_self lazy_init start_gatt aelkey.Usb.Events.on_init aelkey.Device.Udev.on_init
  dispatchers = register_self "tick" always (
      register_self "udev"
        (starts d.udev (lazy_init (aelkey.Device.Udev.on_init d.epoll d.libudev)))
        (register_self "libusb"
          (starts d.libusb (lazy_init (aelkey.Usb.Events.on_init d.lib d.poll)))
          (register_self "hidraw" always (
            register_self "haptics" always (
              register_self "gatt" (starts d.gatt start_gatt) (register_self "evdev" always []))))))

  abbrev KeepsDevices : String × (App D → App D × Bool) → Type 0
  KeepsDevices p = (app : App D) → (p.1 app).0.input_map ≡ app.input_map

  dispatchers-KeepsDevices : All KeepsDevices dispatchers
  unfolding dispatchers register_self
  dispatchers-KeepsDevices =
      All-insert KeepsDevices "tick" _ _ (λ app. refl)
        (All-insert KeepsDevices "udev" _ _ (λ app. refl)
          (All-insert KeepsDevices "libusb" _ _ (λ app. refl)
            (All-insert KeepsDevices "hidraw" _ _ (λ app. refl)
              (All-insert KeepsDevices "haptics" _ _ (λ app. refl)
                (All-insert KeepsDevices "gatt" _ _ (λ app. refl)
                  (All-insert KeepsDevices "evdev" _ [] (λ app. refl) tt))))))

  -- Starting a dispatcher attaches and detaches nothing.
  pub dispatchers-keep :
      (type : String) (init : App D → App D × Bool)
      → get_dispatcher_for_type dispatchers type ≡ some init
      → (app : App D) → (init app).0.input_map ≡ app.input_map
  unfolding get_dispatcher_for_type
  dispatchers-keep type init e = All-find KeepsDevices type dispatchers e dispatchers-KeepsDevices
