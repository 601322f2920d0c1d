-- ===== src/Usb/Defs.antt =====
-- `DeviceBackendLibUSB` and `DispatcherLibUSB`. A pointer to a device handle is a number.
use aelkey.Base.{
  ℕ, ℤ, pos, u16, ◌+◌, ◌/◌, ◌%◌, String, Bool, true, false, not, Option, none, some, Map, find,
  insert, erase, is_negative, is_zero, is_some, eqb, eqb_ℤ, if◌then◌else◌, int_key, string_key,
  ◌==◌,
}
use aelkey.Dispatcher.{Epoll, DispatcherBase, register_fd, unregister_fd, get_payload}
use aelkey.Device.Decl.{InputDecl}
use aelkey.Device.App.{App}
use aelkey.Device.Manager.{Backend}

-- A `libusb_transfer` of the program. `owner` is the key of the entry of `input_map` that
-- `user_data` points to.
pub record Transfer : Type 0 where
  pub handle : ℕ
  pub endpoint : ℕ
  pub type : ℕ
  pub timeout : ℕ
  pub length : ℤ
  pub owner : String

-- `has_context` is `libusb_ != nullptr`; `transfers` are those that are allocated.
pub record UsbState (W : Type 0) : Type 0 where
  pub world : W
  pub base : DispatcherBase
  pub has_context : Bool
  pub devices : Map String ℕ
  pub transfers : Map ℕ Transfer

-- What a synchronous transfer returns: its status, the number of bytes transferred, and the buffer
-- as it is after the call.
pub record Reply : Type 0 where
  pub status : ℤ
  pub transferred : ℕ
  pub buffer : String

-- libusb. `init` is the code of libusb_init, `alloc` is libusb_alloc_transfer, `malloc` says
-- whether the buffer could be had, `free` gives buffer and transfer back, `descriptor` is the code
-- of libusb_get_device_descriptor. A transfer to the host is asked with an empty buffer.
pub record LibUsb (W : Type 0) : Type 0 where
  pub init : W → W × ℤ
  pub open_device : W → ℕ → ℕ → W × Option ℕ
  pub close : W → ℕ → W
  pub kernel_driver_active : W → ℕ → ℤ → W × ℤ
  pub detach_kernel_driver : W → ℕ → ℤ → W × ℤ
  pub claim_interface : W → ℕ → ℤ → W × ℤ
  pub release_interface : W → ℕ → ℤ → W
  pub bulk : W → ℕ → ℕ → String → ℤ → ℕ → W × Reply
  pub interrupt : W → ℕ → ℕ → String → ℤ → ℕ → W × Reply
  pub control : W → ℕ → ℕ × ℕ × ℕ × ℕ → String → ℕ → ℕ → W × ℤ × String
  pub alloc : W → W × Option ℕ
  pub malloc : W → ℤ → W × Bool
  pub free : W → ℕ → W
  pub submit : W → ℕ → Transfer → W × ℤ
  pub cancel : W → ℕ → W
  pub descriptor : W → ℕ → W × ℤ
  pub error_name : ℤ → String

module _ {W : Type 0} where
  unfoldable pub set_world : App (UsbState W) → W → App (UsbState W)
  set_world app w = record app { devices = record app.devices { world = w } }

  unfoldable pub usb_match : App (UsbState W) → InputDecl → App (UsbState W) × Option String
  usb_match app decl = (app, if not (decl.type == "libusb") then none else some decl.id)

  unfoldable pub get_handle : UsbState W → String → Option ℕ
  get_handle d id = find id d.devices

module _ {W : Type 0} (usb : LibUsb W) where
  -- The interface that is claimed: a negative one stands for 0.
  abbrev pub claimed : ℤ → ℤ
  claimed iface = if is_negative iface then pos 0 else iface

  unfoldable pub claim_interface : W → ℕ → ℤ → W × ℤ
  claim_interface w devh number =
      let iface = claimed number in
      let (w1, active) = usb.kernel_driver_active w devh iface in
      let (w2, d) =
        if eqb_ℤ active (pos 1) then usb.detach_kernel_driver w1 devh iface else (w1, pos 0) in
      if not (is_zero d) then (w2, d) else usb.claim_interface w2 devh iface

  unfoldable pub usb_attach :
      App (UsbState W) → String → InputDecl → App (UsbState W) × InputDecl × Bool
  unfolding claim_interface set_world
  usb_attach app devnode decl =
      let (w, opened) = usb.open_device app.devices.world (u16 decl.vendor) (u16 decl.product) in
      elim opened [
        | none ↦ (set_world app w, decl, false)
        | some handle ↦
            let (w1, rc) = claim_interface w handle decl.interface in
            if not (is_zero rc) then (set_world app (usb.close w1 handle), decl, false) else (
              record app {
                devices = record app.devices {
                  world = w1;
                  devices = insert decl.id handle app.devices.devices;
                };
              },
              decl,
              true,
            )
      ]

  unfoldable pub usb_detach : App (UsbState W) → String → App (UsbState W) × Bool
  usb_detach app id = elim (find id app.devices.devices) [
    | none ↦ (app, false)
    | some handle ↦
        let w = usb.close (usb.release_interface app.devices.world handle (pos 0)) handle in
        (
          record app {
            devices = record app.devices { world = w; devices = erase id app.devices.devices };
          },
          true,
        )
  ]

  abbrev pub usb_backend : Backend (UsbState W)
  usb_backend = record { match = usb_match; attach = usb_attach; detach = usb_detach }

  -- `on_init` of the backend.
  unfoldable pub init_backend : UsbState W → UsbState W × Bool
  init_backend d =
      let (w, rc) = usb.init d.world in
      if d.has_context
      then (d, true)
      else if is_zero rc
      then (record d { world = w; has_context = true }, true)
      else (record d { world = w }, false)

-- POLLIN and POLLOUT of `events`, as EPOLLIN and EPOLLOUT.
unfoldable pub evmask : ℕ → ℕ
evmask events = (if eqb (events % 2) 1 then 1 else 0) + (if eqb ((events / 4) % 2) 1 then 4 else 0)

module _ {W : Type 0} (epoll : Epoll W) where
  unfoldable pub on_add_fd : UsbState W → ℤ → ℕ → UsbState W
  unfolding evmask
  on_add_fd d fd events =
      if is_some (get_payload d.base fd)
      then d
      else let (w, b) = register_fd epoll d.world d.base fd (evmask events) in
        record d { world = w; base = b }

  unfoldable pub on_remove_fd : UsbState W → ℤ → UsbState W
  on_remove_fd d fd =
      let (w, b) = unregister_fd epoll d.world d.base fd in
      if is_some (get_payload d.base fd) then record d { world = w; base = b } else d
