-- ===== src/Usb/Events.antt =====
-- `on_init` and `handle_event` of `DispatcherLibUSB`: libusb calls the program back for each
-- transfer that has ended.
use aelkey.Base.{
  ℕ, Bool, true, false, not, List, [], ◌∷◌, Option, none, some, find, if◌then◌else◌, string_key,
  nat_key, ◌≡◌, arith,
}
use aelkey.Device.App.{App, AppLua}
use aelkey.Device.Manager.{Backends}
use aelkey.Usb.Defs.{UsbState, LibUsb, init_backend}
use aelkey.Usb.Async.{Completion, dispatch_libusb}

-- `events` is libusb_handle_events_timeout_completed: the transfers that have ended, in order.
pub record UsbEvents (W : Type 0) : Type 0 where
  pub set_notifiers : W → W
  pub events : W → W × List (ℕ × Completion)

module _ {W : Type 0} (usb : LibUsb W) (poll : UsbEvents W) where
  -- The backend is initialised first, if it is not.
  unfoldable pub on_init : UsbState W → UsbState W × Bool
  unfolding init_backend
  on_init d =
      let (d1, ok) = init_backend usb d in
      if not ok
      then (d1, false)
      else if not d1.has_context
      then (d1, false)
      else (record d1 { world = poll.set_notifiers d1.world }, true)

  module _ (lua : AppLua (UsbState W)) (backends : Backends (UsbState W)) where
    -- None where one of the calls reads what is gone, or a transfer that was freed ends.
    unfoldable pub dispatch_all :
        List (ℕ × Completion) → App (UsbState W) → Option (App (UsbState W))
    unfolding dispatch_libusb
    dispatch_all [] app = some app
    dispatch_all ((x, c) ∷ ended) app = elim (find x app.devices.transfers) [
      | none ↦ none
      | some t ↦ elim (dispatch_libusb usb lua backends app x t c) [
        | none ↦ none
        | some app1 ↦ dispatch_all ended app1
      ]
    ]

    unfoldable pub handle_event : App (UsbState W) → Option (App (UsbState W))
    unfolding dispatch_all
    handle_event app =
        let (w, ended) = poll.events app.devices.world in
        dispatch_all ended (record app { devices = record app.devices { world = w } })

  -- After `on_init` has succeeded there is a context.
  has_context-on_init : (d : UsbState W) → (on_init d).1 ≡ true → (on_init d).0.has_context ≡ true
  unfolding on_init
  has_context-on_init d h = ground arith
