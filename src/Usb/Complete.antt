-- ===== src/Usb/Complete.antt =====
-- What `dispatch_libusb` does when a transfer of an attached device ends, and of a detached one.
use aelkey.Base.{
  ℕ, String, none, some, find, is_empty, find-erase, ==_refl, string_key, nat_key, arith, ◌≡◌, refl,
  ap, ◌∙◌, Bool-cases, inl, inr,
}
use aelkey.Device.Decl.{InputDecl}
use aelkey.Device.App.{App, AppLua}
use aelkey.Device.Manager.{detach}
use aelkey.Device.Single.{single}
use aelkey.Usb.Defs.{UsbState, Transfer, LibUsb, usb_backend}
use aelkey.Usb.Async.{Completion, deliver, dispatch_libusb}
use aelkey.Usb.Outcome.{IsQuiet, outcome, detach_attached}
use aelkey.Usb.Settle.{Settles, Settles-from, settle-Settles}

module _ {W : Type 0} (usb : LibUsb W) (lua : AppLua (UsbState W)) (quiet : IsQuiet lua)
    (init : App (UsbState W) → String → App (UsbState W)) where
  delivered :
      (app : App (UsbState W)) (decl : InputDecl) (t : Transfer) (c : Completion)
      → let app1 = deliver usb lua (single (usb_backend usb) init) app decl t c in
        (app1.devices ≡ app.devices) × (app1.input_map ≡ app.input_map) × (app1.frames ≡ app.frames)
  unfolding deliver
  delivered app decl t c = elim (Bool-cases (is_empty decl.on_event)) [
    | inl e ↦ rw (e, deliver) (refl, refl, refl)
    | inr e ↦ elim (Bool-cases (lua.is_function app decl.on_event)) [
      | inl f ↦
          rw (e, f, deliver) (quiet.devices _ _ app, quiet.table _ _ app, quiet.frames _ _ app)
      | inr f ↦ rw (e, f, deliver) (refl, refl, refl)
    ]
  ]

  -- For a device that is attached under its own identifier and open, and scripts that touch
  -- neither the devices, their frames, nor the transfers, the completion of a transfer leaves what
  -- its status and the return codes of libusb say: a transfer that ended normally, timed out or
  -- overflowed stays allocated if libusb takes it again and is freed otherwise; one that was
  -- cancelled or failed is freed while the device answers; where the device is gone, it is detached,
  -- and the transfer stays allocated. No other transfer and no other device changes. But where the
  -- device is gone and there are frames, the program reads the identifier that it has erased.
  pub dispatch_libusb-Settles :
      (app : App (UsbState W)) (x : ℕ) (t : Transfer) (c : Completion) (decl : InputDecl)
      (handle : ℕ)
      → find t.owner app.input_map ≡ some decl
      → decl.id ≡ t.owner
      → find t.owner app.devices.devices ≡ some handle
      → Settles usb lua quiet init app
          (dispatch_libusb usb lua (single (usb_backend usb) init) app x t c)
          x
          t.owner
          (outcome usb app.devices x t handle c.status)
  unfolding dispatch_libusb
  dispatch_libusb-Settles app x t c decl handle e i f =
      let app0 = deliver usb lua (single (usb_backend usb) init) app decl t c in
      let (dev, tab, frames) = delivered app decl t c in
      let e0 : find t.owner app0.input_map ≡ some decl = rw tab e in
      let f0 : find t.owner app0.devices.devices ≡ some handle = rw dev f in
      let settled =
        settle-Settles usb lua quiet init app0 x t decl handle c.status
          (ap (λ (id : String). find id app0.input_map) i ∙ e0)
          (ap (λ (id : String). find id app0.devices.devices) i ∙ f0) in
      rw (e, e0, dispatch_libusb)
        (Settles-from usb lua quiet init app app0 x handle t decl.id t.owner c.status _ dev tab
          frames i settled)

module _ {W : Type 0} (usb : LibUsb W) (lua : AppLua (UsbState W))
    (init : App (UsbState W) → String → App (UsbState W)) where
  -- Detaching an open device leaves its transfers allocated and does not cancel them. When one of
  -- them ends after that, the program reads the declaration that the detach has destroyed.
  pub dispatch_libusb-after_detach :
      (app : App (UsbState W)) (x : ℕ) (t : Transfer) (c : Completion) (decl : InputDecl)
      (handle : ℕ)
      → find x app.devices.transfers ≡ some t
      → find t.owner app.input_map ≡ some decl
      → find t.owner app.devices.devices ≡ some handle
      → let (app1, removed) = detach (single (usb_backend usb) init) app t.owner in
        (removed ≡ some decl)
        × (find x app1.devices.transfers ≡ some t)
        × (dispatch_libusb usb lua (single (usb_backend usb) init) app1 x t c ≡ none)
  unfolding dispatch_libusb
  dispatch_libusb-after_detach app x t c decl handle f e o =
      let app1 = (detach (single (usb_backend usb) init) app t.owner).0 in
      let (r, same, erased) = detach_attached usb init app t.owner decl handle e o in
      let gone : find t.owner app1.input_map ≡ none =
        ap (find t.owner) erased
        ∙ ground (arith, find-erase t.owner t.owner app.input_map, ==_refl t.owner) in
      (r, ap (find x) same ∙ f, rw (gone, dispatch_libusb) refl)
