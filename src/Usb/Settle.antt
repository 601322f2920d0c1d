-- ===== src/Usb/Settle.antt =====
-- What `dispatch_libusb` does with the transfer that ended, and with its device.
use aelkey.Base.{
  no_items, not, ◌⊎◌, ℕ, String, Bool, true, false, ◌&&◌, Option, none, some, find, is_zero,
  is_empty, ◌∙◌, sym, find-erase, string_key, nat_key, ◌≡◌, refl, Bool-cases, inl, inr,
}
use aelkey.Device.Decl.{InputDecl}
use aelkey.Device.App.{App, AppLua, notify_state_change}
use aelkey.Device.Manager.{detach, detach_in_entry}
use aelkey.Device.Single.{single}
use aelkey.Usb.Defs.{UsbState, Transfer, LibUsb, get_handle, usb_backend}
use aelkey.Usb.Async.{
  TransferStatus, completed, error, timed_out, cancelled, stall, no_device, overflow, other, submit,
  destroy_transfer, device_gone, again, failed, settle,
}
use aelkey.Usb.Outcome.{
  Outcome, detached, is_detached, IsSettled, IsQuiet, resubmitted, given_up, outcome,
  IsSettled-from, detach_attached, reads_erased_lem,
}

module _ {W : Type 0} (usb : LibUsb W) where
  module _ (lua : AppLua (UsbState W)) (quiet : IsQuiet lua)
      (init : App (UsbState W) → String → App (UsbState W)) where
    pub notified :
        (app : App (UsbState W)) (decl : InputDecl) (state : String)
        → ((notify_state_change lua app decl state).devices ≡ app.devices)
          × ((notify_state_change lua app decl state).input_map ≡ app.input_map)
    unfolding notify_state_change
    notified app decl state = elim (Bool-cases (is_empty decl.on_state)) [
      | inl e ↦ rw (e, notify_state_change) (refl, refl)
      | inr e ↦ elim (Bool-cases (lua.is_function app decl.on_state)) [
        | inl f ↦ rw (e, f, notify_state_change) (quiet.devices _ _ app, quiet.table _ _ app)
        | inr f ↦ rw (e, f, notify_state_change) (refl, refl)
      ]
    ]

    abbrev pub Settled :
        App (UsbState W) → Option (App (UsbState W)) → ℕ → String → Outcome → Type 0
    Settled app result x id o =
        (app1 : App (UsbState W)) × (result ≡ some app1) × IsSettled app app1 x id o

    -- A device that is gone is detached by the identifier in its own entry, which is read after it
    -- is erased where there are frames.
    abbrev pub reads_gone : App (UsbState W) → Outcome → Bool
    reads_gone app o = is_detached o && not (no_items app.frames)

    abbrev pub Settles :
        App (UsbState W) → Option (App (UsbState W)) → ℕ → String → Outcome → Type 0
    Settles app result x id o =
        ((reads_gone app o ≡ true) × (result ≡ none))
        ⊎ ((reads_gone app o ≡ false) × Settled app result x id o)

    pub Settles-from :
        (app app0 : App (UsbState W)) (x handle : ℕ) (t : Transfer) (id id1 : String)
        (status : TransferStatus) (result : Option (App (UsbState W)))
        → app0.devices ≡ app.devices
        → app0.input_map ≡ app.input_map
        → app0.frames ≡ app.frames
        → id ≡ id1
        → Settles app0 result x id (outcome usb app0.devices x t handle status)
        → Settles app result x id1 (outcome usb app.devices x t handle status)
    Settles-from app app0 x handle t id id1 status result dev tab frames i s =
        let o = outcome usb app.devices x t handle status in
        let reads : reads_gone app0 (outcome usb app0.devices x t handle status)
            ≡ reads_gone app o =
          rw (dev, frames) refl in
        elim s [
          | inl (n, r) ↦ inl (sym reads ∙ n, r)
          | inr (n, (app1, r, settled)) ↦ inr (
            sym reads ∙ n,
            (app1, r, IsSettled-from usb app app0 app1 x handle t id id1 status dev tab i settled),
          )
        ]

    device_gone-Settles :
        (app : App (UsbState W)) (decl decl0 : InputDecl) (x handle : ℕ)
        → find decl.id app.input_map ≡ some decl0
        → find decl.id app.devices.devices ≡ some handle
        → Settles app
            (device_gone usb lua (single (usb_backend usb) init) app decl)
            x
            decl.id
            detached
    unfolding device_gone detach_in_entry
    device_gone-Settles app decl decl0 x handle e f =
        let r = reads_erased_lem usb init app decl.id decl0 handle e f in
        elim (Bool-cases (not (no_items app.frames))) [
          | inl n ↦ inl (n, rw (r ∙ n, detach_in_entry, device_gone) refl)
          | inr n ↦
              let app1 = (detach (single (usb_backend usb) init) app decl.id).0 in
              let (d, t, m) = detach_attached usb init app decl.id decl0 handle e f in
              let (dev, tab) = notified app1 decl0 "remove" in
              inr (
                n,
                (
                  notify_state_change lua app1 decl0 "remove",
                  rw (r ∙ n, detach_in_entry, d, device_gone) refl,
                  record {
                    transfers = λ k. rw (dev, t) refl;
                    table = λ k. rw (tab, m) (find-erase decl.id k app.input_map);
                  },
                ),
              )
        ]

    again-Settles :
        (app : App (UsbState W)) (x : ℕ) (t : Transfer) (id : String)
        → Settles app
            (again usb lua (single (usb_backend usb) init) app x t)
            x
            id
            (resubmitted usb app.devices x t)
    unfolding again submit destroy_transfer
    again-Settles app x t id = elim (Bool-cases (is_zero (usb.submit app.devices.world x t).1)) [
      | inl e ↦
          rw (e, again)
            (inr (
              refl,
              (_, refl, record { transfers = λ (k : ℕ). refl; table = λ (k : String). refl }),
            ))
      | inr e ↦
          rw (e, again)
            (inr (
              refl,
              (
                _,
                refl,
                record {
                  transfers = λ (k : ℕ). find-erase x k app.devices.transfers;
                  table = λ (k : String). refl;
                },
              ),
            ))
    ]

    failed-Settles :
        (app : App (UsbState W)) (x : ℕ) (decl decl0 : InputDecl) (handle : ℕ)
        → find decl.id app.input_map ≡ some decl0
        → find decl.id app.devices.devices ≡ some handle
        → Settles app
            (failed usb lua (single (usb_backend usb) init) app x decl)
            x
            decl.id
            (given_up usb app.devices handle)
    unfolding failed destroy_transfer get_handle
    failed-Settles app x decl decl0 handle e f =
        let (w, rc) = usb.descriptor app.devices.world handle in
        let app0 = record app { devices = record app.devices { world = w } } in
        elim (Bool-cases (is_zero rc)) [
          | inl z ↦
              rw (f, z, failed)
                (inr (
                  refl,
                  (
                    _,
                    refl,
                    record {
                      transfers = λ (k : ℕ). find-erase x k app.devices.transfers;
                      table = λ (k : String). refl;
                    },
                  ),
                ))
          | inr z ↦
              rw (f, z, failed)
                (elim (device_gone-Settles app0 decl decl0 x handle e f) [
                  | inl (n, r) ↦ inl (n, r)
                  | inr (n, (app1, r, s)) ↦
                      inr (n, (app1, r, record { transfers = s.transfers; table = s.table }))
                ])
        ]

    pub settle-Settles :
        (app : App (UsbState W)) (x : ℕ) (t : Transfer) (decl : InputDecl) (handle : ℕ)
        (status : TransferStatus)
        → find decl.id app.input_map ≡ some decl
        → find decl.id app.devices.devices ≡ some handle
        → Settles app
            (settle usb lua (single (usb_backend usb) init) app x t decl status)
            x
            decl.id
            (outcome usb app.devices x t handle status)
    unfolding settle
    settle-Settles app x t decl handle completed e f = again-Settles app x t decl.id
    settle-Settles app x t decl handle overflow e f = again-Settles app x t decl.id
    settle-Settles app x t decl handle timed_out e f = again-Settles app x t decl.id
    settle-Settles app x t decl handle no_device e f =
        device_gone-Settles app decl decl x handle e f
    settle-Settles app x t decl handle cancelled e f = failed-Settles app x decl decl handle e f
    settle-Settles app x t decl handle error e f = failed-Settles app x decl decl handle e f
    settle-Settles app x t decl handle stall e f = failed-Settles app x decl decl handle e f
    settle-Settles app x t decl handle other e f = failed-Settles app x decl decl handle e f
