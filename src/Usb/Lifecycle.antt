-- ===== src/Usb/Lifecycle.antt =====
-- What becomes of the transfers of source/aelkey_usb.cc.
use aelkey.Base.{
  ℕ, pos, none, some, find, insert, erase, is_zero, find-insert, find-erase, ==_iff, if◌then◌else◌,
  ◌==◌, string_key, nat_key, ◌≡◌, refl, arith, Option-cases, Bool-cases, inl, inr, Map,
}
use aelkey.Lua.{Table, get_str, get_int}
use aelkey.Device.App.{App}
use aelkey.Usb.Defs.{UsbState, Transfer, LibUsb}
use aelkey.Usb.Async.{
  Submitted, refused, submitted, submit, fill_transfer, start_transfer, usb_submit_transfer,
  destroy_transfer, set_transfer, blank,
}

erase-insert_fresh :
    (x k : ℕ) (t : Transfer) (m : Map ℕ Transfer)
    → find x m ≡ none
    → find k (erase x (insert x t m)) ≡ find k m
erase-insert_fresh x k t m h =
    ground (arith, find-erase x k (insert x t m), find-insert x k t m, ==_iff x k)

module _ {W : Type 0} (usb : LibUsb W) where
  -- What a call of `usb_submit_transfer` does to the allocated transfers.
  abbrev pub Accounts : App (UsbState W) → App (UsbState W) → Table → Submitted → Type 0
  Accounts app app1 opts (refused t) =
      (k : ℕ) → find k app1.devices.transfers ≡ find k app.devices.transfers
  Accounts app app1 opts (submitted x) =
      (t : Transfer) × (t.owner ≡ get_str opts "device" "")
      × (find x app.devices.transfers ≡ none)
      × ((k : ℕ)
          → find k app1.devices.transfers
            ≡ (if x == k then some t else find k app.devices.transfers))

  start_transfer-Accounts :
      (app : App (UsbState W)) (handle : ℕ) (opts : Table)
      → ((x : ℕ) → (usb.alloc app.devices.world).1 ≡ some x → find x app.devices.transfers ≡ none)
      → let (app1, s) = start_transfer usb app handle (get_str opts "device" "") opts in
        Accounts app app1 opts s
  unfolding start_transfer destroy_transfer set_transfer submit
  start_transfer-Accounts app handle opts fresh =
      let (w, allocated) = usb.alloc app.devices.world in
      elim (Option-cases allocated) [
        | inl e ↦ rw (e, start_transfer) (λ k. refl)
        | inr (x, e) ↦
            let m = app.devices.transfers in
            let (w1, has_buffer) = usb.malloc w (get_int opts "size" (pos 0)) in
            let t = fill_transfer handle (get_str opts "device" "") opts in
            let rc = (usb.submit w1 x t).1 in
            elim (Bool-cases has_buffer) [
              | inr b ↦
                  rw (e, b, start_transfer) (λ (k : ℕ). erase-insert_fresh x k blank m (fresh x e))
              | inl b ↦ elim (Bool-cases (is_zero rc)) [
                | inl z ↦
                    rw (e, b, z, start_transfer)
                      (t, refl, fresh x e, λ (k : ℕ). find-insert x k t m)
                | inr z ↦
                    rw (e, b, z, start_transfer) (λ (k : ℕ). erase-insert_fresh x k t m (fresh x e))
              ]
            ]
      ]

  -- A call of `submit_transfer` leaves exactly one more transfer allocated when it returns a
  -- handle, that of the device it was asked for, and none more when it is refused, at whatever
  -- point that happens: no path leaks the transfer. Here libusb hands out a transfer that is not in
  -- use.
  pub usb_submit_transfer-Accounts :
      (app : App (UsbState W)) (opts : Table)
      → ((x : ℕ) → (usb.alloc app.devices.world).1 ≡ some x → find x app.devices.transfers ≡ none)
      → let (app1, s) = usb_submit_transfer usb app opts in Accounts app app1 opts s
  unfolding usb_submit_transfer
  usb_submit_transfer-Accounts app opts fresh =
      let dev_id = get_str opts "device" "" in
      elim (Option-cases (find dev_id app.devices.devices)) [
        | inl e ↦ rw (e, usb_submit_transfer) (λ (k : ℕ). refl)
        | inr (handle, e) ↦ elim (Option-cases (find dev_id app.input_map)) [
          | inl f ↦ rw (e, f, usb_submit_transfer) (λ (k : ℕ). refl)
          | inr (decl, f) ↦
              rw (e, f, usb_submit_transfer) (start_transfer-Accounts app handle opts fresh)
        ]
      ]
