-- ===== src/Usb/Outcome.antt =====
-- What can become of a transfer that ends, and what the detach of its device does.
use aelkey.Base.{
  no_items, not, ℕ, String, Bool, true, false, ◌&&◌, none, some, find, erase, is_zero,
  if◌then◌else◌, ◌==◌, string_key, nat_key, ◌≡◌, refl, ap,
}
use aelkey.Lua.{Table}
use aelkey.Device.Decl.{InputDecl}
use aelkey.Device.App.{App, AppLua}
use aelkey.Device.Manager.{detach, reads_erased}
use aelkey.Device.Single.{single}
use aelkey.Usb.Defs.{UsbState, Transfer, LibUsb, usb_backend, usb_detach}
use aelkey.Usb.Async.{
  TransferStatus, completed, error, timed_out, cancelled, stall, no_device, overflow, other,
}

pub data Outcome : Type 0 where
  pending : Outcome
  freed : Outcome
  detached : Outcome

abbrev pub is_freed : Outcome → Bool
is_freed freed = true
is_freed _ = false

abbrev pub is_detached : Outcome → Bool
is_detached detached = true
is_detached _ = false

module _ {W : Type 0} where
  -- Of the transfers only `x` can go, and of the devices only `id`.
  pub record IsSettled (app app1 : App (UsbState W)) (x : ℕ) (id : String) (o : Outcome)
      : Type 0 where
    pub transfers :
        (k : ℕ)
        → find k app1.devices.transfers
          ≡ (if is_freed o && (x == k) then none else find k app.devices.transfers)
    pub table :
        (k : String)
        → find k app1.input_map
          ≡ (if is_detached o && (id == k) then none else find k app.input_map)

  -- The script touches neither the devices, their frames, nor the transfers.
  pub record IsQuiet (lua : AppLua (UsbState W)) : Type 0 where
    pub devices :
        (f : String) (t : Table) (app : App (UsbState W)) → (lua.call f t app).devices ≡ app.devices
    pub table :
        (f : String) (t : Table) (app : App (UsbState W))
        → (lua.call f t app).input_map ≡ app.input_map
    pub frames :
        (f : String) (t : Table) (app : App (UsbState W)) → (lua.call f t app).frames ≡ app.frames

module _ {W : Type 0} (usb : LibUsb W) where
  abbrev pub resubmitted : UsbState W → ℕ → Transfer → Outcome
  resubmitted d x t = if is_zero (usb.submit d.world x t).1 then pending else freed

  abbrev pub given_up : UsbState W → ℕ → Outcome
  given_up d handle = if is_zero (usb.descriptor d.world handle).1 then freed else detached

  -- The outcome by the status that libusb reports.
  abbrev pub outcome : UsbState W → ℕ → Transfer → ℕ → TransferStatus → Outcome
  outcome d x t handle completed = resubmitted d x t
  outcome d x t handle overflow = resubmitted d x t
  outcome d x t handle timed_out = resubmitted d x t
  outcome d x t handle no_device = detached
  outcome d x t handle cancelled = given_up d handle
  outcome d x t handle error = given_up d handle
  outcome d x t handle stall = given_up d handle
  outcome d x t handle other = given_up d handle

  -- A statement about a state holds of another with the same devices and the same table.
  pub IsSettled-from :
      (app app0 app1 : App (UsbState W)) (x handle : ℕ) (t : Transfer) (id id1 : String)
      (status : TransferStatus)
      → app0.devices ≡ app.devices
      → app0.input_map ≡ app.input_map
      → id ≡ id1
      → IsSettled app0 app1 x id (outcome app0.devices x t handle status)
      → IsSettled app app1 x id1 (outcome app.devices x t handle status)
  IsSettled-from app app0 app1 x handle t id id1 status dev tab i s = record {
    transfers = λ k. rw (← dev) (s.transfers k);
    table = λ k. rw (← dev, ← tab, ← i) (s.table k);
  }

  pub detach_attached :
      (init : App (UsbState W) → String → App (UsbState W)) (app : App (UsbState W)) (id : String)
      (decl : InputDecl) (handle : ℕ)
      → find id app.input_map ≡ some decl
      → find id app.devices.devices ≡ some handle
      → let (app1, removed) = detach (single (usb_backend usb) init) app id in
        (removed ≡ some decl)
        × (app1.devices.transfers ≡ app.devices.transfers)
        × (app1.input_map ≡ erase id app.input_map)
  unfolding detach usb_detach
  detach_attached init app id decl handle e f =
      rw (e, f, detach, usb_detach) (ap some (rw e refl), refl, refl)

  pub reads_erased_lem :
      (init : App (UsbState W) → String → App (UsbState W)) (app : App (UsbState W)) (id : String)
      (decl : InputDecl) (handle : ℕ)
      → find id app.input_map ≡ some decl
      → find id app.devices.devices ≡ some handle
      → reads_erased (single (usb_backend usb) init) app id ≡ not (no_items app.frames)
  unfolding reads_erased usb_detach
  reads_erased_lem init app id decl handle e f = rw (e, f, reads_erased, usb_detach) refl
