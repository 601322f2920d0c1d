-- ===== src/Usb/Async.antt =====
-- The asynchronous transfers of source/aelkey_usb.cc: `usb_submit_transfer`, and `dispatch_libusb`,
-- which libusb calls when a transfer ends.
use aelkey.Base.{
  u32, ℕ, ℤ, pos, u8, String, Bool, true, not, Option, none, some, find, insert, erase, is_zero,
  eqb, is_empty, prefix, if◌then◌else◌, string_key, nat_key, ◌==◌,
}
use aelkey.Lua.{Table, nil, str, int, empty, field, get_int, get_str}
use aelkey.Device.Decl.{InputDecl}
use aelkey.Device.App.{App, AppLua, notify_state_change}
use aelkey.Device.Manager.{Backends, detach_in_entry}
use aelkey.Usb.Defs.{UsbState, Transfer, LibUsb, get_handle}
use aelkey.Usb.Sync.{no_device_code, no_mem_code}

-- libusb_transfer_status; `other` stands for the values that it does not name.
pub data TransferStatus : Type 0 where
  completed : TransferStatus
  error : TransferStatus
  timed_out : TransferStatus
  cancelled : TransferStatus
  stall : TransferStatus
  no_device : TransferStatus
  overflow : TransferStatus
  other : TransferStatus

unfoldable pub transfer_status_to_string : TransferStatus → String
transfer_status_to_string completed = "ok"
transfer_status_to_string error = "error"
transfer_status_to_string timed_out = "timeout"
transfer_status_to_string cancelled = "cancelled"
transfer_status_to_string stall = "stall"
transfer_status_to_string no_device = "no_device"
transfer_status_to_string overflow = "overflow"
transfer_status_to_string other = "unknown"

unfoldable pub transfer_type_to_string : ℕ → String
transfer_type_to_string n =
    if eqb n 0
    then "control"
    else if eqb n 1
    then "iso"
    else if eqb n 2
    then "bulk"
    else if eqb n 3
    then "interrupt"
    else "unknown"

unfoldable pub type_of : String → ℕ
type_of s = if s == "bulk" then 2 else if s == "control" then 0 else if s == "iso" then 1 else 3

-- What libusb leaves in the transfer before it calls the program.
pub record Completion : Type 0 where
  pub status : TransferStatus
  pub actual_length : ℕ
  pub buffer : String

-- The handle table holds the transfer, for `cancel` and `resubmit`.
pub data Submitted : Type 0 where
  refused : Table → Submitted
  submitted : ℕ → Submitted

abbrev pub refusal : String → ℤ → String → Submitted
refusal dev_id endpoint status = refused (
    field "device" (str dev_id)
      (field "endpoint" (int endpoint) (field "transfer" nil (field "status" (str status) empty))))

-- A transfer that is not filled in yet.
abbrev pub blank : Transfer
blank = record { handle = 0; endpoint = 0; type = 0; timeout = 0; length = pos 0; owner = "" }

unfoldable pub fill_transfer : ℕ → String → Table → Transfer
unfolding type_of
fill_transfer handle dev_id opts = record {
  handle = handle;
  endpoint = u8 (get_int opts "endpoint" (pos 0));
  type = type_of (get_str opts "type" "");
  timeout = u32 (get_int opts "timeout" (pos 0));
  length = get_int opts "size" (pos 0);
  owner = dev_id;
}

module _ {W : Type 0} (usb : LibUsb W) where
  unfoldable pub destroy_transfer : App (UsbState W) → ℕ → App (UsbState W)
  destroy_transfer app x = record app {
    devices = record app.devices {
      world = usb.free app.devices.world x;
      transfers = erase x app.devices.transfers;
    };
  }

  unfoldable pub set_transfer : App (UsbState W) → W → ℕ → Transfer → App (UsbState W)
  set_transfer app w x t = record app {
    devices = record app.devices { world = w; transfers = insert x t app.devices.transfers };
  }

  -- libusb_submit_transfer; the flag says whether it returned 0.
  unfoldable pub submit : App (UsbState W) → ℕ → Transfer → App (UsbState W) × ℤ
  submit app x t =
      let (w, rc) = usb.submit app.devices.world x t in
      (record app { devices = record app.devices { world = w } }, rc)

  -- From the allocation on.
  unfoldable pub start_transfer :
      App (UsbState W) → ℕ → String → Table → App (UsbState W) × Submitted
  unfolding destroy_transfer set_transfer submit fill_transfer
  start_transfer app handle dev_id opts =
      let endpoint = get_int opts "endpoint" (pos 0) in
      let (w, allocated) = usb.alloc app.devices.world in
      elim allocated [
        | none ↦ (
          record app { devices = record app.devices { world = w } },
          refusal dev_id endpoint (usb.error_name no_mem_code),
        )
        | some x ↦
            let (w1, has_buffer) = usb.malloc w (get_int opts "size" (pos 0)) in
            let t = fill_transfer handle dev_id opts in
            let (app2, rc) = submit (set_transfer app w1 x t) x t in
            if not has_buffer
            then (
              destroy_transfer (set_transfer app w1 x blank) x,
              refusal dev_id endpoint (usb.error_name no_mem_code),
            )
            else if is_zero rc
            then (app2, submitted x)
            else (destroy_transfer app2 x, refusal dev_id endpoint (usb.error_name rc))
      ]

  unfoldable pub usb_submit_transfer : App (UsbState W) → Table → App (UsbState W) × Submitted
  unfolding start_transfer get_handle
  usb_submit_transfer app opts =
      let dev_id = get_str opts "device" "" in
      let endpoint = get_int opts "endpoint" (pos 0) in
      let gone = refusal dev_id endpoint (usb.error_name no_device_code) in
      elim (get_handle app.devices dev_id) [
        | none ↦ (app, gone)
        | some handle ↦ elim (find dev_id app.input_map) [
          | none ↦ (app, gone)
          | some decl ↦ start_transfer app handle dev_id opts
        ]
      ]

  -- The closures of the handle table.
  unfoldable pub cancel : App (UsbState W) → ℕ → App (UsbState W) × Bool
  cancel app x =
      (record app { devices = record app.devices { world = usb.cancel app.devices.world x } }, true)

  unfoldable pub resubmit : App (UsbState W) → ℕ → Transfer → App (UsbState W) × Bool
  unfolding submit
  resubmit app x t = let (app1, rc) = submit app x t in (app1, is_zero rc)

  module _ (lua : AppLua (UsbState W)) (backends : Backends (UsbState W)) where
    abbrev pub event : InputDecl → Transfer → Completion → Table
    event decl t c = field "device" (str decl.id) (
        field "data" (str (prefix c.actual_length c.buffer)) (
          field "size" (int (pos c.actual_length)) (
            field "endpoint" (int (pos t.endpoint)) (
              field "transfer" (str (transfer_type_to_string t.type))
                (field "status" (str (transfer_status_to_string c.status)) empty)))))

    -- The call of the device's `on_event`.
    unfoldable pub deliver : App (UsbState W) → InputDecl → Transfer → Completion → App (UsbState W)
    unfolding transfer_type_to_string transfer_status_to_string
    deliver app decl t c =
        if is_empty decl.on_event
        then app
        else if lua.is_function app decl.on_event
        then lua.call decl.on_event (event decl t c) app
        else app

    -- The device is gone. The identifier is the one that stands in the entry. The result is none
    -- where `detach` reads it after the entry is erased, or the program dereferences an empty
    -- optional.
    unfoldable pub device_gone : App (UsbState W) → InputDecl → Option (App (UsbState W))
    unfolding detach_in_entry
    device_gone app decl = elim (detach_in_entry backends app decl.id) [
      | none ↦ none
      | some (app1, removed) ↦ elim removed [
        | none ↦ none
        | some d ↦ some (notify_state_change lua app1 d "remove")
      ]
    ]

    -- A transfer that ended normally, or for a reason that passes.
    unfoldable pub again : App (UsbState W) → ℕ → Transfer → Option (App (UsbState W))
    unfolding submit destroy_transfer
    again app x t =
        let (app1, rc) = submit app x t in
        some (if is_zero rc then app1 else destroy_transfer app1 x)

    -- A cancelled transfer, or one that failed.
    unfoldable pub failed : App (UsbState W) → ℕ → InputDecl → Option (App (UsbState W))
    unfolding device_gone destroy_transfer get_handle
    failed app x decl = elim (get_handle app.devices decl.id) [
      | none ↦ device_gone app decl
      | some handle ↦
          let (w, rc) = usb.descriptor app.devices.world handle in
          let app1 = record app { devices = record app.devices { world = w } } in
          if is_zero rc then some (destroy_transfer app1 x) else device_gone app1 decl
    ]

    -- The switch at the end of `dispatch_libusb`.
    unfoldable pub settle :
        App (UsbState W) → ℕ → Transfer → InputDecl → TransferStatus → Option (App (UsbState W))
    unfolding again failed device_gone
    settle app x t decl completed = again app x t
    settle app x t decl overflow = again app x t
    settle app x t decl timed_out = again app x t
    settle app x t decl no_device = device_gone app decl
    settle app x t decl cancelled = failed app x decl
    settle app x t decl error = failed app x decl
    settle app x t decl stall = failed app x decl
    settle app x t decl other = failed app x decl

    -- The result is none where the program reads a declaration that is no longer in `input_map`: it
    -- reads it before the callback, and again after it unless the transfer is to be tried again. A
    -- script that detaches the device and attaches one under the same identifier counts as one that
    -- leaves the declaration where it was.
    unfoldable pub dispatch_libusb :
        App (UsbState W) → ℕ → Transfer → Completion → Option (App (UsbState W))
    unfolding deliver settle
    dispatch_libusb app x t c = elim (find t.owner app.input_map) [
      | none ↦ none
      | some decl ↦
          let app1 = deliver app decl t c in
          elim (find t.owner app1.input_map) [
            | none ↦ elim c.status [
              | completed ↦ again app1 x t
              | overflow ↦ again app1 x t
              | timed_out ↦ again app1 x t
              | _ ↦ none
            ]
            | some decl1 ↦ settle app1 x t decl1 c.status
          ]
    ]
