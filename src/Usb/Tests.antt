-- ===== src/Usb/Tests.antt =====
-- Runs of the USB transfers. The world counts the calls that change it; libusb always succeeds.
use aelkey.Base.{
  inl, inr, is_some, insert, ℕ, pos, suc, String, true, false, [], ◌∷◌, none, some, find,
  string_key, nat_key, ◌≡◌, refl, prefix, min,
}
use aelkey.Lua.{Table, str, int, empty, field, get, get_int, get_str}
use aelkey.Dispatcher.{empty_base}
use aelkey.Device.Decl.{InputDecl, default_input}
use aelkey.Device.App.{App, AppLua}
use aelkey.Device.History.{start}
use aelkey.Device.Single.{single}
use aelkey.Usb.Defs.{UsbState, Transfer, Reply, LibUsb, usb_backend, get_handle, evmask}
use aelkey.Usb.Sync.{is_in, pipe_transfer, pipe_transfer_sent}
use aelkey.Usb.Async.{
  Completion, completed, submitted, usb_submit_transfer, dispatch_libusb, completed, stall,
  no_device, transfer_status_to_string,
}
use aelkey.Usb.History.{
  Known, after_completion, Reach, here, submits, ends, nobody, after_submit, Reach-Balanced,
}
use aelkey.Usb.Complete.{dispatch_libusb-Settles, dispatch_libusb-after_detach}
use aelkey.Device.Manager.{detach}
use aelkey.Usb.Outcome.{IsQuiet, outcome}
use aelkey.Usb.Settle.{Settles}

-- A transfer to the device takes two bytes at most; one to the host gives back four.
abbrev reply : String → Reply
reply bytes = record { status = pos 0; transferred = 2; buffer = "data" }

abbrev lib : LibUsb ℕ
lib = record {
  init = λ w. (suc w, pos 0);
  open_device = λ w v p. (suc w, some 5);
  close = λ w h. suc w;
  kernel_driver_active = λ w h i. (w, pos 1);
  detach_kernel_driver = λ w h i. (suc w, pos 0);
  claim_interface = λ w h i. (suc w, pos 0);
  release_interface = λ w h i. suc w;
  bulk = λ w h e bytes n t. (suc w, reply bytes);
  interrupt = λ w h e bytes n t. (suc w, reply bytes);
  control = λ w h s bytes n t. (suc w, pos 2, "data");
  alloc = λ w. (suc w, some 8);
  malloc = λ w n. (suc w, true);
  free = λ w x. suc w;
  submit = λ w x t. (suc w, pos 0);
  cancel = λ w x. suc w;
  descriptor = λ w h. (w, pos 0);
  error_name = λ rc. "error";
}

abbrev pad : InputDecl
pad = record default_input { id = "pad"; type = "libusb"; on_event = "on_pad" }

abbrev old_transfer : Transfer
old_transfer = record {
  handle = 5;
  endpoint = 129;
  type = 3;
  timeout = 0;
  length = pos 64;
  owner = "pad";
}

abbrev attached : App (UsbState ℕ)
attached =
    record (start (record {
      world = 0;
      base = empty_base;
      has_context = true;
      devices = ("pad", 5) ∷ [];
      transfers = (7, old_transfer) ∷ [];
    })) { input_map = ("pad", pad) ∷ [] }

abbrev out_options : Table
out_options = field "device" (str "pad") (
    field "endpoint" (int (pos 2)) (field "size" (int (pos 3)) (field "data" (str "abcdef") empty)))

has_pad : get_handle attached.devices (get_str out_options "device" "") ≡ some 5
unfolding get_handle find get
has_pad = refl

to_device : is_in (get_int out_options "endpoint" (pos 0)) ≡ false
unfolding is_in get
to_device = refl

three_bytes : get_int out_options "size" (pos 0) ≡ pos 3
unfolding get
three_bytes = refl

short_transfer :
    let bytes = get_str out_options "data" "" in
    (t : Table) × (pipe_transfer lib lib.bulk attached.devices out_options
      ≡ (record attached.devices { world = 1 }, some t))
    × (get t "data" ≡ str (prefix (min 2 3) bytes))
    × (get t "size" ≡ int (pos 2))
    × (get t "status" ≡ int (pos 0))
short_transfer =
    pipe_transfer_sent lib lib.bulk attached.devices out_options 5 3 has_pad to_device three_bytes

-- Three of the six bytes are handed over, and two of those came through.
sent_back : prefix (min 2 3) "abcdef" ≡ "ab"
unfolding prefix min
sent_back = refl

status_names : transfer_status_to_string stall ≡ "stall"
unfolding transfer_status_to_string
status_names = refl

-- POLLIN | POLLPRI | POLLOUT
both_ways : evmask 7 ≡ 5
unfolding evmask
both_ways = refl

-- The script's transfer is the eighth.
started : (usb_submit_transfer lib attached out_options).1 ≡ submitted 8
unfolding usb_submit_transfer find get
started = refl

abbrev silent : AppLua (UsbState ℕ)
silent = record {
  is_function = λ app name. true;
  call = λ name t app. app;
  inputs = λ app. [];
  outputs = λ app. [];
}

quiet : IsQuiet silent
quiet = record { devices = λ f t app. refl; table = λ f t app. refl; frames = λ f t app. refl }

abbrev nothing_to_start : App (UsbState ℕ) → String → App (UsbState ℕ)
nothing_to_start app type = app

pad_attached : find "pad" attached.input_map ≡ some pad
unfolding find
pad_attached = refl

pad_open : find "pad" attached.devices.devices ≡ some 5
unfolding find
pad_open = refl

dispatch_libusb-Settles_example :
    Settles lib silent quiet nothing_to_start attached
      (dispatch_libusb lib silent
        (single (usb_backend lib) nothing_to_start)
        attached
        7
        old_transfer
        (record { status = no_device; actual_length = 0; buffer = "" }))
      7
      "pad"
      (outcome lib attached.devices 7 old_transfer 5 no_device)
dispatch_libusb-Settles_example =
    dispatch_libusb-Settles lib silent quiet nothing_to_start attached 7 old_transfer
      (record { status = no_device; actual_length = 0; buffer = "" }) pad 5 pad_attached refl
      pad_open

has_transfer : find 7 attached.devices.transfers ≡ some old_transfer
unfolding find
has_transfer = refl

dispatch_libusb-after_detach_example :
    let (app1, removed) = detach (single (usb_backend lib) nothing_to_start) attached "pad" in
    (removed ≡ some pad)
    × (find 7 app1.devices.transfers ≡ some old_transfer)
    × (dispatch_libusb lib silent
          (single (usb_backend lib) nothing_to_start)
          app1
          7
          old_transfer
          (record { status = completed; actual_length = 1; buffer = "a" })
        ≡ none)
dispatch_libusb-after_detach_example =
    dispatch_libusb-after_detach lib silent nothing_to_start attached 7 old_transfer
      (record { status = completed; actual_length = 1; buffer = "a" }) pad 5 has_transfer
      pad_attached pad_open

-- The pad is open, and nothing is submitted yet.
abbrev idle : App (UsbState ℕ)
idle = record attached { devices = record attached.devices { transfers = [] } }

fresh : (x : ℕ) → (lib.alloc 0).1 ≡ some x → find x idle.devices.transfers ≡ none
unfolding find
fresh x e = refl

abbrev submitted_one : App (UsbState ℕ)
submitted_one = (usb_submit_transfer lib idle out_options).0

abbrev one_known : Known
one_known = after_submit (usb_submit_transfer lib idle out_options).1 nobody

after_one : Reach lib silent quiet nothing_to_start submitted_one one_known
after_one = submits out_options (here idle refl) fresh

abbrev eighth : Transfer
eighth = record { handle = 5; endpoint = 2; type = 3; timeout = 0; length = pos 3; owner = "pad" }

flies : one_known.in_flight 8 ≡ true
unfolding usb_submit_transfer find get
flies = refl

allocated : find 8 submitted_one.devices.transfers ≡ some eighth
unfolding usb_submit_transfer find insert get
allocated = refl

still_attached : find eighth.owner submitted_one.input_map ≡ some pad
unfolding usb_submit_transfer find get
still_attached = refl

still_open : find eighth.owner submitted_one.devices.devices ≡ some 5
unfolding usb_submit_transfer find get
still_open = refl

abbrev stalled : Completion
stalled = record { status = stall; actual_length = 0; buffer = "" }

-- The transfer stalls, and is freed.
after_stall :
    (app1 : App (UsbState ℕ)) × Reach lib silent quiet nothing_to_start app1
      (after_completion (outcome lib submitted_one.devices 8 eighth 5 stall) 8 one_known)
after_stall =
    elim (dispatch_libusb-Settles lib silent quiet nothing_to_start submitted_one 8 eighth stalled
      pad 5 still_attached refl still_open) [
        | inl (reads, undefined) ↦ let no : false ≡ true = reads in absurd cc
        | inr (reads, (app1, e, s)) ↦ (
          app1,
          ends 8 eighth stalled pad 5 after_one flies allocated still_attached refl still_open e,
        )
      ]

Reach-Balanced_example : is_some (find 8 after_stall.0.devices.transfers) ≡ false
Reach-Balanced_example = Reach-Balanced lib silent quiet nothing_to_start after_stall.1 8
