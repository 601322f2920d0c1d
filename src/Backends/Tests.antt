-- ===== src/Backends/Tests.antt =====
-- The program's backends over one world, which counts the calls that change it.
use aelkey.Device.App.{App}
use aelkey.Base.{
  find, insert, str_before, ℕ, pos, suc, Bool, true, false, [], ◌∷◌, none, some, minus_one, ◌≡◌,
  refl, string_key,
}
use aelkey.Device.Attach.{IsLawful}
use aelkey.Evdev.Defs.{DispatcherEvdev}
use aelkey.Hidraw.Defs.{HidrawState}
use aelkey.Usb.Defs.{UsbState, Reply}
use aelkey.Gatt.Bus.{GattState}
use aelkey.Dispatcher.{empty_base}
use aelkey.Device.Decl.{InputDecl, default_input}
use aelkey.Device.History.{start}
use aelkey.Device.Manager.{match}
use aelkey.Backends.Table.{all_backends, backend_for_type}
use aelkey.Backends.Registry.{lazy_init}
use aelkey.Device.Udev.{UdevState}
use aelkey.Evdev.Match.{UdevNode, evdev_match}
use aelkey.Hidraw.Match.{HidrawNode}
use aelkey.Backends.Program.{Parts, match_evdev, program_backends, program_backends-IsLawful}

-- The state of all backends. The world of the last call is that of all.
pub record AllState : Type 0 where
  pub world : ℕ
  pub evdev : DispatcherEvdev ℕ
  pub hidraw : HidrawState ℕ
  pub usb : UsbState ℕ
  pub usb_started : Bool
  pub gatt : GattState ℕ
  pub udev : UdevState ℕ
  pub udev_started : Bool

abbrev nothing_done : Reply
nothing_done = record { status = minus_one; transferred = 0; buffer = "" }

-- A keyboard, and a receiver of which there is no name.
abbrev keyboard_node : UdevNode
keyboard_node = record {
  devnode = some "/dev/input/event3";
  evdev = some (record {
    bustype = pos 3;
    vendor = pos 1133;
    product = pos 49948;
    name = "Keyboard";
    phys = "";
    uniq = "";
    has_event_code = λ type code. true;
  });
}

abbrev receiver_node : HidrawNode
receiver_node = record {
  devnode = some "/dev/hidraw1";
  info = some (record {
    bustype = pos 3;
    vendor = pos 1133;
    product = pos 50484;
    name = none;
    phys = none;
    uniq = none;
    interface_num = some "01";
  });
}

abbrev parts : Parts AllState ℕ
parts = record {
  evdev = record {
    of = λ d. record d.evdev { world = d.world };
    put = λ d s. record d { world = s.world; evdev = s };
  };
  hidraw = record {
    of = λ d. record d.hidraw { world = d.world };
    put = λ d s. record d { world = s.world; hidraw = s };
  };
  usb = record {
    of = λ d. record d.usb { world = d.world };
    put = λ d s. record d { world = s.world; usb = s };
  };
  starting = record {
    gatt = record {
      of = λ d. record d.gatt { world = d.world };
      put = λ d s. record d { world = s.world; gatt = s };
    };
    libusb = record {
      of = λ d. record { state = record d.usb { world = d.world }; initialized = d.usb_started };
      put = λ d s. record d { world = s.state.world; usb = s.state; usb_started = s.initialized };
    };
    udev = record {
      of = λ d. record { state = record d.udev { world = d.world }; initialized = d.udev_started };
      put = λ d s. record d { world = s.state.world; udev = s.state; udev_started = s.initialized };
    };
    epoll = record { add = λ w fd events. (suc w, pos 0); del = λ w fd. suc w };
    bus = record {
      get = λ w. (suc w, true);
      unix_fd = λ w. (w, some (pos 9));
      objects = λ w. (w, none);
      flags = λ w path. (w, none);
      add_match = λ w rule. suc w;
      flush = λ w. w;
      start_notify = λ w path. suc w;
      stop_notify = λ w path. suc w;
      read_value = λ w path. (w, none);
      write_value = λ w path bytes resp. (suc w, true);
      read_write = λ w. w;
      pop = λ w. (w, none);
    };
    lib = record {
      init = λ w. (suc w, pos 0);
      open_device = λ w v p. (suc w, some 5);
      close = λ w h. suc w;
      kernel_driver_active = λ w h i. (w, pos 0);
      detach_kernel_driver = λ w h i. (w, pos 0);
      claim_interface = λ w h i. (suc w, pos 0);
      release_interface = λ w h i. suc w;
      bulk = λ w h e bytes n t. (suc w, nothing_done);
      interrupt = λ w h e bytes n t. (suc w, nothing_done);
      control = λ w h s bytes n t. (suc w, minus_one, "");
      alloc = λ w. (suc w, none);
      malloc = λ w n. (suc w, true);
      free = λ w x. suc w;
      submit = λ w x t. (suc w, minus_one);
      cancel = λ w x. suc w;
      descriptor = λ w h. (w, pos 0);
      error_name = λ rc. "error";
    };
    poll = record { set_notifiers = λ w. suc w; events = λ w. (w, []) };
    libudev = record {
      new_ctx = λ w. (suc w, some 1);
      new_monitor = λ w c. (suc w, some 2);
      add_filter = λ w m s. suc w;
      enable_receiving = λ w m. suc w;
      get_fd = λ w m. (w, pos 6);
      unref_monitor = λ w m. suc w;
      unref_ctx = λ w c. suc w;
    };
  };
  libevdev = record {
    open_node = λ w node. (suc w, pos 3);
    close = λ w fd. suc w;
    new_from_fd = λ w fd. (suc w, some 1);
    has_ff = λ w idev. true;
    key_bits = λ w fd. none;
    fetch_value = λ w idev code. none;
    grab = λ w idev. (suc w, pos 0);
    ungrab = λ w idev. suc w;
    free = λ w idev. suc w;
  };
  files = record {
    open_node = λ w node. (suc w, pos 4);
    close = λ w fd. suc w;
    unblock = λ w fd. suc w;
    read = λ w fd n. (suc w, pos 0, "");
    errno = λ w. "error";
  };
  regex = λ s. none;
  register_sink = λ app id fd. app;
  hex = λ s. pos 0;
  input_nodes = λ w. (suc w, keyboard_node ∷ []);
  hidraw_nodes = λ w. (suc w, receiver_node ∷ []);
}

program_backends-IsLawful_example : IsLawful (program_backends parts)
program_backends-IsLawful_example = program_backends-IsLawful parts (λ app id fd. refl)

abbrev nothing_open : App AllState
nothing_open = start (record {
  world = 0;
  evdev = record { world = 0; base = empty_base; devices = []; idev_map = []; grab_needed = [] };
  hidraw = record { world = 0; base = empty_base; devices = [] };
  usb = record { world = 0; base = empty_base; has_context = false; devices = []; transfers = [] };
  usb_started = false;
  gatt = record {
    world = 0;
    base = empty_base;
    initialized = false;
    dispatcher_initialized = false;
    conn = false;
    fd = minus_one;
    gatt_paths = [];
  };
  udev = record { world = 0; base = empty_base; ctx = none; mon = none; mon_fd = minus_one };
  udev_started = false;
})

abbrev keyboard : InputDecl
keyboard = record default_input { id = "keys"; type = "evdev"; vendor = pos 1133 }

-- The manager finds the keyboard through the table.
keyboard_matched :
    (match (program_backends parts) nothing_open keyboard).1 ≡ some "/dev/input/event3"
unfolding match program_backends match_evdev evdev_match all_backends backend_for_type find insert
    str_before
keyboard_matched = refl

-- A singleton that cannot be initialised is tried again.
tried_twice :
    (lazy_init
      (λ (n : ℕ). (suc n, false))
      (lazy_init (λ (n : ℕ). (suc n, false)) (record { state = 0; initialized = false })).0).0.state
    ≡ 2
unfolding lazy_init
tried_twice = refl
