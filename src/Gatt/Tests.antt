-- ===== src/Gatt/Tests.antt =====
-- Runs of the GATT backend. The world is the list of the messages that wait.
use aelkey.Base.{
  is_some, ◌&&◌, ℕ, pos, suc, ◌<◌, ◌≤◌, String, true, false, List, [], ◌∷◌, Option, none, some, Map,
  find, string_key, ◌≡◌, refl, arith, minus_one, is_empty, has_infix, starts_with, prefix, size,
  ◌<>◌,
}
use aelkey.Dispatcher.{Epoll, register_fd, empty_base}
use aelkey.Device.Decl.{InputDecl, default_input}
use aelkey.Device.Helpers.{Match, match_string, looks_like_regex, back_is}
use aelkey.Device.App.{App, AppLua}
use aelkey.Device.History.{start}
use aelkey.Gatt.Bus.{GattObject, Message, Bus, GattState, text}
use aelkey.Gatt.Hex.{hex4, strtoul16, as_int, hex_value}
use aelkey.Gatt.Paths.{
  classify_gatt_path, characteristic_path, derive_device_path_from_char_path, handle_after,
  resolve_char_path, resolve_char_path_roundtrip, drop, strstr,
}
use aelkey.Gatt.Tree.{
  resolve_gatt_paths, inspect_line, is_empty_list, get_matching_devices, read_device,
  get_matching_services, first_string,
}
use aelkey.Gatt.Found.{IsResolved, resolve_gatt_paths-IsResolved}
use aelkey.Gatt.Backend.{lazy_init}
use aelkey.Gatt.Pump.{pump_messages, Drains, turns, pump_messages-ends}

abbrev no_patterns : String → Option (String → Match)
no_patterns s = none

abbrev band_path : String
band_path = "/org/bluez/hci0/dev_AA"

abbrev service_path : String
service_path = "/org/bluez/hci0/dev_AA/service000a"

abbrev objects : List GattObject
objects =
    record {
      path = band_path;
      interfaces = ("org.bluez.Device1", ("Alias", text "Band") ∷ []) ∷ [];
    }
    ∷ record { path = service_path; interfaces = ("org.bluez.GattService1", []) ∷ [] }
    ∷ []

-- The service 0x0a of the device that is called Band.
abbrev band : InputDecl
band = record default_input { id = "band"; type = "gatt"; name = "Band"; service = pos 10 }

resolved : (resolve_gatt_paths no_patterns band false (some objects)).0 ≡ service_path
unfolding resolve_gatt_paths is_empty_list get_matching_devices read_device match_string
    looks_like_regex back_is has_infix get_matching_services handle_after as_int strtoul16 size
    hex_value first_string
resolved = refl

not_empty : is_empty (resolve_gatt_paths no_patterns band false (some objects)).0 ≡ false
not_empty = rw resolved refl

resolve_gatt_paths-IsResolved_example :
    IsResolved no_patterns band objects (resolve_gatt_paths no_patterns band false (some objects)).0
resolve_gatt_paths-IsResolved_example =
    resolve_gatt_paths-IsResolved no_patterns band objects false not_empty

digits : hex4 0xBEEF ≡ "BEEF"
unfolding hex4 ◌<>◌
digits = refl

abbrev known : Map String String
known = ("band", band_path) ∷ []

has_path : find "band" known ≡ some band_path
unfolding find
has_path = refl

no_s : has_infix band_path "s" ≡ false
unfolding has_infix
no_s = refl

resolve_char_path_roundtrip_example :
    let path = resolve_char_path known "band" (pos 10) (pos 300) in
    (classify_gatt_path path ≡ characteristic_path)
    × (derive_device_path_from_char_path path ≡ band_path)
    × (handle_after path "service" ≡ some 10)
resolve_char_path_roundtrip_example =
    resolve_char_path_roundtrip known "band" band_path 10 300 has_path refl no_s (omega arith)
      (omega arith) (omega arith) (omega arith)

described :
    inspect_line "/dev_AA/service000a/char000b" "0000180f-0000-1000-8000-00805f9b34fb"
      ("read" ∷ "notify" ∷ [])
    ≡ "-- service=0x000a, char=0x000b, -- uuid=34fb, flags=[read, notify]"
unfolding inspect_line ◌<>◌ size drop prefix strstr starts_with
described = refl

abbrev popped : List Message → List Message × Option Message
popped [] = ([], none)
popped (m ∷ ms) = (ms, some m)

abbrev Waiting : Type 0
Waiting = List Message

abbrev system_bus : Bus Waiting
system_bus = record {
  get = λ w. (w, true);
  unix_fd = λ w. (w, some (pos 9));
  objects = λ w. (w, some objects);
  flags = λ w path. (w, none);
  add_match = λ w rule. w;
  flush = λ w. w;
  start_notify = λ w path. w;
  stop_notify = λ w path. w;
  read_value = λ w path. (w, none);
  write_value = λ w path bytes resp. (w, true);
  read_write = λ w. w;
  pop = popped;
}

abbrev kernel : Epoll Waiting
kernel = record { add = λ w fd events. (w, pos 0); del = λ w fd. w }

abbrev silent : AppLua (GattState Waiting)
silent = record {
  is_function = λ app name. true;
  call = λ name t app. app;
  inputs = λ app. [];
  outputs = λ app. [];
}

abbrev how_many : Waiting → ℕ
how_many [] = 0
how_many (m ∷ ms) = suc (how_many ms)

taken : (w : Waiting) (msg : Message) → (popped w).1 ≡ some msg → how_many (popped w).0 < how_many w
taken [] msg e = cc
taken (m ∷ ms) msg e = omega arith

emptied : (w : Waiting) → (popped w).1 ≡ none → how_many (popped w).0 ≡ 0
emptied [] e = refl
emptied (m ∷ ms) e = cc

drains : Drains silent kernel system_bus how_many
drains = record { taken = taken; empty = emptied; quiet = λ f t app. omega arith }

abbrev two_signals : App (GattState Waiting)
two_signals = start (record {
  world =
      record { path = some "/a"; interface = some "org.bluez.GattCharacteristic1"; changes = [] }
      ∷ record { path = none; interface = none; changes = [] }
      ∷ [];
  base = empty_base;
  initialized = false;
  dispatcher_initialized = false;
  conn = false;
  fd = minus_one;
  gatt_paths = [];
})

three_turns : turns silent kernel system_bus how_many drains two_signals ≡ 3
unfolding lazy_init register_fd
three_turns = refl

enough : turns silent kernel system_bus how_many drains two_signals ≤ 5
enough = rw three_turns (omega arith)

pump_messages-ends_example :
    (app1 : App (GattState Waiting)) × (pump_messages silent kernel system_bus
        (turns silent kernel system_bus how_many drains two_signals)
        two_signals
      ≡ some app1)
    × (pump_messages silent kernel system_bus 5 two_signals ≡ some app1)
    × (((lazy_init kernel system_bus two_signals.devices).conn
          && is_some (system_bus.pop app1.devices.world).1)
        ≡ false)
pump_messages-ends_example =
    pump_messages-ends silent kernel system_bus how_many drains two_signals 5 enough
