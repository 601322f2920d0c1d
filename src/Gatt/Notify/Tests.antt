-- ===== src/Gatt/Notify/Tests.antt =====
-- Runs of attach and detach. The world is the list of the paths that are subscribed to.
use aelkey.Base.{
  pos, ==_iff, String, Bool, true, not, ◌&&◌, ◌||◌, List, [], ◌∷◌, Option, none, some, insert,
  string_key, ◌==◌, if◌then◌else◌, ◌≡◌, refl, arith, has_infix, size,
}
use aelkey.Dispatcher.{Epoll, empty_base}
use aelkey.Device.Decl.{InputDecl, default_input}
use aelkey.Device.Helpers.{Match, match_string, looks_like_regex, back_is}
use aelkey.Device.App.{App}
use aelkey.Device.History.{start}
use aelkey.Gatt.Bus.{GattObject, Bus, GattState, text}
use aelkey.Gatt.Hex.{strtoul16, as_int, hex_value}
use aelkey.Gatt.Paths.{classify_gatt_path, handle_after}
use aelkey.Gatt.Tree.{
  has_string, resolve_gatt_paths, is_empty_list, get_matching_devices, read_device,
  get_matching_services, get_matching_characteristics, first_string,
}
use aelkey.Gatt.Backend.{lazy_init, gatt_attach, gatt_detach}
use aelkey.Gatt.Notify.{Subscribes, wanted, gatt_attach-notifying, gatt_detach-gatt_attach}

abbrev no_patterns : String → Option (String → Match)
no_patterns s = none

abbrev band_path : String
band_path = "/org/bluez/hci0/dev_AA"

abbrev rate_path : String
rate_path = "/org/bluez/hci0/dev_AA/service000a/char000b"

abbrev objects : List GattObject
objects =
    record {
      path = band_path;
      interfaces = ("org.bluez.Device1", ("Alias", text "Band") ∷ []) ∷ [];
    }
    ∷ record {
      path = "/org/bluez/hci0/dev_AA/service000a";
      interfaces = ("org.bluez.GattService1", []) ∷ [];
    }
    ∷ record { path = rate_path; interfaces = ("org.bluez.GattCharacteristic1", []) ∷ [] }
    ∷ []

abbrev notify_flags : String → Option (List String)
notify_flags path = some ("notify" ∷ [])

abbrev Subscribed : Type 0
Subscribed = List String

abbrev without : String → Subscribed → Subscribed
without path [] = []
without path (s ∷ ss) = let rest = without path ss in if s == path then rest else s ∷ rest

abbrev notify_bus : Bus Subscribed
notify_bus = record {
  get = λ w. (w, true);
  unix_fd = λ w. (w, some (pos 9));
  objects = λ w. (w, some objects);
  flags = λ w path. (w, notify_flags path);
  add_match = λ w rule. w;
  flush = λ w. w;
  start_notify = λ w path. path ∷ w;
  stop_notify = λ w path. without path w;
  read_value = λ w path. (w, none);
  write_value = λ w path bytes resp. (w, true);
  read_write = λ w. w;
  pop = λ w. (w, none);
}

abbrev kernel : Epoll Subscribed
kernel = record { add = λ w fd events. (w, pos 0); del = λ w fd. w }

abbrev notifying : Subscribed → String → Bool
notifying w p = has_string p w

started : (w : Subscribed) (path p : String) → notifying (path ∷ w) p ≡ (path == p || notifying w p)
unfolding has_string
started w path p = refl

stopped :
    (w : Subscribed) (path p : String)
    → notifying (without path w) p ≡ (not (path == p) && notifying w p)
unfolding has_string
stopped [] path p = ground arith
stopped (s ∷ ss) path p = grind (arith, stopped ss path p, ==_iff s path, ==_iff s p, ==_iff path p)

laws : Subscribes notify_bus (some objects) notify_flags notifying
laws = record {
  same_tree = λ w. refl;
  same_flags = λ w path. refl;
  by_objects = λ w p. refl;
  by_flags = λ w path p. refl;
  by_match = λ w rule p. refl;
  by_flush = λ w p. refl;
  by_start = started;
  by_stop = stopped;
}

abbrev ready : App (GattState Subscribed)
ready = start (record {
  world = [];
  base = empty_base;
  initialized = true;
  dispatcher_initialized = true;
  conn = true;
  fd = pos 9;
  gatt_paths = [];
})

-- The device that is called Band.
abbrev band : InputDecl
band = record default_input { id = "band"; type = "gatt"; name = "Band" }

gatt_attach-notifying_example :
    let (app1, decl1, ok) = gatt_attach kernel notify_bus no_patterns ready band_path band in
    notifying app1.devices.world rate_path ≡ (
      (ok && wanted no_patterns (some objects) notify_flags band band_path rate_path)
      || notifying (lazy_init kernel notify_bus ready.devices).world rate_path)
gatt_attach-notifying_example =
    gatt_attach-notifying kernel notify_bus (some objects) notify_flags notifying laws no_patterns
      ready band_path band rate_path

rate_wanted : wanted no_patterns (some objects) notify_flags band band_path rate_path ≡ true
unfolding resolve_gatt_paths is_empty_list get_matching_devices read_device match_string
    looks_like_regex back_is has_infix get_matching_services get_matching_characteristics
    handle_after as_int strtoul16 size hex_value first_string classify_gatt_path has_string
rate_wanted = refl

attaches : (gatt_attach kernel notify_bus no_patterns ready band_path band).2 ≡ true
unfolding gatt_attach
attaches = ground arith

gatt_detach-gatt_attach_example :
    let (app1, decl1, ok) = gatt_attach kernel notify_bus no_patterns ready band_path band in
    let app2 = record app1 { input_map = insert "band" decl1 app1.input_map } in
    notifying (gatt_detach kernel notify_bus app2 "band").0.devices.world rate_path ≡ (
      not (band_path == rate_path)
      && (wanted no_patterns (some objects) notify_flags band band_path rate_path
          || notifying (lazy_init kernel notify_bus ready.devices).world rate_path))
gatt_detach-gatt_attach_example =
    gatt_detach-gatt_attach kernel notify_bus (some objects) notify_flags notifying laws no_patterns
      ready band_path band rate_path attaches
