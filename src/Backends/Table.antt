-- ===== src/Backends/Table.antt =====
-- The device manager's table: the four backends over one state of the program.
use aelkey.Base.{
  String, Bool, Option, some, Map, All, All-find, All-insert, [], insert, string_key, ◌≡◌, refl,
  Option-cases, inl, inr, find,
}
use aelkey.Device.App.{App}
use aelkey.Device.Manager.{Backend, Backends}
use aelkey.Device.Attach.{IsLawful}
use aelkey.Device.Single.{KeepsTable}
use aelkey.Backends.Registry.{Registry, get_dispatcher_for_type, init_dispatcher_for_type}

-- Where the state of one backend stands in that of all of them.
pub record Part (D S : Type 0) : Type 0 where
  pub of : D → S
  pub put : D → S → D

module _ {D S : Type 0} (part : Part D S) where
  abbrev pub seen : App D → App S
  seen app = record {
    devices = part.of app.devices;
    uinput_devices = app.uinput_devices;
    input_map = app.input_map;
    frames = app.frames;
    loop_should_stop = app.loop_should_stop;
    input_decls = app.input_decls;
    output_decls = app.output_decls;
    watch_map = app.watch_map;
    on_watchlist = app.on_watchlist;
  }

  abbrev pub back : App D → App S → App D
  back app s = record {
    devices = part.put app.devices s.devices;
    uinput_devices = s.uinput_devices;
    input_map = s.input_map;
    frames = s.frames;
    loop_should_stop = s.loop_should_stop;
    input_decls = s.input_decls;
    output_decls = s.output_decls;
    watch_map = s.watch_map;
    on_watchlist = s.on_watchlist;
  }

  -- A backend as it works on the whole state.
  abbrev pub widened : Backend S → Backend D
  widened b = record {
    match = λ app decl. let (s, node) = b.match (seen app) decl in (back app s, node);
    attach = λ app node decl.
        let (s, decl', ok) = b.attach (seen app) node decl in (back app s, decl', ok);
    detach = λ app id. let (s, ok) = b.detach (seen app) id in (back app s, ok);
  }

  pub widened-KeepsTable : (b : Backend S) → KeepsTable b → KeepsTable (widened b)
  widened-KeepsTable b keeps = record {
    match_map = λ app decl. keeps.match_map (seen app) decl;
    attach_map = λ app node decl. keeps.attach_map (seen app) node decl;
    attach_id = λ app node decl. keeps.attach_id (seen app) node decl;
    detach_map = λ app id. keeps.detach_map (seen app) id;
  }

module _ {D : Type 0} (evdev hidraw libusb gatt : Backend D) (registry : Registry (App D)) where
  -- `backends_`, as the constructor of the device manager fills it.
  unfoldable pub backends : Map String (Backend D)
  backends =
      insert "gatt" gatt (insert "libusb" libusb (insert "hidraw" hidraw (insert "evdev" evdev [])))

  unfoldable pub backend_for_type : String → Option (Backend D)
  unfolding backends
  backend_for_type type = find type backends

  unfoldable pub all_backends : Backends D
  unfolding backend_for_type init_dispatcher_for_type
  all_backends = record {
    for_type = backend_for_type;
    init_dispatcher = λ app type. (init_dispatcher_for_type registry app type).0;
  }

  module _ (evdev_keeps : KeepsTable evdev) (hidraw_keeps : KeepsTable hidraw)
      (libusb_keeps : KeepsTable libusb) (gatt_keeps : KeepsTable gatt)
      (registry_keeps : (type : String) (init : App D → App D × Bool)
        → get_dispatcher_for_type registry type ≡ some init
        → (app : App D) → (init app).0.input_map ≡ app.input_map) where
    abbrev Keeps : String × Backend D → Type 0
    Keeps p = KeepsTable p.1

    backends-Keeps : All Keeps backends
    unfolding backends
    backends-Keeps = All-insert Keeps "gatt" gatt _ gatt_keeps (
        All-insert Keeps "libusb" libusb _ libusb_keeps (
          All-insert Keeps "hidraw" hidraw _ hidraw_keeps
            (All-insert Keeps "evdev" evdev [] evdev_keeps tt)))

    backend_for_type-KeepsTable :
        (type : String) (b : Backend D) → backend_for_type type ≡ some b → KeepsTable b
    unfolding backend_for_type
    backend_for_type-KeepsTable type b e = All-find Keeps type backends e backends-Keeps

    started :
        (app : App D) (type : String)
        → (init_dispatcher_for_type registry app type).0.input_map ≡ app.input_map
    unfolding init_dispatcher_for_type
    started app type = elim (Option-cases (get_dispatcher_for_type registry type)) [
      | inl e ↦ rw (e, init_dispatcher_for_type) refl
      | inr (init, e) ↦ rw (e, init_dispatcher_for_type) (registry_keeps type init e app)
    ]

    -- Backends that keep the table of devices make a table of backends that can be relied on.
    pub all_backends-IsLawful : IsLawful all_backends
    unfolding all_backends
    all_backends-IsLawful = record {
      match_map = λ type b app decl e. (backend_for_type-KeepsTable type b e).match_map app decl;
      attach_map =
          λ type b app node decl e. (backend_for_type-KeepsTable type b e).attach_map app node decl;
      attach_id =
          λ type b app node decl e. (backend_for_type-KeepsTable type b e).attach_id app node decl;
      detach_map = λ type b app id e. (backend_for_type-KeepsTable type b e).detach_map app id;
      init_map = started;
    }
