-- ===== src/Evdev/Lawful.antt =====
-- The evdev backend keeps what the device manager relies on.
use aelkey.Base.{
  ℕ, ℤ, String, true, Option, some, find, insert, string_key, is_negative, ◌≡◌, refl, arith,
  Option-cases, Bool-cases, inl, inr, ◌⊎◌,
}
use aelkey.Dispatcher.{Epoll}
use aelkey.Device.Decl.{InputDecl}
use aelkey.Device.App.{App}
use aelkey.Device.Manager.{Backend}
use aelkey.Device.Attach.{IsLawful}
use aelkey.Device.Single.{KeepsTable, single, single-IsLawful}
use aelkey.Evdev.Defs.{DispatcherEvdev, Libevdev, opened, open_device, close_device, evdev_detach}

module _ {W : Type 0} (epoll : Epoll W) (lib : Libevdev W)
    (sink : App (DispatcherEvdev W) → String → ℤ → App (DispatcherEvdev W))
    (matches : App (DispatcherEvdev W) → InputDecl → App (DispatcherEvdev W) × Option String) where
  -- `DeviceBackendEvdev`; `matches` is its enumeration of the input devices.
  abbrev pub evdev_backend : Backend (DispatcherEvdev W)
  evdev_backend = record {
    match = matches;
    attach = open_device epoll lib sink;
    detach = evdev_detach epoll lib;
  }

  module _
      (sink_map : (app : App (DispatcherEvdev W)) (id : String) (fd : ℤ)
        → (sink app id fd).input_map ≡ app.input_map) where
    input_map-opened :
        (app : App (DispatcherEvdev W)) (decl : InputDecl) (idev : ℕ)
        → (opened epoll lib sink app decl idev).input_map ≡ app.input_map
    unfolding opened
    input_map-opened app decl idev = elim (Bool-cases (lib.has_ff app.devices.world idev)) [
      | inl e ↦ rw (e, opened) (sink_map _ decl.id decl.fd)
      | inr e ↦ rw (e, opened) refl
    ]

    input_map-open_device :
        (app : App (DispatcherEvdev W)) (node : String) (decl : InputDecl)
        → (open_device epoll lib sink app node decl).0.input_map ≡ app.input_map
    unfolding open_device
    input_map-open_device app node decl =
        let (w, fd) = lib.open_node app.devices.world node in
        let (w1, idev) = lib.new_from_fd w fd in
        elim (Bool-cases (is_negative fd)) [
          | inl e ↦ rw (e, open_device) refl
          | inr e ↦ elim (Option-cases idev) [
            | inl f ↦ rw (e, f, open_device) refl
            | inr (i, f) ↦ rw (e, f, open_device) (input_map-opened _ (record decl { fd = fd }) i)
          ]
        ]

    id-open_device :
        (app : App (DispatcherEvdev W)) (node : String) (decl : InputDecl)
        → (open_device epoll lib sink app node decl).1.id ≡ decl.id
    unfolding open_device
    id-open_device app node decl = ground arith

    id-close_device :
        (d : DispatcherEvdev W) (decl : InputDecl) → (close_device epoll lib d decl).1.id ≡ decl.id
    unfolding close_device
    id-close_device d decl = ground arith

    input_map-evdev_detach :
        (app : App (DispatcherEvdev W)) (id : String)
        → ((evdev_detach epoll lib app id).0.input_map ≡ app.input_map)
          ⊎ ((decl decl' : InputDecl) × ((evdev_detach epoll lib app id).1 ≡ true)
              × (find id app.input_map ≡ some decl)
              × (decl'.id ≡ decl.id)
              × ((evdev_detach epoll lib app id).0.input_map ≡ insert id decl' app.input_map))
    unfolding evdev_detach
    input_map-evdev_detach app id = elim (Option-cases (find id app.input_map)) [
      | inl e ↦ inl (rw (e, evdev_detach) refl)
      | inr (decl, e) ↦
          let closed = (close_device epoll lib app.devices decl).1 in
          inr (
            decl,
            closed,
            rw (e, evdev_detach) refl,
            e,
            id-close_device app.devices decl,
            rw (e, evdev_detach) refl,
          )
    ]

    -- Opening a node leaves the table of devices alone and keeps the declaration's identifier;
    -- closing a device changes no entry but its own, and that only when it succeeds.
    pub evdev_backend-KeepsTable :
        ((app : App (DispatcherEvdev W)) (decl : InputDecl)
          → (matches app decl).0.input_map ≡ app.input_map)
        → KeepsTable evdev_backend
    evdev_backend-KeepsTable finds = record {
      match_map = finds;
      attach_map = input_map-open_device;
      attach_id = id-open_device;
      detach_map = input_map-evdev_detach;
    }

    -- The evdev backend alone keeps what the device manager relies on. This holds where the
    -- enumeration of the input devices, the start of a dispatcher and the registration of a haptics
    -- sink leave the table alone.
    pub only_evdev-IsLawful :
        (init : App (DispatcherEvdev W) → String → App (DispatcherEvdev W))
        → ((app : App (DispatcherEvdev W)) (type : String)
            → (init app type).input_map ≡ app.input_map)
        → ((app : App (DispatcherEvdev W)) (decl : InputDecl)
            → (matches app decl).0.input_map ≡ app.input_map)
        → IsLawful (single evdev_backend init)
    only_evdev-IsLawful init starts finds =
        single-IsLawful evdev_backend (evdev_backend-KeepsTable finds) init starts
