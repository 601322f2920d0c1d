-- ===== src/Evdev/Defs.antt =====
-- The state of `DispatcherEvdev`, and how a device is opened, grabbed and closed. The dispatcher's
-- state stands in the `devices` of the shared state.
use aelkey.Base.{
  ℕ, ℤ, zero, suc, pos, String, Bool, true, false, not, ◌||◌, [], Option, none, some, Map, find,
  insert, erase, is_negative, minus_one, if◌then◌else◌, int_key, string_key, eqb_ℤ,
}
use aelkey.Dispatcher.{Epoll, DispatcherBase, register_fd, unregister_fd}
use aelkey.Device.Decl.{InputDecl}
use aelkey.Device.App.{App}

-- `devices` is fd → device id, `idev_map` fd → libevdev handle, `grab_needed` fd → flag.
pub record DispatcherEvdev (W : Type 0) : Type 0 where
  pub world : W
  pub base : DispatcherBase
  pub devices : Map ℤ String
  pub idev_map : Map ℤ ℕ
  pub grab_needed : Map ℤ Bool

-- The calls of libevdev and on descriptors. `key_bits` is EVIOCGKEY, none where it fails;
-- `fetch_value` is libevdev_fetch_event_value of EV_KEY, none where it fails.
pub record Libevdev (W : Type 0) : Type 0 where
  pub open_node : W → String → W × ℤ
  pub close : W → ℤ → W
  pub new_from_fd : W → ℤ → W × Option ℕ
  pub has_ff : W → ℕ → Bool
  pub key_bits : W → ℤ → Option (ℕ → Bool)
  pub fetch_value : W → ℕ → ℕ → Option ℤ
  pub grab : W → ℕ → W × ℤ
  pub ungrab : W → ℕ → W
  pub free : W → ℕ → W

-- KEY_MAX + 1
abbrev pub key_count : ℕ
key_count = 0x300

-- Some code below `n` passes the test.
unfoldable pub any_below : ℕ → (ℕ → Bool) → Bool
any_below zero p = false
any_below (suc n) p = p n || any_below n p

module _ {W : Type 0} (epoll : Epoll W) (lib : Libevdev W) where
  -- The kernel or libevdev thinks that a key is down.
  unfoldable pub key_down : W → ℤ → ℕ → Bool
  unfolding any_below
  key_down w fd idev =
      (elim (lib.key_bits w fd) [ none ↦ false | some bits ↦ any_below key_count bits ])
      || any_below key_count
          (λ code. elim (lib.fetch_value w idev code) [ none ↦ false | some v ↦ eqb_ℤ v (pos 1) ])

  unfoldable pub try_evdev_grab : DispatcherEvdev W → InputDecl → DispatcherEvdev W × Bool
  unfolding key_down
  try_evdev_grab d decl = elim (find decl.fd d.grab_needed) [
    | none ↦ (d, false)
    | some needed ↦ if not needed then (d, false) else elim (find decl.fd d.idev_map) [
      | none ↦ (d, false)
      | some idev ↦
          if key_down d.world decl.fd idev
          then (d, false)
          else let (w, rc) = lib.grab d.world idev in
            if is_negative rc
            then (record d { world = w }, false)
            else (record d { world = w; grab_needed = insert decl.fd false d.grab_needed }, true)
    ]
  ]

  -- The grab that `open_device` attempts.
  unfoldable pub initial_grab : DispatcherEvdev W → InputDecl → DispatcherEvdev W
  unfolding try_evdev_grab
  initial_grab d decl =
      if decl.grab
      then (try_evdev_grab (record d { grab_needed = insert decl.fd true d.grab_needed }) decl).0
      else d

  -- EPOLLIN | EPOLLHUP | EPOLLERR
  abbrev pub epoll_events : ℕ
  epoll_events = 0x19

  unfoldable pub watch_fd : DispatcherEvdev W → InputDecl → DispatcherEvdev W
  watch_fd d decl =
      let (w, b) = register_fd epoll d.world d.base decl.fd epoll_events in
      record d { world = w; base = b; devices = insert decl.fd decl.id d.devices }

  -- `register_sink` is that of the haptics dispatcher.
  module _ (register_sink : App (DispatcherEvdev W) → String → ℤ → App (DispatcherEvdev W)) where
    abbrev set_state : App (DispatcherEvdev W) → DispatcherEvdev W → App (DispatcherEvdev W)
    set_state app d = record app { devices = d }

    -- Past the creation of the libevdev handle.
    unfoldable pub opened : App (DispatcherEvdev W) → InputDecl → ℕ → App (DispatcherEvdev W)
    unfolding initial_grab watch_fd
    opened app decl idev =
        let d = app.devices in
        let app1 = record app {
          devices = record d { idev_map = insert decl.fd idev d.idev_map };
          frames = insert decl.id [] app.frames;
        } in
        let app2 = if lib.has_ff d.world idev then register_sink app1 decl.id decl.fd else app1 in
        set_state app2 (watch_fd (initial_grab app2.devices decl) decl)

    unfoldable pub open_device :
        App (DispatcherEvdev W) → String → InputDecl → App (DispatcherEvdev W) × InputDecl × Bool
    unfolding opened
    open_device app devnode decl =
        let (w, fd) = lib.open_node app.devices.world devnode in
        let decl1 = record decl { fd = fd } in
        let app1 = set_state app (record app.devices { world = w }) in
        if is_negative fd
        then (app1, decl1, false)
        else let (w1, idev) = lib.new_from_fd w fd in
          elim idev [
            | none ↦ (
              set_state app (record app.devices { world = lib.close w1 fd }),
              record decl { fd = minus_one },
              false,
            )
            | some i ↦
                (opened (set_state app (record app.devices { world = w1 })) decl1 i, decl1, true)
          ]

  -- `unregister_fd`, and what is known of an open descriptor.
  unfoldable pub forget_fd : DispatcherEvdev W → ℤ → DispatcherEvdev W
  forget_fd d fd =
      let (w, b) = unregister_fd epoll d.world d.base fd in
      record d {
        world = w;
        base = b;
        devices = erase fd d.devices;
        grab_needed = erase fd d.grab_needed;
      }

  unfoldable pub free_idev : DispatcherEvdev W → ℤ → DispatcherEvdev W
  free_idev d fd =
      let d1 = record d { idev_map = erase fd d.idev_map } in
      elim (find fd d.idev_map) [
        | none ↦ d1
        | some idev ↦ record d1 { world = lib.free (lib.ungrab d.world idev) idev }
      ]

  unfoldable pub close_device : DispatcherEvdev W → InputDecl → DispatcherEvdev W × InputDecl
  unfolding forget_fd free_idev
  close_device d decl =
      if is_negative decl.fd
      then (free_idev d decl.fd, decl)
      else let d1 = free_idev (forget_fd d decl.fd) decl.fd in
        (record d1 { world = lib.close d1.world decl.fd }, record decl { fd = minus_one })

  -- `DeviceBackendEvdev::detach`. The declaration in the table is changed through the reference.
  unfoldable pub evdev_detach : App (DispatcherEvdev W) → String → App (DispatcherEvdev W) × Bool
  unfolding close_device
  evdev_detach app id = elim (find id app.input_map) [
    | none ↦ (app, false)
    | some decl ↦
        let (d, decl1) = close_device app.devices decl in
        (record app { devices = d; input_map = insert id decl1 app.input_map }, true)
  ]
