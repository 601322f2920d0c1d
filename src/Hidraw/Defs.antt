-- ===== src/Hidraw/Defs.antt =====
-- `DispatcherHidraw`, and attach and detach of `DeviceBackendHidraw`.
use aelkey.Base.{
  ℕ, ℤ, ◌%◌, String, Bool, true, false, [], ◌∷◌, Option, none, some, Map, find, insert, erase,
  is_negative, is_zero, is_positive, is_empty, minus_one, eqb, if◌then◌else◌, int_key, string_key,
  ◌==◌,
}
use aelkey.Lua.{Table, str, int, empty, field}
use aelkey.Dispatcher.{Epoll, DispatcherBase, register_fd, unregister_fd}
use aelkey.Device.Decl.{InputDecl}
use aelkey.Device.App.{App, AppLua}

-- `devices` is fd → a copy of the declaration.
pub record HidrawState (W : Type 0) : Type 0 where
  pub world : W
  pub base : DispatcherBase
  pub devices : Map ℤ InputDecl

-- The calls on descriptors. `unblock` clears O_NONBLOCK where the flags can be read; `read` returns
-- its code and the bytes; `errno` is the text of the last error.
pub record Files (W : Type 0) : Type 0 where
  pub open_node : W → String → W × ℤ
  pub close : W → ℤ → W
  pub unblock : W → ℤ → W
  pub read : W → ℤ → ℕ → W × ℤ × String
  pub errno : W → String

-- The number of a declaration's map entry, for the first that has the identifier.
unfoldable pub fd_of : String → Map ℤ InputDecl → Option ℤ
fd_of id [] = none
fd_of id ((fd, decl) ∷ m) = let rest = fd_of id m in if decl.id == id then some fd else rest

module _ {W : Type 0} (epoll : Epoll W) (files : Files W) where
  unfoldable pub on_unregister : HidrawState W → ℤ → HidrawState W
  on_unregister d fd = record d { world = files.close d.world fd }

  -- Past the opening of the node.
  unfoldable pub add_device : HidrawState W → ℤ → InputDecl → HidrawState W
  add_device d fd decl =
      let w = if decl.grab then files.unblock d.world fd else d.world in
      let (w1, b) = register_fd epoll w d.base fd 1 in
      record d { world = w1; base = b; devices = insert fd decl d.devices }

  unfoldable pub open_device : HidrawState W → String → InputDecl → HidrawState W × ℤ
  unfolding add_device
  open_device d devnode decl =
      let (w, fd) = files.open_node d.world devnode in
      let d1 = record d { world = w } in
      if is_negative fd then (d1, minus_one) else (add_device d1 fd decl, fd)

  unfoldable pub remove_device : HidrawState W → String → HidrawState W
  unfolding fd_of
  remove_device d id = elim (fd_of id d.devices) [
    | none ↦ d
    | some fd ↦
        let (w, b) = unregister_fd epoll d.world d.base fd in
        record d { world = w; base = b; devices = erase fd d.devices }
  ]

  unfoldable pub hidraw_attach :
      App (HidrawState W) → String → InputDecl → App (HidrawState W) × InputDecl × Bool
  unfolding open_device
  hidraw_attach app devnode decl =
      let (d, fd) = open_device app.devices devnode decl in
      let app1 = record app { devices = d } in
      if is_negative fd
      then (app1, decl, false)
      else (app1, record decl { devnode = devnode; fd = fd }, true)

  unfoldable pub hidraw_detach : App (HidrawState W) → String → App (HidrawState W) × Bool
  unfolding remove_device
  hidraw_detach app id = (record app { devices = remove_device app.devices id }, true)

  -- What the script gets of a read: the bytes, that the device is gone, or an error.
  unfoldable pub report_event : InputDecl → ℤ → String → String → Table
  report_event decl r bytes error = field "device" (str decl.id) (
      if is_positive r
      then field "data" (str bytes) (field "size" (int r) (field "status" (str "ok") empty))
      else if is_zero r
      then field "status" (str "disconnect") empty
      else field "status" (str error) empty)

  module _ (lua : AppLua (HidrawState W)) where
    -- `events & EPOLLIN`, and at most 4096 bytes
    unfoldable pub handle_hidraw_event :
        App (HidrawState W) → ℤ → InputDecl → ℕ → App (HidrawState W)
    unfolding report_event
    handle_hidraw_event app fd decl events =
        let (w, r, bytes) = files.read app.devices.world fd 4096 in
        let app1 = record app { devices = record app.devices { world = w } } in
        if eqb (events % 2) 0
        then app
        else if is_empty decl.on_event
        then app1
        else if lua.is_function app1 decl.on_event
        then lua.call decl.on_event (report_event decl r bytes (files.errno w)) app1
        else app1

    unfoldable pub handle_event : App (HidrawState W) → ℤ → ℕ → App (HidrawState W)
    unfolding handle_hidraw_event
    handle_event app fd events = elim (find fd app.devices.devices) [
      | none ↦ app
      | some decl ↦ handle_hidraw_event app fd decl events
    ]
