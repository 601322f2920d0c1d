-- ===== src/Device/Hotplug.antt =====
-- source/dispatcher_udev.cc: what an event of the udev monitor does. The monitor is an interface:
-- it yields the action and the device of the next event.
use aelkey.Base.{
  ℕ, String, Bool, ◌&&◌, ◌||◌, not, List, [], ◌∷◌, Option, none, some, Map, find, insert, contains,
  string_key, ◌==◌, if◌then◌else◌, is_empty, suc,
}
use aelkey.Lua.{or_else}
use aelkey.Device.Decl.{InputDecl}
use aelkey.Device.App.{App, AppLua, set, notify_state_change}
use aelkey.Device.Manager.{Backends, match, attach, detach, detach_in_entry}

-- udev_device_get_subsystem, udev_device_get_devnode, udev_device_get_syspath
pub record UdevDevice : Type 0 where
  pub subsystem : Option String
  pub devnode : Option String
  pub syspath : Option String

-- The node that an event of the device would give the declaration, if it is one of its kind.
unfoldable pub node_for : UdevDevice → String → InputDecl → Option String
node_for dev subsystem decl =
    if (decl.type == "evdev" && subsystem == "input")
      || (decl.type == "hidraw" && subsystem == "hidraw")
    then some (or_else dev.devnode "")
    else if decl.type == "libusb" && subsystem == "usb"
    then dev.syspath
    else none

module _ {D : Type 0} where
  -- A write through the reference to a declaration of `input_decls`.
  abbrev pub set_decl : App D → ℕ → InputDecl → App D
  set_decl app i decl = record app { input_decls = set app.input_decls i decl }

  -- A write through the reference to a declaration of the watchlist.
  abbrev pub set_watch : App D → String → ℕ → InputDecl → App D
  set_watch app ref i decl = elim (find ref app.watch_map) [
    | none ↦ app
    | some decls ↦ record app { watch_map = insert ref (set decls i decl) app.watch_map }
  ]

  -- The two nested loops over the watchlist, with either body.
  abbrev pub watch_entry :
      (String → ℕ → InputDecl → App D → App D) → String → ℕ → List InputDecl → App D → App D
  watch_entry body ref i [] app = app
  watch_entry body ref i (decl ∷ decls) app =
      watch_entry body ref (suc i) decls (body ref i decl app)

  -- Entries that a callback adds to the map while it is walked are not visited here.
  abbrev pub watch_loop :
      (String → ℕ → InputDecl → App D → App D) → Map String (List InputDecl) → App D → App D
  watch_loop body [] app = app
  watch_loop body ((ref, decls) ∷ entries) app =
      watch_loop body entries (watch_entry body ref 0 decls app)

module _ {D : Type 0} (lua : AppLua D) (backends : Backends D) where
  -- The body of the inner watchlist loop of `handle_udev_add`.
  unfoldable pub watch_add : UdevDevice → String → String → ℕ → InputDecl → App D → App D
  watch_add dev subsystem ref i decl app =
      let (app1, matched) = match backends app decl in
      elim matched [
        | none ↦ app1
        | some m ↦ elim (node_for dev subsystem decl) [
          | none ↦ app1
          | some node ↦
              let decl1 = record decl { devnode = node; on_state = app1.on_watchlist } in
              if m == node
              then notify_state_change lua (set_watch app1 ref i decl1) decl1 "add"
              else app1
        ]
      ]

  -- The body of the inner watchlist loop of `handle_udev_remove`.
  unfoldable pub watch_remove : UdevDevice → String → String → ℕ → InputDecl → App D → App D
  watch_remove dev subsystem ref i decl app = elim (node_for dev subsystem decl) [
    | none ↦ app
    | some node ↦
        let decl1 = record decl { on_state = app.on_watchlist } in
        let app1 = notify_state_change lua (set_watch app ref i decl1) decl1 "remove" in
        if decl.devnode == node then set_watch app1 ref i (record decl1 { devnode = "" }) else app
  ]

  -- Where the node of an added device matches the declaration at `i`.
  unfoldable pub attach_new : String → ℕ → InputDecl → App D → App D
  attach_new node i decl app =
      if contains decl.id app.input_map
      then app
      else let (app1, decl1, ok) = attach backends app node decl in
        let decl2 = record decl1 { devnode = node } in
        if ok
        then notify_state_change lua (set_decl app1 i decl2) decl2 "add"
        else set_decl app1 i decl1

  -- The loop over `input_decls` of `handle_udev_add`, from index `i`.
  unfoldable pub input_add : UdevDevice → String → ℕ → List InputDecl → App D → App D
  unfolding attach_new
  input_add dev subsystem i [] app = app
  input_add dev subsystem i (decl ∷ decls) app =
      let (app1, matched) = match backends app decl in
      let rest = input_add dev subsystem (suc i) decls app1 in
      elim matched [
        | none ↦ rest
        | some m ↦ elim (node_for dev subsystem decl) [
          | none ↦ rest
          | some node ↦ if m == node then attach_new node i decl app1 else rest
        ]
      ]

  -- Detaches a device and tells its state callback.
  unfoldable pub detach_removed : String → App D → App D
  detach_removed id app =
      let (app1, removed) = detach backends app id in
      elim removed [
        | none ↦ app1
        | some decl ↦ if is_empty decl.id then app1 else notify_state_change lua app1 decl "remove"
      ]

  -- The same for a device that hangs up: the identifier is the one that stands in its entry.
  unfoldable pub hang_up : String → App D → Option (App D)
  unfolding detach_in_entry
  hang_up id app = elim (detach_in_entry backends app id) [
    | none ↦ none
    | some (app1, removed) ↦ some (elim removed [
      | none ↦ app1
      | some decl ↦ if is_empty decl.id then app1 else notify_state_change lua app1 decl "remove"
    ])
  ]

  -- The loop over `input_decls` of `handle_udev_remove`.
  unfoldable pub input_remove : UdevDevice → String → List InputDecl → App D → App D
  unfolding detach_removed
  input_remove dev subsystem [] app = app
  input_remove dev subsystem (decl ∷ decls) app =
      let rest = input_remove dev subsystem decls app in
      elim (node_for dev subsystem decl) [
        | none ↦ rest
        | some node ↦ if decl.devnode == node then detach_removed decl.id app else rest
      ]

  unfoldable pub handle_udev_add : UdevDevice → App D → App D
  unfolding watch_add input_add
  handle_udev_add dev app = elim dev.subsystem [
    | none ↦ app
    | some subsystem ↦
        let app1 = watch_loop (watch_add dev subsystem) app.watch_map app in
        input_add dev subsystem 0 app1.input_decls app1
  ]

  unfoldable pub handle_udev_remove : UdevDevice → App D → App D
  unfolding watch_remove input_remove
  handle_udev_remove dev app = elim dev.subsystem [
    | none ↦ app
    | some subsystem ↦
        let app1 = watch_loop (watch_remove dev subsystem) app.watch_map app in
        input_remove dev subsystem app1.input_decls app1
  ]

  -- `receive` is `udev_monitor_receive_device`: the action of the next event and its device.
  unfoldable pub handle_event :
      (App D → App D × Option (Option String × UdevDevice)) → Bool → App D → App D
  unfolding handle_udev_add handle_udev_remove
  handle_event receive epollin app =
      let (app1, event) = receive app in
      if not epollin then app else elim event [
        | none ↦ app1
        | some (action, dev) ↦ elim action [
          | none ↦ app1
          | some a ↦
              if a == "add"
              then handle_udev_add dev app1
              else if a == "remove"
              then handle_udev_remove dev app1
              else app1
        ]
      ]
