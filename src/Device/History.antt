-- ===== src/Device/History.antt =====
-- The histories of the device layer, from the program's start.
use aelkey.Base.{
  no_items, ℕ, suc, String, false, not, ◌&&◌, ◌||◌, List, [], ◌∷◌, Option, none, some, string_key,
  ◌==◌, ◌≡◌, Option-cases, Bool-cases, inl, inr,
}
use aelkey.Lua.{Value, Table}
use aelkey.Device.Decl.{InputDecl}
use aelkey.Device.App.{App, AppLua}
use aelkey.Device.Parser.{EventNames}
use aelkey.Device.Manager.{Backends, match, attach}
use aelkey.Device.Attach.{IsLawful}
use aelkey.Device.Hotplug.{UdevDevice, set_decl, handle_udev_add, handle_udev_remove, hang_up}
use aelkey.Device.Entry.{
  open_one, attach_from, attach_inputs_from_decls, open_named, device_open, device_close, parse_all,
  parse_inputs_from_lua, parse_outputs_from_lua,
}
use aelkey.Device.Daemon.{daemon_set_callback, daemon_watch, daemon_unwatch}
use aelkey.Device.Watch.{input_map-daemon_set_callback, input_map-daemon_watch}
use aelkey.Device.Keyed.{IsKeyed, IsKeyed-match, IsKeyed-attach, IsKeyed-detach, IsKeyed-notify}
use aelkey.Device.KeyedUdev.{IsKeyed-hang_up, IsKeyed-handle_udev_add, IsKeyed-handle_udev_remove}

-- `AelkeyState` before anything is opened.
abbrev pub start : {D : Type 0} → D → App D
start d = record {
  devices = d;
  uinput_devices = [];
  input_map = [];
  frames = [];
  loop_should_stop = false;
  input_decls = [];
  output_decls = [];
  watch_map = [];
  on_watchlist = "";
}

module _ {D : Type 0} (lua : AppLua D) (backends : Backends D) (names : EventNames)
    (create_outputs : App D → App D) where
  -- One call from Lua, one udev event, or the hang-up of a device.
  pub data Step (app : App D) : App D → Type 0 where
    opened :
        (id : Option String) → Step app (device_open lua backends names create_outputs app id).0
    closed : (id : String) → Step app (device_close lua backends names create_outputs app id).0
    added : (dev : UdevDevice) → Step app (handle_udev_add lua backends dev app)
    removed : (dev : UdevDevice) → Step app (handle_udev_remove lua backends dev app)
    hung_up : {app1 : App D} (id : String) → hang_up lua backends id app ≡ some app1 → Step app app1
    callback : (v : Value) → Step app (daemon_set_callback app v).0
    watched : (ref : String) (t : Table) → Step app (daemon_watch names app ref t).0
    unwatched : (ref : String) → Step app (daemon_unwatch app ref)

  pub data Reach (d : D) : App D → Type 0 where
    here : Reach d (start d)
    next : {app app1 : App D} → Reach d app → Step app app1 → Reach d app1

  module _ (laws : IsLawful backends)
      (calls : (name : String) (t : Table) (app : App D)
        → IsKeyed app
        → IsKeyed (lua.call name t app))
      (outputs : (app : App D) → (create_outputs app).input_map ≡ app.input_map) where
    IsKeyed-open_one :
        (i : ℕ) (decl : InputDecl) (app : App D)
        → IsKeyed app
        → IsKeyed (open_one lua backends names create_outputs i decl app).0
    unfolding open_one
    IsKeyed-open_one i decl app k =
        let app1 = (match backends app decl).0 in
        let k1 : IsKeyed app1 = IsKeyed-match backends laws app decl k in
        elim (Option-cases (match backends app decl).1) [
          | inl e ↦ rw (e, open_one) k1
          | inr (node, e) ↦
              let s = attach backends app1 node decl in
              let k2 : IsKeyed s.0 = IsKeyed-attach backends laws app1 node decl k1 in
              elim (Bool-cases s.2) [
                | inl o ↦
                    let decl2 : InputDecl = record s.1 { devnode = node } in
                    rw (e, o, open_one)
                      (IsKeyed-notify backends laws lua calls (set_decl s.0 i decl2) decl2 "add" k2)
                | inr o ↦ rw (e, o, open_one) k2
              ]
        ]

    IsKeyed-attach_from :
        (i : ℕ) (decls : List InputDecl) (app : App D)
        → IsKeyed app
        → IsKeyed (attach_from lua backends names create_outputs i decls app)
    unfolding attach_from
    IsKeyed-attach_from i [] app k = k
    IsKeyed-attach_from i (decl ∷ decls) app k =
        IsKeyed-attach_from (suc i) decls _ (IsKeyed-open_one i decl app k)

    IsKeyed-open_named :
        (id : String) (i : ℕ) (decls : List InputDecl) (app : App D)
        → IsKeyed app
        → IsKeyed (open_named lua backends names create_outputs id i decls app).0
    unfolding open_named
    IsKeyed-open_named id i [] app k = k
    IsKeyed-open_named id i (decl ∷ decls) app k =
        let s = open_one lua backends names create_outputs i decl app in
        let k1 : IsKeyed s.0 = IsKeyed-open_one i decl app k in
        elim (Bool-cases (decl.id == id)) [
          | inl e ↦ elim (Bool-cases s.1) [
            | inl f ↦ rw (e, f, open_named) k1
            | inr f ↦ rw (e, f, open_named) (IsKeyed-open_named id (suc i) decls s.0 k1)
          ]
          | inr e ↦ rw (e, open_named) (IsKeyed-open_named id (suc i) decls app k)
        ]

    IsKeyed-parse_all :
        (app : App D)
        → IsKeyed app
        → IsKeyed (create_outputs (parse_all lua backends names create_outputs app))
    unfolding parse_inputs_from_lua parse_outputs_from_lua
    IsKeyed-parse_all app k = rw (outputs (parse_all lua backends names create_outputs app)) k

    IsKeyed-device_open :
        (app : App D) (id : Option String)
        → IsKeyed app
        → IsKeyed (device_open lua backends names create_outputs app id).0
    unfolding device_open attach_inputs_from_decls
    IsKeyed-device_open app none k =
        let app1 = create_outputs (parse_all lua backends names create_outputs app) in
        elim (Bool-cases (not (no_items app.input_map) || not (no_items app.uinput_devices))) [
          | inl e ↦ rw (e, device_open) k
          | inr e ↦
              rw (e, device_open)
                (IsKeyed-attach_from 0 app1.input_decls app1 (IsKeyed-parse_all app k))
        ]
    IsKeyed-device_open app (some id) k =
        let app1 = create_outputs (parse_all lua backends names create_outputs app) in
        elim (Bool-cases (no_items app.input_decls && no_items app.output_decls)) [
          | inl e ↦
              rw (e, device_open)
                (IsKeyed-open_named id 0 app1.input_decls app1 (IsKeyed-parse_all app k))
          | inr e ↦ rw (e, device_open) (IsKeyed-open_named id 0 app.input_decls app k)
        ]

    Step-IsKeyed : {app app1 : App D} → Step app app1 → IsKeyed app → IsKeyed app1
    unfolding device_close daemon_unwatch
    Step-IsKeyed (opened id) k = IsKeyed-device_open _ id k
    Step-IsKeyed (closed id) k = IsKeyed-detach backends laws _ id k
    Step-IsKeyed (added dev) k = IsKeyed-handle_udev_add backends laws lua calls dev _ k
    Step-IsKeyed (removed dev) k = IsKeyed-handle_udev_remove backends laws lua calls dev _ k
    Step-IsKeyed (hung_up id e) k = IsKeyed-hang_up backends laws lua calls id _ k e
    Step-IsKeyed (callback v) k = rw (input_map-daemon_set_callback _ v) k
    Step-IsKeyed (watched ref t) k = rw (input_map-daemon_watch names _ ref t) k
    Step-IsKeyed (unwatched ref) k = k

    -- After any history of opens, closes, udev events, watchlist calls and hang-ups from the
    -- program's start, each attached device stands in the table under its own identifier; a
    -- hang-up that reads the identifier it has erased ends the history. Here the backends are
    -- lawful, the creation of outputs leaves the table alone, and a Lua callback that finds the
    -- table in this form leaves it so.
    pub Reach-IsKeyed : {d : D} {app : App D} → Reach d app → IsKeyed app
    Reach-IsKeyed here = tt
    Reach-IsKeyed (next r s) = Step-IsKeyed s (Reach-IsKeyed r)
