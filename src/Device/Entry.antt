-- ===== src/Device/Entry.antt =====
-- source/aelkey_state.cc and source/aelkey_device.cc: the Lua entries that open and close devices.
use aelkey.Base.{
  no_items, ℕ, suc, String, Bool, true, false, not, ◌&&◌, ◌||◌, List, [], ◌∷◌, Option, none, some,
  find, string_key, ◌==◌, if◌then◌else◌, is_empty,
}
use aelkey.Lua.{Value, Table, nil, str, int, bool, table, empty, field}
use aelkey.Device.Decl.{InputDecl, OutputDecl}
use aelkey.Device.App.{App, AppLua, notify_state_change}
use aelkey.Device.Parser.{EventNames, parse_input, parse_output}
use aelkey.Device.Manager.{Backends, match, attach, detach}
use aelkey.Device.Hotplug.{set_decl}

-- The declarations with an id, of the tables that a global holds.
unfoldable pub inputs_of : EventNames → List Table → List InputDecl
inputs_of names [] = []
inputs_of names (t ∷ ts) =
    let rest = inputs_of names ts in
    if is_empty (parse_input names t).id then rest else parse_input names t ∷ rest

unfoldable pub outputs_of : List Table → List OutputDecl
outputs_of [] = []
outputs_of (t ∷ ts) =
    let rest = outputs_of ts in if is_empty (parse_output t).id then rest else parse_output t ∷ rest

module _ {D : Type 0} where
  unfoldable pub parse_inputs_from_lua : AppLua D → EventNames → App D → App D
  unfolding inputs_of
  parse_inputs_from_lua lua names app = record app {
    input_decls = inputs_of names (lua.inputs app);
  }

  unfoldable pub parse_outputs_from_lua : AppLua D → App D → App D
  unfolding outputs_of
  parse_outputs_from_lua lua app = record app { output_decls = outputs_of (lua.outputs app) }

module _ {D : Type 0} (lua : AppLua D) (backends : Backends D) (names : EventNames)
    (create_outputs : App D → App D) where
  -- Matches the declaration at `i` and attaches what it finds: whether it found a device, and
  -- whether it attached one.
  unfoldable pub open_one : ℕ → InputDecl → App D → App D × Bool × Bool
  open_one i decl app =
      let (app1, matched) = match backends app decl in
      elim matched [
        | none ↦ (app1, false, false)
        | some devnode ↦
            let (app2, decl1, ok) = attach backends app1 devnode decl in
            let decl2 = record decl1 { devnode = devnode } in
            if ok
            then (notify_state_change lua (set_decl app2 i decl2) decl2 "add", true, true)
            else (set_decl app2 i decl1, true, false)
      ]

  unfoldable pub attach_from : ℕ → List InputDecl → App D → App D
  unfolding open_one
  attach_from i [] app = app
  attach_from i (decl ∷ decls) app = attach_from (suc i) decls (open_one i decl app).0

  unfoldable pub attach_inputs_from_decls : App D → App D
  unfolding attach_from
  attach_inputs_from_decls app = attach_from 0 app.input_decls app

  -- The loop of `device_open` that looks for one device.
  unfoldable pub open_named : String → ℕ → List InputDecl → App D → App D × Bool
  unfolding open_one
  open_named dev_id i [] app = (app, false)
  open_named dev_id i (decl ∷ decls) app =
      let (app1, found, ok) = open_one i decl app in
      let named = decl.id == dev_id in
      let rest = open_named dev_id (suc i) decls (if named then app1 else app) in
      if named && found then (app1, ok) else rest

  abbrev pub parse_all : App D → App D
  parse_all app = parse_inputs_from_lua lua names (parse_outputs_from_lua lua app)

  unfoldable pub device_open : App D → Option String → App D × Bool
  unfolding attach_inputs_from_decls open_named
  device_open app none =
      if not (no_items app.input_map) || not (no_items app.uinput_devices)
      then (app, true)
      else (attach_inputs_from_decls (create_outputs (parse_all app)), true)
  device_open app (some dev_id) =
      let app1 =
        if no_items app.input_decls && no_items app.output_decls
        then create_outputs (parse_all app)
        else app in
      open_named dev_id 0 app1.input_decls app1

  unfoldable pub device_close : App D → String → App D × Bool
  device_close app dev_id =
      let (app1, removed) = detach backends app dev_id in
      (app1, elim removed [ none ↦ false | some decl ↦ not (is_empty decl.id) ])

  unfoldable pub device_get_info : App D → String → Value
  device_get_info app dev_id = elim (find dev_id app.input_map) [
    | none ↦ nil
    | some decl ↦ table (
        field "id" (str decl.id) (
          field "type" (str decl.type) (
            field "vendor" (int decl.vendor) (
              field "product" (int decl.product) (
                field "bus" (int decl.bus) (
                  field "name" (str decl.name) (
                    field "phys" (str decl.phys)
                      (field "uniq" (str decl.uniq) (field "grab" (bool decl.grab) empty)))))))))
  ]
