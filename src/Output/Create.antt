-- ===== src/Output/Create.antt =====
-- source/device_output.cc: `create_output_device`; source/aelkey_state.cc: the loop over the
-- declared outputs; source/aelkey_core.cc: `emit` and `syn_report`.
use aelkey.Base.{
  ℕ, ℤ, pos, String, List, [], ◌∷◌, Option, none, some, Map, find, insert, contains, is_empty,
  if◌then◌else◌, string_key,
}
use aelkey.Lua.{Value, Table, get, as_int, as_str}
use aelkey.Device.Decl.{OutputDecl}
use aelkey.Device.App.{App}
use aelkey.Device.Parser.{EventNames}
use aelkey.Output.Defs.{EvType}
use aelkey.Output.Setup.{Call, setup}

-- libevdev's uinput: a device is created from a description, and has a descriptor; an event is
-- written to it. `register_source` is that of the haptics dispatcher.
pub record Uinput (D : Type 0) : Type 0 where
  pub code_from_name : EvType → String → Option String
  pub create : App D → OutputDecl → List Call → App D × Option ℕ
  pub get_fd : App D → ℕ → ℤ
  pub register_source : App D → String → ℤ → String → App D
  pub write_event : App D → ℕ → ℤ → ℤ → ℤ → App D

module _ {D : Type 0} (uinput : Uinput D) where
  unfoldable pub create_output_device : App D → OutputDecl → App D × Option ℕ
  create_output_device app out =
      let (app1, uidev) = uinput.create app out (setup uinput.code_from_name out) in
      elim uidev [
        | none ↦ (app1, none)
        | some u ↦
            (uinput.register_source app1 out.id (uinput.get_fd app1 u) out.on_haptics, some u)
      ]

  -- One turn of the loop of `create_outputs_from_decls`.
  unfoldable pub create_output : OutputDecl → App D → App D
  create_output out app =
      if is_empty out.id
      then app
      else if contains out.id app.uinput_devices
      then app
      else let (app1, uidev) = create_output_device app out in
        elim uidev [
          | none ↦ app1
          | some u ↦ record app1 { uinput_devices = insert out.id u app1.uinput_devices }
        ]

  unfoldable pub create_outputs : List OutputDecl → App D → App D
  unfolding create_output
  create_outputs [] app = app
  create_outputs (out ∷ outs) app = create_outputs outs (create_output out app)

  unfoldable pub create_outputs_from_decls : App D → App D
  unfolding create_outputs
  create_outputs_from_decls app = create_outputs app.output_decls app

  -- `core_emit`: none where it throws.
  module _ (names : EventNames) where
    abbrev pub type_of : Value → ℤ
    type_of v = elim (as_int v) [
      | some t ↦ t
      | none ↦ elim (as_str v) [ some s ↦ names.type_from_name s | none ↦ pos 0 ]
    ]

    abbrev pub code_of : ℤ → Value → ℤ
    code_of type v = elim (as_int v) [
      | some c ↦ c
      | none ↦ elim (as_str v) [ some s ↦ names.code_from_name type s | none ↦ pos 0 ]
    ]

    -- The device that an event goes to.
    unfoldable pub target : App D → Option String → Option ℕ
    target app (some id) = find id app.uinput_devices
    target app none = only app.uinput_devices
      where
        only : Map String ℕ → Option ℕ
        only ((id, u) ∷ []) = some u
        only _ = none

    unfoldable pub core_emit : App D → Table → Option (App D)
    core_emit app opts =
        let type = type_of (get opts "type") in
        let code = code_of type (get opts "code") in
        elim (as_int (get opts "value")) [
          | none ↦ none
          | some value ↦ elim (target app (as_str (get opts "device"))) [
            | none ↦ none
            | some u ↦ some (uinput.write_event app u type code value)
          ]
        ]

  -- EV_SYN and SYN_REPORT are 0.
  abbrev pub report : App D → ℕ → App D
  report app u = uinput.write_event app u (pos 0) (pos 0) (pos 0)

  unfoldable pub report_all : Map String ℕ → App D → App D
  report_all [] app = app
  report_all ((id, u) ∷ m) app = report_all m (report app u)

  unfoldable pub core_syn_report : App D → Option String → Option (App D)
  unfolding report_all
  core_syn_report app none = some (report_all app.uinput_devices app)
  core_syn_report app (some id) = elim (find id app.uinput_devices) [
    | none ↦ none
    | some u ↦ some (report app u)
  ]
