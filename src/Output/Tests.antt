-- ===== src/Output/Tests.antt =====
-- Descriptions of a few devices.
use aelkey.Base.{refl, ℕ, pos, find, string_key, String, true, [], ◌∷◌, Option, some, ◌≡◌}
use aelkey.Device.Decl.{OutputDecl, default_output}
use aelkey.Device.App.{App}
use aelkey.Device.History.{start}
use aelkey.Output.Create.{Uinput, create_outputs_from_decls}
use aelkey.Output.Keep.{find-create_outputs_from_decls}
use aelkey.Output.Defs.{EvType}
use aelkey.Output.Setup.{preset, setup}
use aelkey.Output.Order.{ordered, setup-IsOrdered}
use aelkey.Output.Ranges.{axes_have_ranges, preset-axes_have_ranges}

-- Every text names the code that it spells.
abbrev every_name : EvType → String → Option String
every_name t name = some name

abbrev gamepad : OutputDecl
gamepad = record default_output { type = "gamepad"; capabilities = "KEY_HOME" ∷ "ABS_MISC" ∷ [] }

setup-IsOrdered_example : ordered [] (setup every_name gamepad) ≡ true
setup-IsOrdered_example = setup-IsOrdered every_name gamepad

preset-axes_have_ranges_example : axes_have_ranges (preset "gamepad") ≡ true
preset-axes_have_ranges_example = preset-axes_have_ranges "gamepad"

-- Every creation succeeds and gives the device 7.
abbrev devices : Uinput ℕ
devices = record {
  code_from_name = every_name;
  create = λ app out calls. (app, some 7);
  get_fd = λ app u. pos u;
  register_source = λ app id fd callback. app;
  write_event = λ app u type code value. app;
}

abbrev one_output : App ℕ
one_output = record (start 0) {
  uinput_devices = ("pad", 1) ∷ [];
  output_decls = record gamepad { id = "pad" } ∷ record gamepad { id = "second" } ∷ [];
}

pad_found : find "pad" one_output.uinput_devices ≡ some 1
unfolding find
pad_found = refl

find-create_outputs_from_decls_example :
    find "pad" (create_outputs_from_decls devices one_output).uinput_devices ≡ some 1
find-create_outputs_from_decls_example =
    find-create_outputs_from_decls devices (λ app out calls. refl) (λ app id fd callback. refl)
      one_output "pad" 1 pad_found
