-- ===== src/Output/Keep.antt =====
-- The creation of the declared outputs and the devices that exist.
use aelkey.Base.{
  ℕ, ℤ, String, List, [], ◌∷◌, some, find, contains, find-insert, string_key, ==_iff, is_empty, ◌≡◌,
  ◌∙◌, arith, Option-cases, Bool-cases, inl, inr,
}
use aelkey.Device.Decl.{OutputDecl}
use aelkey.Device.App.{App}
use aelkey.Output.Setup.{Call, setup}
use aelkey.Output.Create.{
  Uinput, create_output_device, create_output, create_outputs, create_outputs_from_decls,
}

module _ {D : Type 0} (uinput : Uinput D)
    (creates : (app : App D) (out : OutputDecl) (calls : List Call)
      → (uinput.create app out calls).0.uinput_devices ≡ app.uinput_devices)
    (registers : (app : App D) (id : String) (fd : ℤ) (callback : String)
      → (uinput.register_source app id fd callback).uinput_devices ≡ app.uinput_devices) where
  uinput_devices-create_output_device :
      (app : App D) (out : OutputDecl)
      → (create_output_device uinput app out).0.uinput_devices ≡ app.uinput_devices
  unfolding create_output_device
  uinput_devices-create_output_device app out =
      let calls = setup uinput.code_from_name out in
      let made = uinput.create app out calls in
      elim (Option-cases made.1) [
        | inl e ↦ rw (e, create_output_device) (creates app out calls)
        | inr (u, e) ↦
            rw (e, create_output_device)
              (registers made.0 out.id _ out.on_haptics ∙ creates app out calls)
      ]

  find-create_output :
      (out : OutputDecl) (app : App D) (k : String) (u : ℕ)
      → find k app.uinput_devices ≡ some u
      → find k (create_output uinput out app).uinput_devices ≡ some u
  unfolding create_output contains
  find-create_output out app k u h = elim (Bool-cases (is_empty out.id)) [
    | inl e ↦ rw (e, create_output) h
    | inr e ↦ elim (Option-cases (find out.id app.uinput_devices)) [
      | inr (v, f) ↦ rw (e, f, create_output, contains) h
      | inl f ↦
          let made = create_output_device uinput app out in
          let same = uinput_devices-create_output_device app out in
          let kept : find k made.0.uinput_devices ≡ some u = rw same h in
          elim (Option-cases made.1) [
            | inl g ↦ rw (e, f, g, create_output, contains) kept
            | inr (v, g) ↦
                rw (e, f, g, create_output, contains)
                  (ground (
                    arith,
                    kept,
                    h,
                    find-insert out.id k v made.0.uinput_devices,
                    ==_iff out.id k,
                    f,
                  ))
          ]
    ]
  ]

  find-create_outputs :
      (outs : List OutputDecl) (app : App D) (k : String) (u : ℕ)
      → find k app.uinput_devices ≡ some u
      → find k (create_outputs uinput outs app).uinput_devices ≡ some u
  unfolding create_outputs
  find-create_outputs [] app k u h = h
  find-create_outputs (out ∷ outs) app k u h =
      find-create_outputs outs _ k u (find-create_output out app k u h)

  -- Creating the declared outputs never replaces an output device that exists, where libevdev and
  -- the haptics dispatcher leave the table of output devices alone.
  pub find-create_outputs_from_decls :
      (app : App D) (k : String) (u : ℕ)
      → find k app.uinput_devices ≡ some u
      → find k (create_outputs_from_decls uinput app).uinput_devices ≡ some u
  unfolding create_outputs_from_decls
  find-create_outputs_from_decls app k u h = find-create_outputs app.output_decls app k u h
