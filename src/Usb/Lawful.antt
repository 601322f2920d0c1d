-- ===== src/Usb/Lawful.antt =====
-- The libusb backend keeps what the device manager relies on.
use aelkey.Base.{String, string_key, ◌≡◌, refl, arith, inl}
use aelkey.Device.Decl.{InputDecl}
use aelkey.Device.App.{App}
use aelkey.Device.Single.{KeepsTable}
use aelkey.Usb.Defs.{UsbState, LibUsb, usb_match, usb_attach, usb_detach, usb_backend, set_world}

module _ {W : Type 0} (usb : LibUsb W) where
  input_map-usb_attach :
      (app : App (UsbState W)) (node : String) (decl : InputDecl)
      → (usb_attach usb app node decl).0.input_map ≡ app.input_map
  unfolding usb_attach set_world
  input_map-usb_attach app node decl = ground arith

  id-usb_attach :
      (app : App (UsbState W)) (node : String) (decl : InputDecl)
      → (usb_attach usb app node decl).1.id ≡ decl.id
  unfolding usb_attach
  id-usb_attach app node decl = ground arith

  input_map-usb_detach :
      (app : App (UsbState W)) (id : String) → (usb_detach usb app id).0.input_map ≡ app.input_map
  unfolding usb_detach
  input_map-usb_detach app id = ground arith

  -- No operation of the libusb backend changes the table of devices or an identifier.
  pub usb_backend-KeepsTable : KeepsTable (usb_backend usb)
  unfolding usb_match
  usb_backend-KeepsTable = record {
    match_map = λ app decl. refl;
    attach_map = input_map-usb_attach;
    attach_id = id-usb_attach;
    detach_map = λ app id. inl (input_map-usb_detach app id);
  }
