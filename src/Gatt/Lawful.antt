-- ===== src/Gatt/Lawful.antt =====
-- The GATT backend keeps what the device manager relies on.
use aelkey.Base.{String, Option, ◌≡◌, arith, inl}
use aelkey.Dispatcher.{Epoll}
use aelkey.Device.Decl.{InputDecl}
use aelkey.Device.Helpers.{Match}
use aelkey.Device.App.{App}
use aelkey.Device.Manager.{Backend}
use aelkey.Device.Single.{KeepsTable}
use aelkey.Gatt.Bus.{Bus, GattState}
use aelkey.Gatt.Backend.{gatt_match, gatt_attach, gatt_detach}

module _ {W : Type 0} (epoll : Epoll W) (bus : Bus W)
    (regex : String → Option (String → Match)) where
  abbrev pub gatt_backend : Backend (GattState W)
  gatt_backend = record {
    match = gatt_match epoll bus regex;
    attach = gatt_attach epoll bus regex;
    detach = gatt_detach epoll bus;
  }

  input_map-gatt_match :
      (app : App (GattState W)) (decl : InputDecl)
      → (gatt_match epoll bus regex app decl).0.input_map ≡ app.input_map
  unfolding gatt_match
  input_map-gatt_match app decl = ground arith

  input_map-gatt_attach :
      (app : App (GattState W)) (node : String) (decl : InputDecl)
      → (gatt_attach epoll bus regex app node decl).0.input_map ≡ app.input_map
  unfolding gatt_attach
  input_map-gatt_attach app node decl = ground arith

  id-gatt_attach :
      (app : App (GattState W)) (node : String) (decl : InputDecl)
      → (gatt_attach epoll bus regex app node decl).1.id ≡ decl.id
  unfolding gatt_attach
  id-gatt_attach app node decl = ground arith

  input_map-gatt_detach :
      (app : App (GattState W)) (id : String)
      → (gatt_detach epoll bus app id).0.input_map ≡ app.input_map
  unfolding gatt_detach
  input_map-gatt_detach app id = ground arith

  -- No operation of the GATT backend changes the table of devices or an identifier.
  pub gatt_backend-KeepsTable : KeepsTable gatt_backend
  gatt_backend-KeepsTable = record {
    match_map = input_map-gatt_match;
    attach_map = input_map-gatt_attach;
    attach_id = id-gatt_attach;
    detach_map = λ app id. inl (input_map-gatt_detach app id);
  }
