-- ===== src/Hidraw/Lawful.antt =====
-- The hidraw backend keeps what the device manager relies on.
use aelkey.Base.{String, Option, string_key, ◌≡◌, refl, arith, inl}
use aelkey.Dispatcher.{Epoll}
use aelkey.Device.Decl.{InputDecl}
use aelkey.Device.App.{App}
use aelkey.Device.Manager.{Backend}
use aelkey.Device.Single.{KeepsTable}
use aelkey.Hidraw.Defs.{HidrawState, Files, hidraw_attach, hidraw_detach}

module _ {W : Type 0} (epoll : Epoll W) (files : Files W)
    (matches : App (HidrawState W) → InputDecl → App (HidrawState W) × Option String) where
  -- `DeviceBackendHidraw`; `matches` is its enumeration of the hidraw devices.
  abbrev pub hidraw_backend : Backend (HidrawState W)
  hidraw_backend = record {
    match = matches;
    attach = hidraw_attach epoll files;
    detach = hidraw_detach epoll files;
  }

  module _
      (finds : (app : App (HidrawState W)) (decl : InputDecl)
        → (matches app decl).0.input_map ≡ app.input_map) where
    input_map-hidraw_attach :
        (app : App (HidrawState W)) (node : String) (decl : InputDecl)
        → (hidraw_attach epoll files app node decl).0.input_map ≡ app.input_map
    unfolding hidraw_attach
    input_map-hidraw_attach app node decl = ground arith

    id-hidraw_attach :
        (app : App (HidrawState W)) (node : String) (decl : InputDecl)
        → (hidraw_attach epoll files app node decl).1.id ≡ decl.id
    unfolding hidraw_attach
    id-hidraw_attach app node decl = ground arith

    input_map-hidraw_detach :
        (app : App (HidrawState W)) (id : String)
        → (hidraw_detach epoll files app id).0.input_map ≡ app.input_map
    unfolding hidraw_detach
    input_map-hidraw_detach app id = refl

    -- No operation of the hidraw backend changes the table of devices or an identifier, where the
    -- enumeration of the devices does not.
    pub hidraw_backend-KeepsTable : KeepsTable hidraw_backend
    hidraw_backend-KeepsTable = record {
      match_map = finds;
      attach_map = input_map-hidraw_attach;
      attach_id = id-hidraw_attach;
      detach_map = λ app id. inl (input_map-hidraw_detach app id);
    }
