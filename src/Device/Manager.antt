-- ===== src/Device/Manager.antt =====
-- source/device_manager.cc: attach and detach over the backends, which are an interface here.
use aelkey.Base.{
  no_items, not, ◌&&◌, String, Bool, true, false, Option, none, some, find, insert, erase, contains,
  string_key, if◌then◌else◌,
}
use aelkey.Lua.{or_else}
use aelkey.Device.Decl.{InputDecl}
use aelkey.Device.App.{App}

-- `DeviceBackend`. `attach` returns the declaration as it leaves it, and whether it succeeded.
pub record Backend (D : Type 0) : Type 0 where
  pub match : App D → InputDecl → App D × Option String
  pub attach : App D → String → InputDecl → App D × InputDecl × Bool
  pub detach : App D → String → App D × Bool

-- The table of backends, and `init_dispatcher_for_type`.
pub record Backends (D : Type 0) : Type 0 where
  pub for_type : String → Option (Backend D)
  pub init_dispatcher : App D → String → App D

module _ {D : Type 0} (backends : Backends D) where
  unfoldable pub match : App D → InputDecl → App D × Option String
  match app decl = elim (backends.for_type decl.type) [
    | none ↦ (app, none)
    | some backend ↦ backend.match app decl
  ]

  unfoldable pub attach : App D → String → InputDecl → App D × InputDecl × Bool
  attach app devnode decl =
      if contains decl.id app.input_map
      then (app, decl, false)
      else let app1 = backends.init_dispatcher app decl.type in
        elim (backends.for_type decl.type) [
          | none ↦ (app1, decl, false)
          | some backend ↦
              let (app2, decl', ok) = backend.attach app1 devnode decl in
              if ok
              then (record app2 { input_map = insert decl'.id decl' app2.input_map }, decl', true)
              else (app2, decl', false)
        ]

  -- Called with an identifier that the caller keeps. The result is the entry as the backend leaves
  -- it; a backend never removes it.
  unfoldable pub detach : App D → String → App D × Option InputDecl
  detach app dev_id = elim (find dev_id app.input_map) [
    | none ↦ (app, none)
    | some decl ↦ elim (backends.for_type decl.type) [
      | none ↦ (app, none)
      | some backend ↦
          let (app', ok) = backend.detach app dev_id in
          if ok
          then (
            record app' {
              input_map = erase dev_id app'.input_map;
              frames = erase dev_id app'.frames;
            },
            some (or_else (find dev_id app'.input_map) decl),
          )
          else (app', none)
    ]
  ]

  -- Called with the identifier that stands in the entry itself, `detach` reads it once more after
  -- the entry is erased: `frames.erase` compares it with the keys of the frames, where there are any.
  unfoldable pub reads_erased : App D → String → Bool
  reads_erased app dev_id = elim (find dev_id app.input_map) [
    | none ↦ false
    | some decl ↦ elim (backends.for_type decl.type) [
      | none ↦ false
      | some backend ↦
          let (app', ok) = backend.detach app dev_id in ok && not (no_items app'.frames)
    ]
  ]

  -- Such a call; none where it reads what is erased.
  unfoldable pub detach_in_entry : App D → String → Option (App D × Option InputDecl)
  unfolding detach reads_erased
  detach_in_entry app dev_id = if reads_erased app dev_id then none else some (detach app dev_id)
