-- ===== src/Device/Removal.antt =====
-- Which device a udev removal detaches.
use aelkey.Base.{
  String, Bool, true, false, List, [], ◌∷◌, ◌++◌, none, some, find, string_key, ◌==◌, ◌≡◌, refl,
  ◌∙◌, arith, All, Option-cases, inl, inr,
}
use aelkey.Device.Decl.{InputDecl}
use aelkey.Device.App.{App, AppLua}
use aelkey.Device.Manager.{Backends, detach}
use aelkey.Device.Hotplug.{UdevDevice, node_for, detach_removed, input_remove, handle_udev_remove}

-- The declaration is of the kind of the removed device, and has its node.
abbrev pub is_for : UdevDevice → String → InputDecl → Bool
is_for dev subsystem decl = elim (node_for dev subsystem decl) [
  | none ↦ false
  | some node ↦ decl.devnode == node
]

module _ {D : Type 0} (lua : AppLua D) (backends : Backends D) where
  input_remove_first :
      (dev : UdevDevice) (subsystem : String) (before after : List InputDecl) (decl : InputDecl)
      (app : App D)
      → All (λ d. is_for dev subsystem d ≡ false) before
      → is_for dev subsystem decl ≡ true
      → input_remove lua backends dev subsystem (before ++ decl ∷ after) app
        ≡ detach_removed lua backends decl.id app
  unfolding input_remove
  input_remove_first dev subsystem [] after decl app a h =
      elim (Option-cases (node_for dev subsystem decl)) [
        | inl e ↦ ground arith
        | inr (node, e) ↦ ground arith
      ]
  input_remove_first dev subsystem (d ∷ before) after decl app a h =
      let rest = input_remove_first dev subsystem before after decl app a.1 h in
      let not_this = a.0 in
      elim (Option-cases (node_for dev subsystem d)) [
        | inl e ↦ rw (e, input_remove) rest
        | inr (node, e) ↦ ground arith
      ]

  -- A removal detaches the device of the first declaration that is of its kind and has its node,
  -- and tells that device's state callback; the declarations after it are not looked at. Here no
  -- device is on the watchlist.
  pub handle_udev_remove_first :
      (dev : UdevDevice) (subsystem : String) (before after : List InputDecl) (decl : InputDecl)
      (app : App D)
      → dev.subsystem ≡ some subsystem
      → app.watch_map ≡ []
      → app.input_decls ≡ before ++ decl ∷ after
      → All (λ d. is_for dev subsystem d ≡ false) before
      → is_for dev subsystem decl ≡ true
      → handle_udev_remove lua backends dev app ≡ detach_removed lua backends decl.id app
  unfolding handle_udev_remove
  handle_udev_remove_first dev subsystem before after decl app s w i a h =
      let rest = input_remove_first dev subsystem before after decl app a h in
      let looped : input_remove lua backends dev subsystem app.input_decls app
          ≡ detach_removed lua backends decl.id app =
        simp i rest in
      ground (arith, looped)

  detach-none :
      (id : String) (app : App D)
      → find id app.input_map ≡ none
      → detach backends app id ≡ (app, none)
  unfolding detach
  detach-none id app n = rw (n, detach) refl

  -- Where that first declaration is of a device that is not attached, as after its node went to
  -- another device, the removal changes nothing: the device that is attached at the node stays.
  pub handle_udev_remove_stale :
      (dev : UdevDevice) (subsystem : String) (before after : List InputDecl) (decl : InputDecl)
      (app : App D)
      → dev.subsystem ≡ some subsystem
      → app.watch_map ≡ []
      → app.input_decls ≡ before ++ decl ∷ after
      → All (λ d. is_for dev subsystem d ≡ false) before
      → is_for dev subsystem decl ≡ true
      → find decl.id app.input_map ≡ none
      → handle_udev_remove lua backends dev app ≡ app
  unfolding detach_removed
  handle_udev_remove_stale dev subsystem before after decl app s w i a h n =
      handle_udev_remove_first dev subsystem before after decl app s w i a h
      ∙ ground (arith, detach-none decl.id app n)
