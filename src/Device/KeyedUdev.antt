-- ===== src/Device/KeyedUdev.antt =====
-- Udev events keep each attached device under its own identifier.
use aelkey.Base.{
  some, subst, arith, ◌≡◌, ℕ, suc, String, List, [], ◌∷◌, Map, contains, string_key, ◌==◌,
  Option-cases, Bool-cases, inl, inr, is_empty,
}
use aelkey.Lua.{Table}
use aelkey.Device.Decl.{InputDecl}
use aelkey.Device.App.{App, AppLua, notify_state_change}
use aelkey.Device.Manager.{Backends, match, attach, detach, detach_in_entry}
use aelkey.Device.Attach.{IsLawful}
use aelkey.Device.Hotplug.{
  UdevDevice, node_for, set_decl, set_watch, watch_add, watch_remove, watch_entry, watch_loop,
  attach_new, input_add, detach_removed, hang_up, input_remove, handle_udev_add, handle_udev_remove,
}
use aelkey.Device.Keyed.{
  IsKeyed, IsKeyed-match, IsKeyed-attach, IsKeyed-detach, IsKeyed-notify, input_map-set_watch,
}

module _ {D : Type 0} (backends : Backends D) (laws : IsLawful backends) (lua : AppLua D)
    (calls : (name : String) (t : Table) (app : App D)
      → IsKeyed app
      → IsKeyed (lua.call name t app)) where
  -- A body of the watchlist loops keeps the table keyed; then the loops do.
  abbrev Keeps : (String → ℕ → InputDecl → App D → App D) → Type 0
  Keeps body =
      (ref : String) (i : ℕ) (decl : InputDecl) (app : App D)
      → IsKeyed app
      → IsKeyed (body ref i decl app)

  IsKeyed-watch_entry :
      (body : String → ℕ → InputDecl → App D → App D) (ref : String) (i : ℕ)
      (decls : List InputDecl) (app : App D)
      → Keeps body
      → IsKeyed app
      → IsKeyed (watch_entry body ref i decls app)
  IsKeyed-watch_entry body ref i [] app h k = k
  IsKeyed-watch_entry body ref i (decl ∷ decls) app h k =
      IsKeyed-watch_entry body ref (suc i) decls _ h (h ref i decl app k)

  IsKeyed-watch_loop :
      (body : String → ℕ → InputDecl → App D → App D) (m : Map String (List InputDecl))
      (app : App D)
      → Keeps body
      → IsKeyed app
      → IsKeyed (watch_loop body m app)
  IsKeyed-watch_loop body [] app h k = k
  IsKeyed-watch_loop body ((ref, decls) ∷ m) app h k =
      IsKeyed-watch_loop body m _ h (IsKeyed-watch_entry body ref 0 decls app h k)

  IsKeyed-watch_add :
      (dev : UdevDevice) (subsystem : String) → Keeps (watch_add lua backends dev subsystem)
  unfolding watch_add
  IsKeyed-watch_add dev subsystem ref i decl app k =
      let app1 = (match backends app decl).0 in
      let k1 : IsKeyed app1 = IsKeyed-match backends laws app decl k in
      elim (Option-cases (match backends app decl).1) [
        | inl e ↦ rw (e, watch_add) k1
        | inr (m, e) ↦ elim (Option-cases (node_for dev subsystem decl)) [
          | inl f ↦ rw (e, f, watch_add) k1
          | inr (node, f) ↦
              let decl1 : InputDecl = record decl {
                devnode = node;
                on_state = app1.on_watchlist;
              } in
              elim (Bool-cases (m == node)) [
                | inl g ↦
                    rw (e, f, g, watch_add)
                      (IsKeyed-notify backends laws lua calls (set_watch app1 ref i decl1) decl1
                        "add" (rw (input_map-set_watch app1 ref i decl1) k1))
                | inr g ↦ rw (e, f, g, watch_add) k1
              ]
        ]
      ]

  IsKeyed-watch_remove :
      (dev : UdevDevice) (subsystem : String) → Keeps (watch_remove lua backends dev subsystem)
  unfolding watch_remove
  IsKeyed-watch_remove dev subsystem ref i decl app k =
      elim (Option-cases (node_for dev subsystem decl)) [
        | inl f ↦ rw (f, watch_remove) k
        | inr (node, f) ↦
            let decl1 : InputDecl = record decl { on_state = app.on_watchlist } in
            let decl2 : InputDecl = record decl1 { devnode = "" } in
            let app1 = notify_state_change lua (set_watch app ref i decl1) decl1 "remove" in
            elim (Bool-cases (decl.devnode == node)) [
              | inl g ↦
                  rw (f, g, watch_remove, input_map-set_watch app1 ref i decl2)
                    (IsKeyed-notify backends laws lua calls (set_watch app ref i decl1) decl1
                      "remove" (rw (input_map-set_watch app ref i decl1) k))
              | inr g ↦ rw (f, g, watch_remove) k
            ]
      ]

  IsKeyed-attach_new :
      (node : String) (i : ℕ) (decl : InputDecl) (app : App D)
      → IsKeyed app
      → IsKeyed (attach_new lua backends node i decl app)
  unfolding attach_new
  IsKeyed-attach_new node i decl app k =
      let s = attach backends app node decl in
      let k1 : IsKeyed s.0 = IsKeyed-attach backends laws app node decl k in
      elim (Bool-cases (contains decl.id app.input_map)) [
        | inl c ↦ rw (c, attach_new) k
        | inr c ↦ elim (Bool-cases s.2) [
          | inl o ↦
              let decl2 : InputDecl = record s.1 { devnode = node } in
              rw (c, o, attach_new)
                (IsKeyed-notify backends laws lua calls (set_decl s.0 i decl2) decl2 "add" k1)
          | inr o ↦ rw (c, o, attach_new) k1
        ]
      ]

  IsKeyed-input_add :
      (dev : UdevDevice) (subsystem : String) (i : ℕ) (decls : List InputDecl) (app : App D)
      → IsKeyed app
      → IsKeyed (input_add lua backends dev subsystem i decls app)
  unfolding input_add
  IsKeyed-input_add dev subsystem i [] app k = k
  IsKeyed-input_add dev subsystem i (decl ∷ decls) app k =
      let app1 = (match backends app decl).0 in
      let k1 : IsKeyed app1 = IsKeyed-match backends laws app decl k in
      let rest = IsKeyed-input_add dev subsystem (suc i) decls app1 k1 in
      elim (Option-cases (match backends app decl).1) [
        | inl e ↦ rw (e, input_add) rest
        | inr (m, e) ↦ elim (Option-cases (node_for dev subsystem decl)) [
          | inl f ↦ rw (e, f, input_add) rest
          | inr (node, f) ↦ elim (Bool-cases (m == node)) [
            | inl g ↦ rw (e, f, g, input_add) (IsKeyed-attach_new node i decl app1 k1)
            | inr g ↦ rw (e, f, g, input_add) rest
          ]
        ]
      ]

  pub IsKeyed-detach_removed :
      (id : String) (app : App D) → IsKeyed app → IsKeyed (detach_removed lua backends id app)
  unfolding detach_removed
  IsKeyed-detach_removed id app k =
      let s = detach backends app id in
      let k1 : IsKeyed s.0 = IsKeyed-detach backends laws app id k in
      elim (Option-cases s.1) [
        | inl e ↦ rw (e, detach_removed) k1
        | inr (decl, e) ↦ elim (Bool-cases (is_empty decl.id)) [
          | inl f ↦ rw (e, f, detach_removed) k1
          | inr f ↦
              rw (e, f, detach_removed)
                (IsKeyed-notify backends laws lua calls s.0 decl "remove" k1)
        ]
      ]

  -- A hang-up that comes to an end does what the detach of any other caller does.
  hang_up-detach_removed :
      (id : String) (app : App D) {app1 : App D}
      → hang_up lua backends id app ≡ some app1
      → detach_removed lua backends id app ≡ app1
  unfolding hang_up detach_in_entry detach_removed
  hang_up-detach_removed id app h = ground arith

  pub IsKeyed-hang_up :
      (id : String) (app : App D) {app1 : App D}
      → IsKeyed app
      → hang_up lua backends id app ≡ some app1
      → IsKeyed app1
  IsKeyed-hang_up id app k h =
      subst IsKeyed (hang_up-detach_removed id app h) (IsKeyed-detach_removed id app k)

  IsKeyed-input_remove :
      (dev : UdevDevice) (subsystem : String) (decls : List InputDecl) (app : App D)
      → IsKeyed app
      → IsKeyed (input_remove lua backends dev subsystem decls app)
  unfolding input_remove
  IsKeyed-input_remove dev subsystem [] app k = k
  IsKeyed-input_remove dev subsystem (decl ∷ decls) app k =
      let rest = IsKeyed-input_remove dev subsystem decls app k in
      elim (Option-cases (node_for dev subsystem decl)) [
        | inl f ↦ rw (f, input_remove) rest
        | inr (node, f) ↦ elim (Bool-cases (decl.devnode == node)) [
          | inl g ↦ rw (f, g, input_remove) (IsKeyed-detach_removed decl.id app k)
          | inr g ↦ rw (f, g, input_remove) rest
        ]
      ]

  pub IsKeyed-handle_udev_add :
      (dev : UdevDevice) (app : App D)
      → IsKeyed app
      → IsKeyed (handle_udev_add lua backends dev app)
  unfolding handle_udev_add
  IsKeyed-handle_udev_add dev app k = elim (Option-cases dev.subsystem) [
    | inl e ↦ rw (e, handle_udev_add) k
    | inr (s, e) ↦
        let app1 = watch_loop (watch_add lua backends dev s) app.watch_map app in
        let k1 =
          IsKeyed-watch_loop (watch_add lua backends dev s) app.watch_map app
            (IsKeyed-watch_add dev s) k in
        simp (e, handle_udev_add) (IsKeyed-input_add dev s 0 app1.input_decls app1 k1)
  ]

  pub IsKeyed-handle_udev_remove :
      (dev : UdevDevice) (app : App D)
      → IsKeyed app
      → IsKeyed (handle_udev_remove lua backends dev app)
  unfolding handle_udev_remove
  IsKeyed-handle_udev_remove dev app k = elim (Option-cases dev.subsystem) [
    | inl e ↦ rw (e, handle_udev_remove) k
    | inr (s, e) ↦
        let app1 = watch_loop (watch_remove lua backends dev s) app.watch_map app in
        let k1 =
          IsKeyed-watch_loop (watch_remove lua backends dev s) app.watch_map app
            (IsKeyed-watch_remove dev s) k in
        simp (e, handle_udev_remove) (IsKeyed-input_remove dev s app1.input_decls app1 k1)
  ]
