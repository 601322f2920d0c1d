-- ===== src/Device/Keyed.antt =====
-- The table of attached devices: every operation of the manager keeps each device under its own
-- identifier.
use aelkey.Base.{
  ℕ, String, find, contains, string_key, ◌≡◌, refl, arith, Option-cases, Bool-cases, inl, inr, All,
  All-insert, All-erase, is_empty, All-find, ◌∙◌, some,
}
use aelkey.Lua.{Table}
use aelkey.Device.Decl.{InputDecl}
use aelkey.Device.App.{App, AppLua, notify_state_change, state_event}
use aelkey.Device.Manager.{Backend, Backends, match, attach, detach}
use aelkey.Device.Attach.{IsLawful, input_map-match}
use aelkey.Device.Hotplug.{set_watch}

abbrev pub HasItsKey : String × InputDecl → Type 0
HasItsKey e = e.1.id ≡ e.0

-- Each attached device stands under its own identifier.
abbrev pub IsKeyed : {D : Type 0} → App D → Type 0
IsKeyed app = All HasItsKey app.input_map

module _ {D : Type 0} where
  IsKeyed-same : (app app1 : App D) → app1.input_map ≡ app.input_map → IsKeyed app → IsKeyed app1
  IsKeyed-same app app1 e k = rw e k

  pub input_map-set_watch :
      (app : App D) (ref : String) (i : ℕ) (decl : InputDecl)
      → (set_watch app ref i decl).input_map ≡ app.input_map
  input_map-set_watch app ref i decl = ground arith

module _ {D : Type 0} (backends : Backends D) (laws : IsLawful backends) where
  pub IsKeyed-match :
      (app : App D) (decl : InputDecl) → IsKeyed app → IsKeyed (match backends app decl).0
  IsKeyed-match app decl k = rw (input_map-match backends laws app decl) k

  pub IsKeyed-attach :
      (app : App D) (node : String) (decl : InputDecl)
      → IsKeyed app
      → IsKeyed (attach backends app node decl).0
  unfolding attach
  IsKeyed-attach app node decl k = elim (Bool-cases (contains decl.id app.input_map)) [
    | inl c ↦ rw (c, attach) k
    | inr c ↦
        let app1 = backends.init_dispatcher app decl.type in
        let k1 : IsKeyed app1 = rw (laws.init_map app decl.type) k in
        elim (Option-cases (backends.for_type decl.type)) [
          | inl e ↦ rw (c, e, attach) k1
          | inr (b, e) ↦
              let (app2, decl2, ok) = b.attach app1 node decl in
              let k2 : IsKeyed app2 = rw (laws.attach_map decl.type b app1 node decl e) k1 in
              elim (Bool-cases ok) [
                | inl o ↦
                    rw (c, e, o, attach)
                      (All-insert HasItsKey decl2.id decl2 app2.input_map refl k2)
                | inr o ↦ rw (c, e, o, attach) k2
              ]
        ]
  ]

  IsKeyed-backend :
      (type : String) (b : Backend D) (app : App D) (id : String)
      → backends.for_type type ≡ some b
      → IsKeyed app
      → IsKeyed (b.detach app id).0
  IsKeyed-backend type b app id f k = elim (laws.detach_map type b app id f) [
    | inl same ↦ rw same k
    | inr (old, new, o, g, i, same) ↦
        rw same (
          All-insert HasItsKey id new app.input_map (i ∙ All-find HasItsKey id app.input_map g k) k)
  ]

  pub IsKeyed-detach :
      (app : App D) (id : String) → IsKeyed app → IsKeyed (detach backends app id).0
  unfolding detach
  IsKeyed-detach app id k = elim (Option-cases (find id app.input_map)) [
    | inl e ↦ rw (e, detach) k
    | inr (decl, e) ↦ elim (Option-cases (backends.for_type decl.type)) [
      | inl f ↦ rw (e, f, detach) k
      | inr (b, f) ↦
          let (app1, ok) = b.detach app id in
          let k1 : IsKeyed app1 = IsKeyed-backend decl.type b app id f k in
          elim (Bool-cases ok) [
            | inl o ↦ rw (e, f, o, detach) (All-erase HasItsKey id app1.input_map k1)
            | inr o ↦ rw (e, f, o, detach) k1
          ]
    ]
  ]

  module _ (lua : AppLua D)
      (calls : (name : String) (t : Table) (app : App D)
        → IsKeyed app
        → IsKeyed (lua.call name t app)) where
    pub IsKeyed-notify :
        (app : App D) (decl : InputDecl) (state : String)
        → IsKeyed app
        → IsKeyed (notify_state_change lua app decl state)
    unfolding notify_state_change
    IsKeyed-notify app decl state k = elim (Bool-cases (is_empty decl.on_state)) [
      | inl e ↦ rw (e, notify_state_change) k
      | inr e ↦ elim (Bool-cases (lua.is_function app decl.on_state)) [
        | inl f ↦
            rw (e, f, notify_state_change) (calls decl.on_state (state_event lua decl state) app k)
        | inr f ↦ rw (e, f, notify_state_change) k
      ]
    ]
