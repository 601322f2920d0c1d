-- ===== src/Device/Attach.antt =====
-- What attaching and detaching do to the attached devices, whatever the backend.
use aelkey.Base.{
  true, ◌⊎◌, insert, inl, inr, is_some, String, false, not, ◌&&◌, none, some, find, contains,
  string_key, ◌==◌, find-insert, find-erase, if◌then◌else◌, ◌≡◌, refl, arith, Option-cases,
  Bool-cases,
}
use aelkey.Device.Decl.{InputDecl}
use aelkey.Device.App.{App}
use aelkey.Device.Manager.{Backend, Backends, match, attach, detach}

-- What the device manager relies on. A backend leaves the table of devices to the manager, but for
-- the entry of the device that it detaches, which it may change when it succeeds; it keeps the identifiers of the
-- declarations. A dispatcher that starts leaves the table alone.
pub record IsLawful {D : Type 0} (backends : Backends D) : Type 0 where
  pub match_map :
      (type : String) (b : Backend D) (app : App D) (decl : InputDecl)
      → backends.for_type type ≡ some b
      → (b.match app decl).0.input_map ≡ app.input_map
  pub attach_map :
      (type : String) (b : Backend D) (app : App D) (node : String) (decl : InputDecl)
      → backends.for_type type ≡ some b
      → (b.attach app node decl).0.input_map ≡ app.input_map
  pub attach_id :
      (type : String) (b : Backend D) (app : App D) (node : String) (decl : InputDecl)
      → backends.for_type type ≡ some b
      → (b.attach app node decl).1.id ≡ decl.id
  pub detach_map :
      (type : String) (b : Backend D) (app : App D) (id : String)
      → backends.for_type type ≡ some b
      → ((b.detach app id).0.input_map ≡ app.input_map)
        ⊎ ((decl decl' : InputDecl) × ((b.detach app id).1 ≡ true)
            × (find id app.input_map ≡ some decl)
            × (decl'.id ≡ decl.id)
            × ((b.detach app id).0.input_map ≡ insert id decl' app.input_map))
  pub init_map :
      (app : App D) (type : String) → (backends.init_dispatcher app type).input_map ≡ app.input_map

module _ {D : Type 0} (backends : Backends D) (laws : IsLawful backends) where
  pub input_map-match :
      (app : App D) (decl : InputDecl) → (match backends app decl).0.input_map ≡ app.input_map
  unfolding match
  input_map-match app decl = elim (Option-cases (backends.for_type decl.type)) [
    | inl e ↦ rw (e, match) refl
    | inr (b, e) ↦ rw (e, match) (laws.match_map decl.type b app decl e)
  ]

  -- `attach` enters the declaration that the backend leaves under the identifier of the one it was
  -- given, exactly when it succeeds, and touches no other device; it does not succeed for an
  -- identifier that is in use.
  pub find-attach :
      (app : App D) (node : String) (decl : InputDecl) (k : String)
      → let (app1, decl1, ok) = attach backends app node decl in
        (find k app1.input_map
          ≡ (if ok && (decl.id == k) then some decl1 else find k app.input_map))
        × (decl1.id ≡ decl.id)
        × ((ok && contains decl.id app.input_map) ≡ false)
  unfolding attach
  find-attach app node decl k =
      let app1 = backends.init_dispatcher app decl.type in
      let started : app1.input_map ≡ app.input_map = laws.init_map app decl.type in
      elim (Bool-cases (contains decl.id app.input_map)) [
        | inl c ↦ rw c (refl, refl, refl)
        | inr c ↦ elim (Option-cases (backends.for_type decl.type)) [
          | inl e ↦ rw (c, e) (ground arith, refl, refl)
          | inr (b, e) ↦
              let (app2, decl2, ok) = b.attach app1 node decl in
              let same : app2.input_map ≡ app1.input_map =
                laws.attach_map decl.type b app1 node decl e in
              let id : decl2.id ≡ decl.id = laws.attach_id decl.type b app1 node decl e in
              rw (c, e)
                (
                  ground (arith, find-insert decl2.id k decl2 app2.input_map),
                  ground arith,
                  ground arith,
                )
        ]
      ]

  -- `detach` removes the device exactly when it returns one, and touches no other device; it
  -- returns none for a device that is not attached.
  pub find-detach :
      (app : App D) (id k : String)
      → let (app1, removed) = detach backends app id in
        let gone = is_some removed in
        (find k app1.input_map ≡ (if gone && (id == k) then none else find k app.input_map))
        × ((gone && not (contains id app.input_map)) ≡ false)
  unfolding detach contains
  find-detach app id k = elim (Option-cases (find id app.input_map)) [
    | inl e ↦ rw (e, detach, contains) (refl, refl)
    | inr (decl, e) ↦ elim (Option-cases (backends.for_type decl.type)) [
      | inl f ↦ rw (e, f, detach, contains) (refl, refl)
      | inr (b, f) ↦
          let app1 = (b.detach app id).0 in
          elim (laws.detach_map decl.type b app id f) [
            | inl same ↦
                rw (e, f, detach, contains)
                  (ground (arith, same, find-erase id k app1.input_map), ground arith)
            | inr (old, new, o, g, i, same) ↦
                rw (e, f, detach, contains)
                  (
                    ground (
                      arith,
                      same,
                      find-erase id k app1.input_map,
                      find-insert id k new app.input_map,
                    ),
                    ground arith,
                  )
          ]
    ]
  ]
