-- ===== src/Device/Parsing.antt =====
-- What a parsed declaration holds.
use aelkey.Base.{
  ℤ, String, false, ◌||◌, List, [], ◌∷◌, ◌++◌, some, find, string_key, is_empty, is_negative, ◌≡◌,
  arith, Option-cases, Bool-cases, inl, inr, All,
}
use aelkey.Lua.{Value, Table, get, values, as_table}
use aelkey.Device.Decl.{InputDecl, default_input}
use aelkey.Device.App.{App, AppLua}
use aelkey.Device.Parser.{
  EventNames, parse_capability, parse_capabilities, parse_input, str_field, bus_of,
}
use aelkey.Device.Manager.{Backends}
use aelkey.Device.Entry.{device_get_info}

-- A type and a code that are the kernel's.
abbrev pub IsCode : ℤ × ℤ → Type 0
IsCode p = (is_negative p.0 ≡ false) × (is_negative p.1 ≡ false)

All-append : (xs ys : List (ℤ × ℤ)) → All IsCode xs → All IsCode ys → All IsCode (xs ++ ys)
All-append [] ys a b = b
All-append (x ∷ xs) ys a b = (a.0, All-append xs ys a.1 b)

module _ (names : EventNames) where
  parse_capability-IsCode : (v : Value) → All IsCode (parse_capability names v)
  unfolding parse_capability
  parse_capability-IsCode v = elim (Option-cases (as_table v)) [
    | inl e ↦ rw (e, parse_capability) tt
    | inr (cap, e) ↦
        let type_str = str_field cap "type" "" in
        let code_str = str_field cap "code" "" in
        let type_id = names.type_from_name type_str in
        let code_id = names.code_from_name type_id code_str in
        elim (Bool-cases (is_empty type_str || is_empty code_str)) [
          | inl f ↦ rw (e, f, parse_capability) tt
          | inr f ↦ elim (Bool-cases (is_negative type_id)) [
            | inl g ↦ rw (e, f, g, parse_capability) tt
            | inr g ↦ elim (Bool-cases (is_negative code_id)) [
              | inl h ↦ rw (e, f, g, h, parse_capability) tt
              | inr h ↦ rw (e, f, g, h, parse_capability) ((g, h), tt)
            ]
          ]
        ]
  ]

  parse_capabilities-IsCode : (vs : List Value) → All IsCode (parse_capabilities names vs)
  unfolding parse_capabilities
  parse_capabilities-IsCode [] = tt
  parse_capabilities-IsCode (v ∷ vs) =
      All-append (parse_capability names v) (parse_capabilities names vs)
        (parse_capability-IsCode v) (parse_capabilities-IsCode vs)

  -- Whatever the table, a parsed declaration asks only for capabilities whose type and code
  -- libevdev knows: neither is negative.
  pub parse_input-IsCode : (t : Table) → All IsCode (parse_input names t).capabilities
  unfolding parse_input
  parse_input-IsCode t = elim (Option-cases (as_table (get t "capabilities"))) [
    | inl e ↦ rw (e, parse_input) tt
    | inr (caps, e) ↦ rw (e, parse_input) (parse_capabilities-IsCode (values caps))
  ]

  -- The information about an attached device, read as a declaration, gives its identifier, type,
  -- vendor, product, names and grab flag back; the bus, which is written as a number and read as a
  -- name, and the other fields are those of an empty declaration.
  pub parse_input-device_get_info :
      {D : Type 0} (lua : AppLua D) (backends : Backends D) (create_outputs : App D → App D)
      (app : App D) (id : String) (decl : InputDecl) (t : Table)
      → find id app.input_map ≡ some decl
      → device_get_info lua backends names create_outputs app id ≡ Value.table t
      → parse_input names t ≡ (record default_input {
        id = decl.id;
        type = decl.type;
        vendor = decl.vendor;
        product = decl.product;
        name = decl.name;
        phys = decl.phys;
        uniq = decl.uniq;
        grab = decl.grab;
      })
  unfolding parse_input device_get_info get bus_of
  parse_input-device_get_info lua backends create_outputs app id decl t h k = ground arith
