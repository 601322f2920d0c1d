-- ===== src/Device/Parser.antt =====
-- source/device_parser.cc: declarations from Lua tables.
use aelkey.Base.{
  ℤ, pos, String, Bool, false, ◌||◌, List, [], ◌∷◌, ◌++◌, Option, none, some, ◌==◌, string_key,
  if◌then◌else◌, is_empty, is_negative, minus_one,
}
use aelkey.Lua.{Value, Table, get, values, as_int, as_str, as_bool, as_table, or_else}
use aelkey.Device.Decl.{InputDecl, OutputDecl, default_input, default_output}

-- The bus numbers of linux/input.h.
abbrev pub bus_pci : ℤ
bus_pci = pos 1

abbrev pub bus_usb : ℤ
bus_usb = pos 3

abbrev pub bus_bluetooth : ℤ
bus_bluetooth = pos 5

-- A field of the given type, and otherwise the default.
abbrev pub str_field : Table → String → String → String
str_field t k d = or_else (as_str (get t k)) d

abbrev pub int_field : Table → String → ℤ → ℤ
int_field t k d = or_else (as_int (get t k)) d

abbrev pub bool_field : Table → String → Bool → Bool
bool_field t k d = or_else (as_bool (get t k)) d

unfoldable pub bus_of : Option String → ℤ → ℤ
bus_of none d = d
bus_of (some s) d =
    if s == "usb"
    then bus_usb
    else if s == "bluetooth"
    then bus_bluetooth
    else if s == "pci"
    then bus_pci
    else d

-- The names of libevdev: -1 for a name that it does not know.
pub record EventNames : Type 0 where
  pub type_from_name : String → ℤ
  pub code_from_name : ℤ → String → ℤ

module _ (names : EventNames) where
  -- One entry of the `capabilities` array.
  unfoldable pub parse_capability : Value → List (ℤ × ℤ)
  parse_capability v = elim (as_table v) [
    | none ↦ []
    | some cap ↦
        let type_str = str_field cap "type" "" in
        let code_str = str_field cap "code" "" in
        if is_empty type_str || is_empty code_str
        then []
        else let type_id = names.type_from_name type_str in
          let code_id = names.code_from_name type_id code_str in
          if is_negative type_id || is_negative code_id then [] else (type_id, code_id) ∷ []
  ]

  unfoldable pub parse_capabilities : List Value → List (ℤ × ℤ)
  unfolding parse_capability
  parse_capabilities [] = []
  parse_capabilities (v ∷ vs) = parse_capability v ++ parse_capabilities vs

  unfoldable pub parse_input : Table → InputDecl
  unfolding parse_capabilities bus_of
  parse_input t = record default_input {
    id = str_field t "id" "";
    type = str_field t "type" "";
    grab = bool_field t "grab" false;
    vendor = int_field t "vendor" (pos 0);
    product = int_field t "product" (pos 0);
    bus = bus_of (as_str (get t "bus")) (pos 0);
    interface = int_field t "interface" minus_one;
    name = str_field t "name" "";
    phys = str_field t "phys" "";
    uniq = str_field t "uniq" "";
    capabilities = elim (as_table (get t "capabilities")) [
      | none ↦ []
      | some caps ↦ parse_capabilities (values caps)
    ];
    service = int_field t "service" (pos 0);
    characteristic = int_field t "characteristic" (pos 0);
    on_event = str_field t "on_event" "";
    on_state = str_field t "on_state" "";
  }

unfoldable pub strings_of : List Value → List String
strings_of [] = []
strings_of (v ∷ vs) = (elim (as_str v) [ none ↦ [] | some s ↦ s ∷ [] ]) ++ strings_of vs

unfoldable pub parse_output : Table → OutputDecl
unfolding strings_of bus_of
parse_output t = record {
  id = str_field t "id" "";
  type = str_field t "type" "";
  vendor = int_field t "vendor" default_output.vendor;
  product = int_field t "product" default_output.product;
  version = int_field t "version" default_output.version;
  bus = bus_of (as_str (get t "bus")) default_output.bus;
  name = str_field t "name" "";
  on_haptics = str_field t "on_haptics" "";
  capabilities = elim (as_table (get t "capabilities")) [
    | none ↦ []
    | some caps ↦ strings_of (values caps)
  ];
}
