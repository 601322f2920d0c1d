-- ===== src/Gatt/Tree.antt =====
-- The walks over the reply to GetManagedObjects, source/device_backend_gatt.cc.
use aelkey.Base.{
  ℤ, ◌-◌, String, Bool, true, false, not, ◌&&◌, ◌||◌, List, [], ◌∷◌, ◌++◌, Option, none, some,
  is_empty, is_zero, eqb_ℤ, starts_with, size, prefix, ltb, if◌then◌else◌, string_key, ◌==◌, ◌<>◌,
}
use aelkey.Device.Decl.{InputDecl}
use aelkey.Device.Helpers.{Match, match_string}
use aelkey.Gatt.Bus.{Property, text, strings, GattObject}
use aelkey.Gatt.Hex.{as_int}
use aelkey.Gatt.Paths.{handle_after, strstr, drop}

-- What a walk reads of a device: whether the object is one, and its names.
pub record DeviceInfo : Type 0 where
  pub is_device : Bool
  pub name : String
  pub alias : String
  pub address : String

abbrev pub no_info : DeviceInfo
no_info = record { is_device = false; name = ""; alias = ""; address = "" }

-- The text of a property, or "".
abbrev pub text_of : Property → String
text_of (text s) = s
text_of _ = ""

unfoldable pub read_props : List (String × Property) → DeviceInfo → DeviceInfo
read_props [] i = i
read_props ((key, v) ∷ props) i = read_props props (
    if key == "Name"
    then record i { name = text_of v }
    else if key == "Alias"
    then record i { alias = text_of v }
    else if key == "Address"
    then record i { address = text_of v }
    else i)

unfoldable pub read_device : List (String × List (String × Property)) → DeviceInfo → DeviceInfo
unfolding read_props
read_device [] i = i
read_device ((iface, props) ∷ ifaces) i =
    read_device ifaces
      (if iface == "org.bluez.Device1" then read_props props (record i { is_device = true }) else i)

unfoldable pub is_empty_list {ℓ} : {A : Type ℓ} → List A → Bool
is_empty_list [] = true
is_empty_list (x ∷ xs) = false

unfoldable pub has_string : String → List String → Bool
has_string s [] = false
has_string s (t ∷ ts) = t == s || has_string s ts

unfoldable pub first_string : List String → String
first_string [] = ""
first_string (s ∷ ss) = s

module _ (regex : String → Option (String → Match)) where
  -- The address is asked for first, then the name or the alias.
  unfoldable pub device_matches : InputDecl → DeviceInfo → Bool
  device_matches decl i =
      (not (is_empty decl.uniq) && match_string regex decl.uniq i.address)
      || (not (is_empty decl.name)
          && (match_string regex decl.name i.name || match_string regex decl.name i.alias))

  abbrev pub is_wanted : InputDecl → GattObject → Bool
  is_wanted decl o =
      let i = read_device o.interfaces no_info in i.is_device && device_matches decl i

  unfoldable pub get_matching_devices : InputDecl → List GattObject → List String
  unfolding device_matches
  get_matching_devices decl [] = []
  get_matching_devices decl (o ∷ os) =
      let rest = get_matching_devices decl os in if is_wanted decl o then o.path ∷ rest else rest

-- The object lies under the parent, and its path has a handle after `word` that is the wanted one,
-- if one is wanted.
abbrev pub is_under : String → ℤ → String → String → Bool
is_under word wanted parent path = starts_with path parent && (elim (handle_after path word) [
  | none ↦ false
  | some n ↦ is_zero wanted || eqb_ℤ (as_int n) wanted
])

-- One entry for each interface of the object that has the name.
unfoldable pub scan_interfaces :
    String → Bool → String → List (String × List (String × Property)) → List String
scan_interfaces iface under path [] = []
scan_interfaces iface under path ((name, props) ∷ ifaces) =
    let rest = scan_interfaces iface under path ifaces in
    if name == iface && under then path ∷ rest else rest

unfoldable pub scan_objects : String → String → ℤ → String → List GattObject → List String
unfolding scan_interfaces
scan_objects iface word wanted parent [] = []
scan_objects iface word wanted parent (o ∷ os) =
    scan_interfaces iface (is_under word wanted parent o.path) o.path o.interfaces
    ++ scan_objects iface word wanted parent os

-- A fresh scan for each parent.
unfoldable pub scan_parents : String → String → ℤ → List String → List GattObject → List String
unfolding scan_objects
scan_parents iface word wanted [] os = []
scan_parents iface word wanted (p ∷ ps) os =
    scan_objects iface word wanted p os ++ scan_parents iface word wanted ps os

unfoldable pub get_matching_services : InputDecl → List String → List GattObject → List String
unfolding scan_parents
get_matching_services decl = scan_parents "org.bluez.GattService1" "service" decl.service

unfoldable pub get_matching_characteristics :
    InputDecl → List String → List GattObject → List String
unfolding scan_parents
get_matching_characteristics decl =
    scan_parents "org.bluez.GattCharacteristic1" "char" decl.characteristic

module _ (regex : String → Option (String → Match)) where
  -- `collect` is `found_characteristics != nullptr`. The result is the path, and the
  -- characteristics that are stored there.
  unfoldable pub resolve_gatt_paths :
      InputDecl → Bool → Option (List GattObject) → String × List String
  resolve_gatt_paths decl collect none = ("", [])
  resolve_gatt_paths decl collect (some os) =
      let devices = get_matching_devices regex decl os in
      let services = get_matching_services decl devices os in
      let characteristics = get_matching_characteristics decl services os in
      if is_empty_list devices
      then ("", [])
      else if is_zero decl.service && not collect
      then (first_string devices, [])
      else if is_empty_list services
      then ("", [])
      else if is_zero decl.characteristic && not collect
      then (first_string services, [])
      else (
        if is_zero decl.service
            then first_string devices
            else if is_zero decl.characteristic
            then first_string services
            else first_string characteristics,
        if collect then characteristics else [],
      )

-- The property of an interface, of those that the walk below reads.
unfoldable pub find_prop : String → List (String × Property) → Option Property
find_prop key [] = none
find_prop key ((k, v) ∷ props) = let rest = find_prop key props in if k == key then some v else rest

unfoldable pub find_in_ifaces : String → List (String × List (String × Property)) → Option Property
unfolding find_prop
find_in_ifaces key [] = none
find_in_ifaces key ((name, props) ∷ ifaces) =
    let rest = find_in_ifaces key ifaces in
    if name == "org.bluez.GattCharacteristic1"
    then elim (find_prop key props) [ none ↦ rest | some v ↦ some v ]
    else rest

-- The first such property of a characteristic with the path.
unfoldable pub find_characteristic_prop : String → String → List GattObject → Option Property
unfolding find_in_ifaces
find_characteristic_prop key path [] = none
find_characteristic_prop key path (o ∷ os) =
    let rest = find_characteristic_prop key path os in
    if o.path == path
    then elim (find_in_ifaces key o.interfaces) [ none ↦ rest | some v ↦ some v ]
    else rest

unfoldable pub get_characteristic_uuid : String → Option (List GattObject) → String
unfolding find_characteristic_prop
get_characteristic_uuid path none = ""
get_characteristic_uuid path (some os) = elim (find_characteristic_prop "UUID" path os) [
  | none ↦ ""
  | some v ↦ text_of v
]

abbrev pub strings_of : Property → List String
strings_of (strings ss) = ss
strings_of _ = []

unfoldable pub get_characteristic_flags : String → Option (List GattObject) → List String
unfolding find_characteristic_prop
get_characteristic_flags path none = []
get_characteristic_flags path (some os) = elim (find_characteristic_prop "Flags" path os) [
  | none ↦ []
  | some v ↦ strings_of v
]

unfoldable pub join_flags : List String → String
join_flags [] = ""
join_flags (f ∷ []) = f
join_flags (f ∷ g ∷ fs) = f <> ", " <> join_flags (g ∷ fs)

-- The four characters after `word`, or "0000".
unfoldable pub four_after : String → String → String
unfolding strstr drop
four_after word path = elim (strstr path word) [
  | none ↦ "0000"
  | some p ↦ prefix 4 (drop (size word) p)
]

-- The line that describes a characteristic, of the UUID its last four digits.
unfoldable pub inspect_line : String → String → List String → String
unfolding join_flags four_after
inspect_line ch uuid flags =
    let short = if ltb (size uuid) 4 then uuid else drop (size uuid - 4) uuid in
    "-- service=0x"
    <> four_after "service" ch
    <> ", char=0x"
    <> four_after "char" ch
    <> ", -- uuid="
    <> short
    <> ", flags=["
    <> join_flags flags
    <> "]"
