-- ===== src/Gatt/Paths.antt =====
-- The paths of BlueZ's objects: a device's, a service's under it, a characteristic's under that.
use aelkey.Base.{
  ℕ, ℤ, zero, suc, pos, negsuc, ◌<◌, String, true, false, not, ◌&&◌, ◌||◌, Option, none, some, Map,
  find, is_positive, is_empty, starts_with, has_infix, size, ◌<>◌, if◌then◌else◌, string_key, ◌≡◌,
  refl, ap, arith,
}
use Prim.Native.Char.{Char}
use aelkey.Gatt.Hex.{hex4, strtoul16, strtoul16-hex4, digits_from, hex_value}

-- s.substr(n)
unfoldable pub drop : ℕ → String → String
drop zero s = s
drop (suc n) String.[] = String.[]
drop (suc n) (String.◌∷◌ c s) = drop n s

-- s.substr(0, s.find(p)), none where p does not occur
unfoldable pub before : String → String → Option String
before String.[] p = if starts_with String.[] p then some "" else none
before (String.◌∷◌ c s) p =
    let rest = before s p in
    if starts_with (String.◌∷◌ c s) p
    then some ""
    else elim rest [ none ↦ none | some b ↦ some (String.◌∷◌ c b) ]

-- strstr(s, p)
unfoldable pub strstr : String → String → Option String
strstr String.[] p = if starts_with String.[] p then some String.[] else none
strstr (String.◌∷◌ c s) p =
    let rest = strstr s p in if starts_with (String.◌∷◌ c s) p then some (String.◌∷◌ c s) else rest

pub data GattPathType : Type 0 where
  characteristic_path : GattPathType
  service_path : GattPathType
  device_path : GattPathType

unfoldable pub classify_gatt_path : String → GattPathType
unfolding has_infix
classify_gatt_path path =
    if has_infix path "/char"
    then characteristic_path
    else if has_infix path "/service"
    then service_path
    else device_path

unfoldable pub derive_device_path_from_char_path : String → String
unfolding before
derive_device_path_from_char_path char_path = elim (before char_path "/service") [
  | none ↦ ""
  | some path ↦ path
]

-- The number after the first `word` in a path: `strtoul(p + strlen(word), nullptr, 16)`.
unfoldable pub handle_after : String → String → Option ℕ
unfolding strstr drop
handle_after path word = elim (strstr path word) [
  | none ↦ none
  | some p ↦ some (strtoul16 (drop (size word) p))
]

unfoldable pub get_gatt_path : Map String String → String → String
get_gatt_path gatt_paths id = elim (find id gatt_paths) [ none ↦ "" | some path ↦ path ]

abbrev pub hex4_of : ℤ → String
hex4_of (pos n) = hex4 n
hex4_of (negsuc n) = ""

unfoldable pub resolve_char_path : Map String String → String → ℤ → ℤ → String
unfolding get_gatt_path
resolve_char_path gatt_paths id service characteristic =
    let gp = get_gatt_path gatt_paths id in
    if is_empty gp
    then ""
    else if not (is_positive service) && not (is_positive characteristic)
    then gp
    else if not (is_positive service) || not (is_positive characteristic)
    then ""
    else gp <> "/service" <> hex4_of service <> "/char" <> hex4_of characteristic

before-cons :
    (c : Char) (s p b : String)
    → starts_with (String.◌∷◌ c s) p ≡ false
    → before s p ≡ some b
    → before (String.◌∷◌ c s) p ≡ some (String.◌∷◌ c b)
unfolding before
before-cons c s p b h e = rw (h, e, before) refl

-- No `/service` begins inside a text without `s`.
not_service :
    (c : Char) (gp t : String)
    → has_infix (String.◌∷◌ c gp) "s" ≡ false
    → starts_with (String.◌∷◌ c (gp <> "/service" <> t)) "/service" ≡ false
unfolding has_infix starts_with ◌<>◌
not_service c String.[] t h = ground arith
not_service c (String.◌∷◌ d gp) t h = ground arith

before-service :
    (gp t : String) → has_infix gp "s" ≡ false → before (gp <> "/service" <> t) "/service" ≡ some gp
unfolding has_infix ◌<>◌ before starts_with
before-service String.[] t h = refl
before-service (String.◌∷◌ c gp) t h =
    let rest : has_infix gp "s" ≡ false = ground arith in
    before-cons c (gp <> "/service" <> t) "/service" gp (not_service c gp t h)
      (before-service gp t rest)

strstr-service :
    (gp t : String)
    → has_infix gp "s" ≡ false
    → strstr (gp <> "/service" <> t) "service" ≡ some ("service" <> t)
unfolding has_infix ◌<>◌ strstr starts_with
strstr-service String.[] t h = refl
strstr-service (String.◌∷◌ c gp) t h =
    let rest : has_infix gp "s" ≡ false = ground arith in
    let other : starts_with (String.◌∷◌ c (gp <> "/service" <> t)) "service" ≡ false =
      ground arith in
    rw (other, strstr) (strstr-service gp t rest)

has_infix-append : (s t p : String) → has_infix t p ≡ true → has_infix (s <> t) p ≡ true
unfolding has_infix ◌<>◌
has_infix-append String.[] t p h = h
has_infix-append (String.◌∷◌ c s) t p h = ground (arith, has_infix-append s t p h)

made : String → ℕ → ℕ → String
made gp service characteristic = gp <> "/service" <> hex4 service <> "/char" <> hex4 characteristic

resolve_char_path-made :
    (gatt_paths : Map String String) (id gp : String) (service characteristic : ℕ)
    → find id gatt_paths ≡ some gp
    → is_empty gp ≡ false
    → 0 < service
    → 0 < characteristic
    → resolve_char_path gatt_paths id (pos service) (pos characteristic)
      ≡ made gp service characteristic
unfolding made resolve_char_path ◌<>◌
resolve_char_path-made gatt_paths id gp service characteristic e full s0 c0 =
    let svc : is_positive (pos service) ≡ true = ground arith in
    let chr : is_positive (pos characteristic) ≡ true = ground arith in
    rw (resolve_char_path, get_gatt_path, e, full, svc, chr) refl

classify_gatt_path-made :
    (gp : String) (service characteristic : ℕ)
    → classify_gatt_path (made gp service characteristic) ≡ characteristic_path
unfolding made has_infix starts_with ◌<>◌ classify_gatt_path
classify_gatt_path-made gp service characteristic =
    let rest = "/char" <> hex4 characteristic in
    let here : has_infix rest "/char" ≡ true = refl in
    let there : has_infix (made gp service characteristic) "/char" ≡ true =
      has_infix-append gp ("/service" <> hex4 service <> rest) "/char" (
        has_infix-append "/service" (hex4 service <> rest) "/char"
          (has_infix-append (hex4 service) rest "/char" here)) in
    rw (classify_gatt_path, there) refl

derive_device_path-made :
    (gp : String) (service characteristic : ℕ)
    → has_infix gp "s" ≡ false
    → derive_device_path_from_char_path (made gp service characteristic) ≡ gp
unfolding made derive_device_path_from_char_path
derive_device_path-made gp service characteristic h =
    let split = before-service gp (hex4 service <> "/char" <> hex4 characteristic) h in
    rw (derive_device_path_from_char_path, split) refl

handle_after-made :
    (gp : String) (service characteristic : ℕ)
    → has_infix gp "s" ≡ false
    → service < 65536
    → handle_after (made gp service characteristic) "service" ≡ some service
unfolding made drop ◌<>◌ digits_from hex_value size handle_after
handle_after-made gp service characteristic h s1 =
    let rest = "/char" <> hex4 characteristic in
    let found : strstr (made gp service characteristic) "service"
        ≡ some ("service" <> hex4 service <> rest) =
      strstr-service gp (hex4 service <> rest) h in
    rw (handle_after, found) (ap some (strtoul16-hex4 service rest s1 refl))

-- For a device path without the letter `s`, as BlueZ's are, and handles of 16 bits that are not 0,
-- the path that is made for a characteristic is taken for one, leads back to the device, and its
-- service's handle is read back.
pub resolve_char_path_roundtrip :
    (gatt_paths : Map String String) (id gp : String) (service characteristic : ℕ)
    → find id gatt_paths ≡ some gp
    → is_empty gp ≡ false
    → has_infix gp "s" ≡ false
    → 0 < service
    → service < 65536
    → 0 < characteristic
    → characteristic < 65536
    → let path = resolve_char_path gatt_paths id (pos service) (pos characteristic) in
      (classify_gatt_path path ≡ characteristic_path)
      × (derive_device_path_from_char_path path ≡ gp)
      × (handle_after path "service" ≡ some service)
resolve_char_path_roundtrip gatt_paths id gp service characteristic e full h s0 s1 c0 c1 =
    let path = made gp service characteristic in
    let same = resolve_char_path-made gatt_paths id gp service characteristic e full s0 c0 in
    rw same (
      classify_gatt_path-made gp service characteristic,
      derive_device_path-made gp service characteristic h,
      handle_after-made gp service characteristic h s1,
    )
