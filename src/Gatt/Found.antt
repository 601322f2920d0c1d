-- ===== src/Gatt/Found.antt =====
-- What a path is that the GATT backend resolves a declaration to.
use aelkey.Base.{
  String, Bool, true, false, List, [], ◌∷◌, Option, some, is_empty, is_zero, if◌then◌else◌,
  string_key, ◌≡◌, ◌⊎◌, refl, sym, ap, subst, ◌∙◌, arith, All, IsIn, All-IsIn, All-weaken,
  Bool-cases, inl, inr,
}
use aelkey.Device.Decl.{InputDecl}
use aelkey.Device.Helpers.{Match, match_string}
use aelkey.Gatt.Bus.{GattObject}
use aelkey.Gatt.Tree.{
  is_wanted, get_matching_devices, get_matching_services, get_matching_characteristics,
  resolve_gatt_paths, first_string, DeviceInfo, read_device, device_matches, no_info,
}
use aelkey.Gatt.Scan.{has_interface, IsChild, is_device-read_device, ChildOf, scan_parents-ChildOf}

-- The first of a list that is not empty has what all of the list have.
All-first_string :
    (P : String → Type 0) (xs : List String)
    → All P xs
    → is_empty (first_string xs) ≡ false
    → P (first_string xs)
unfolding first_string
All-first_string P [] a h = cc
All-first_string P (x ∷ xs) a h = a.0

module _ (regex : String → Option (String → Match)) (decl : InputDecl) (os : List GattObject) where
  -- The address is set and matches, or the name is set and matches the name or the alias.
  abbrev pub Describes : DeviceInfo → Type 0
  Describes i =
      ((is_empty decl.uniq ≡ false) × (match_string regex decl.uniq i.address ≡ true))
      ⊎ ((is_empty decl.name ≡ false)
          × ((match_string regex decl.name i.name ≡ true)
              ⊎ (match_string regex decl.name i.alias ≡ true)))

  device_matches-Describes : (i : DeviceInfo) → device_matches regex decl i ≡ true → Describes i
  unfolding device_matches
  device_matches-Describes i h = ground arith

  -- A device that BlueZ knows and the declaration describes.
  pub record IsDevice (path : String) : Type 0 where
    pub object : GattObject
    pub is_in : IsIn object os
    pub same_path : object.path ≡ path
    pub interface : has_interface "org.bluez.Device1" object.interfaces ≡ true
    pub described : Describes (read_device object.interfaces no_info)

  is_wanted-IsDevice :
      (o : GattObject) → IsIn o os → is_wanted regex decl o ≡ true → IsDevice o.path
  is_wanted-IsDevice o i h = record {
    object = o;
    is_in = i;
    same_path = refl;
    interface = ground (arith, is_device-read_device o.interfaces no_info);
    described = device_matches-Describes (read_device o.interfaces no_info) (ground arith);
  }

  get_matching_devices-IsDevice :
      (some_of : List GattObject)
      → ((o : GattObject) → IsIn o some_of → IsIn o os)
      → All IsDevice (get_matching_devices regex decl some_of)
  unfolding get_matching_devices
  get_matching_devices-IsDevice [] into = tt
  get_matching_devices-IsDevice (o ∷ rest) into =
      let found = get_matching_devices-IsDevice rest (λ p i. into p (inr i)) in
      elim (Bool-cases (is_wanted regex decl o)) [
        | inl e ↦ rw e (is_wanted-IsDevice o (into o (inl refl)) e, found)
        | inr e ↦ rw e found
      ]

  abbrev pub ServiceOf : String → String → Type 0
  ServiceOf = IsChild "org.bluez.GattService1" "service" decl.service os

  abbrev pub CharacteristicOf : String → String → Type 0
  CharacteristicOf = IsChild "org.bluez.GattCharacteristic1" "char" decl.characteristic os

  -- What the declaration asks for: a device, a service of it, or a characteristic of that.
  pub data IsResolved : String → Type 0 where
    to_device : (path : String) → is_zero decl.service ≡ true → IsDevice path → IsResolved path
    to_service :
        (dev path : String)
        → is_zero decl.service ≡ false
        → is_zero decl.characteristic ≡ true
        → IsDevice dev
        → ServiceOf dev path
        → IsResolved path
    to_characteristic :
        (dev svc path : String)
        → is_zero decl.service ≡ false
        → is_zero decl.characteristic ≡ false
        → IsDevice dev
        → ServiceOf dev svc
        → CharacteristicOf svc path
        → IsResolved path

  abbrev devices : List String
  devices = get_matching_devices regex decl os

  abbrev services : List String
  services = get_matching_services decl devices os

  devices-IsDevice : All IsDevice devices
  devices-IsDevice = get_matching_devices-IsDevice os (λ o i. i)

  Service : String → Type 0
  Service path = (dev : String) × IsDevice dev × ServiceOf dev path

  services-Service : All Service services
  unfolding get_matching_services Service
  services-Service =
      All-weaken (ChildOf "org.bluez.GattService1" "service" decl.service os devices) Service
        services
        (λ path c. let (dev, i, s) = c in (dev, All-IsIn IsDevice devices devices-IsDevice i, s))
        (scan_parents-ChildOf "org.bluez.GattService1" "service" decl.service os devices devices
          (λ p i. i))

  Characteristic : String → Type 0
  Characteristic path =
      (dev svc : String) × IsDevice dev × ServiceOf dev svc × CharacteristicOf svc path

  characteristics-Characteristic :
      All Characteristic (get_matching_characteristics decl services os)
  unfolding get_matching_characteristics Service Characteristic
  characteristics-Characteristic =
      All-weaken (ChildOf "org.bluez.GattCharacteristic1" "char" decl.characteristic os services)
        Characteristic (get_matching_characteristics decl services os)
        (λ path c.
          let (svc, i, s) = c in
          let (dev, d, t) = All-IsIn Service services services-Service i in (dev, svc, d, t, s))
        (scan_parents-ChildOf "org.bluez.GattCharacteristic1" "char" decl.characteristic os services
          services (λ p i. i))

  -- What is returned, where anything is.
  picked : String
  picked =
      if is_zero decl.service
      then first_string devices
      else if is_zero decl.characteristic
      then first_string services
      else first_string (get_matching_characteristics decl services os)

  resolve_gatt_paths-picked :
      (collect : Bool)
      → let path = (resolve_gatt_paths regex decl collect (some os)).0 in
        (path ≡ "") ⊎ (path ≡ picked)
  unfolding resolve_gatt_paths picked
  resolve_gatt_paths-picked collect = ground arith

  picked-IsResolved : is_empty picked ≡ false → IsResolved picked
  unfolding picked Service Characteristic
  picked-IsResolved h = elim (Bool-cases (is_zero decl.service)) [
    | inl s ↦
        let full : is_empty (first_string devices) ≡ false = ground arith in
        rw (s, picked)
          (to_device (first_string devices) s
            (All-first_string IsDevice devices devices-IsDevice full))
    | inr s ↦ elim (Bool-cases (is_zero decl.characteristic)) [
      | inl c ↦
          let full : is_empty (first_string services) ≡ false = ground arith in
          let (dev, d, t) = All-first_string Service services services-Service full in
          rw (s, c, picked) (to_service dev (first_string services) s c d t)
      | inr c ↦
          let found = get_matching_characteristics decl services os in
          let full : is_empty (first_string found) ≡ false = ground arith in
          let (dev, svc, d, t, u) =
            All-first_string Characteristic found characteristics-Characteristic full in
          rw (s, c, picked) (to_characteristic dev svc (first_string found) s c d t u)
    ]
  ]

  -- A path that a declaration resolves to is of an object that BlueZ has, and is what the
  -- declaration asks for: a device that its address or its name describes; if a service is set, one
  -- of such a device with that handle; if a characteristic is set too, one of such a service with
  -- that handle.
  pub resolve_gatt_paths-IsResolved :
      (collect : Bool)
      → let path = (resolve_gatt_paths regex decl collect (some os)).0 in
        is_empty path ≡ false → IsResolved path
  resolve_gatt_paths-IsResolved collect h = elim (resolve_gatt_paths-picked collect) [
    | inl e ↦ let empty : is_empty "" ≡ false = ap is_empty (sym e) ∙ h in cc
    | inr e ↦
        let full : is_empty picked ≡ false = ap is_empty (sym e) ∙ h in
        subst IsResolved (sym e) (picked-IsResolved full)
  ]
