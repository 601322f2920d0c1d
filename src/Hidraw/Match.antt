-- ===== src/Hidraw/Match.antt =====
-- `DeviceBackendHidraw::match`.
use aelkey.Base.{
  ℤ, pos, u16, String, Bool, true, false, not, ◌&&◌, ◌||◌, List, Option, none, some, is_empty,
  is_zero, is_negative, minus_one, eqb_ℤ, eqb_ℤ_iff, ==_iff, if◌then◌else◌, string_key, ◌==◌, ◌≡◌,
  ◌⊎◌, refl, arith, Bool-cases, Option-cases, inl, inr,
}
use aelkey.Device.Decl.{InputDecl}
use aelkey.Device.Helpers.{Match, match_string}
use aelkey.Device.Enumerate.{enumerate_and_match, IsFirstFit, first-IsFirstFit}

-- What the ioctls of an open device return; a text is none where its ioctl fails. `vendor` and
-- `product` are 16-bit numbers with a sign. `interface_num` is the property ID_USB_INTERFACE_NUM,
-- none where the udev device or the property is missing.
pub record HidrawInfo : Type 0 where
  pub bustype : ℤ
  pub vendor : ℤ
  pub product : ℤ
  pub name : Option String
  pub phys : Option String
  pub uniq : Option String
  pub interface_num : Option String

-- A device of the enumeration. `info` is none where the node cannot be opened, or HIDIOCGRAWINFO
-- fails.
pub record HidrawNode : Type 0 where
  pub devnode : Option String
  pub info : Option HidrawInfo

-- `hex` is `std::stoi` to base 16.
module _ (regex : String → Option (String → Match)) (hex : String → ℤ) where
  unfoldable pub get_interface_num : HidrawInfo → ℤ
  get_interface_num info = elim info.interface_num [ none ↦ minus_one | some s ↦ hex s ]

  abbrev id_ok : ℤ → ℤ → Bool
  id_ok wanted found = is_zero wanted || eqb_ℤ found wanted

  -- `missing` is what a text that cannot be read counts as.
  abbrev text_ok : String → Option String → Bool → Bool
  text_ok pattern found missing =
      is_empty pattern || (elim found [ none ↦ missing | some s ↦ match_string regex pattern s ])

  unfoldable pub hidraw_described : InputDecl → HidrawInfo → Bool
  hidraw_described decl info =
      id_ok decl.bus info.bustype
      && id_ok decl.vendor (pos (u16 info.vendor))
      && id_ok decl.product (pos (u16 info.product))
      && text_ok decl.name info.name false
      && text_ok decl.phys info.phys true
      && text_ok decl.uniq info.uniq true
      && (is_negative decl.interface || eqb_ℤ (get_interface_num info) decl.interface)

  -- The function that the enumeration applies to each device.
  unfoldable pub hidraw_matcher : InputDecl → HidrawNode → String
  unfolding hidraw_described
  hidraw_matcher decl dev = elim dev.devnode [
    | none ↦ ""
    | some devnode ↦ elim dev.info [
      | none ↦ ""
      | some info ↦ if hidraw_described decl info then devnode else ""
    ]
  ]

  unfoldable pub hidraw_match : InputDecl → List HidrawNode → Option String
  unfolding enumerate_and_match hidraw_matcher
  hidraw_match decl devs =
      let result = enumerate_and_match (hidraw_matcher decl) devs in
      if not (decl.type == "hidraw") then none else if is_empty result then none else some result

  -- What the declaration asks of a device. A physical path or a serial number that the kernel does
  -- not give is no reason to refuse the device.
  pub record Fits (decl : InputDecl) (i : HidrawInfo) : Type 0 where
    pub bus : (is_zero decl.bus ≡ true) ⊎ (i.bustype ≡ decl.bus)
    pub vendor : (is_zero decl.vendor ≡ true) ⊎ (pos (u16 i.vendor) ≡ decl.vendor)
    pub product : (is_zero decl.product ≡ true) ⊎ (pos (u16 i.product) ≡ decl.product)
    pub name :
        (is_empty decl.name ≡ true)
        ⊎ ((s : String) × (i.name ≡ some s) × (match_string regex decl.name s ≡ true))
    pub phys :
        (i.phys ≡ none)
        ⊎ ((s : String) × (i.phys ≡ some s) × (match_string regex decl.phys s ≡ true))
    pub uniq :
        (i.uniq ≡ none)
        ⊎ ((s : String) × (i.uniq ≡ some s) × (match_string regex decl.uniq s ≡ true))
    pub interface : (is_negative decl.interface ≡ true) ⊎ (get_interface_num i ≡ decl.interface)

  id_lem : (a b : ℤ) → id_ok a b ≡ true → (is_zero a ≡ true) ⊎ (b ≡ a)
  id_lem a b h = ground (arith, eqb_ℤ_iff b a)

  required_lem :
      (p : String) (o : Option String)
      → text_ok p o false ≡ true
      → (is_empty p ≡ true) ⊎ ((s : String) × (o ≡ some s) × (match_string regex p s ≡ true))
  required_lem p none h = inl (ground arith)
  required_lem p (some s) h = elim (Bool-cases (is_empty p)) [
    | inl e ↦ inl e
    | inr e ↦ inr (s, refl, ground arith)
  ]

  optional_lem :
      (p : String) (o : Option String)
      → text_ok p o true ≡ true
      → (o ≡ none) ⊎ ((s : String) × (o ≡ some s) × (match_string regex p s ≡ true))
  unfolding match_string
  optional_lem p none h = inl refl
  optional_lem p (some s) h = inr (s, refl, ground arith)

  hidraw_described-Fits :
      (decl : InputDecl) (i : HidrawInfo) → hidraw_described decl i ≡ true → Fits decl i
  unfolding hidraw_described
  hidraw_described-Fits decl i h = record {
    bus = id_lem decl.bus i.bustype (ground arith);
    vendor = id_lem decl.vendor (pos (u16 i.vendor)) (ground arith);
    product = id_lem decl.product (pos (u16 i.product)) (ground arith);
    name = required_lem decl.name i.name (ground arith);
    phys = optional_lem decl.phys i.phys (ground arith);
    uniq = optional_lem decl.uniq i.uniq (ground arith);
    interface = ground (arith, eqb_ℤ_iff (get_interface_num i) decl.interface);
  }

  hidraw_matcher-Fits :
      (decl : InputDecl) (dev : HidrawNode)
      → is_empty (hidraw_matcher decl dev) ≡ false
      → (i : HidrawInfo) × (dev.info ≡ some i)
        × (dev.devnode ≡ some (hidraw_matcher decl dev))
        × Fits decl i
  unfolding hidraw_matcher
  hidraw_matcher-Fits decl dev h = elim (Option-cases dev.devnode) [
    | inl e ↦
        let c : hidraw_matcher decl dev ≡ "" = rw (e, hidraw_matcher) refl in absurd (not_empty c h)
    | inr (n, e) ↦ elim (Option-cases dev.info) [
      | inl f ↦
          let c : hidraw_matcher decl dev ≡ "" = rw (e, f, hidraw_matcher) refl in
          absurd (not_empty c h)
      | inr (i, f) ↦ elim (Bool-cases (hidraw_described decl i)) [
        | inl g ↦
            let c : hidraw_matcher decl dev ≡ n = rw (e, f, g, hidraw_matcher) refl in
            (i, f, rw c e, hidraw_described-Fits decl i g)
        | inr g ↦
            let c : hidraw_matcher decl dev ≡ "" = rw (e, f, g, hidraw_matcher) refl in
            absurd (not_empty c h)
      ]
    ]
  ]
    where
      not_empty : {s : String} → s ≡ "" → is_empty s ≡ false → ⊥
      not_empty {s} c k = let t : is_empty s ≡ true = rw c refl in cc

  id_ok_lem : (a b : ℤ) → (is_zero a ≡ true) ⊎ (b ≡ a) → id_ok a b ≡ true
  id_ok_lem a b h = ground (arith, eqb_ℤ_iff b a)

  required_ok :
      (p : String) (o : Option String)
      → (is_empty p ≡ true) ⊎ ((s : String) × (o ≡ some s) × (match_string regex p s ≡ true))
      → text_ok p o false ≡ true
  required_ok p o (inl e) = ground arith
  required_ok p o (inr (s, e, m)) = rw e (ground arith)

  optional_ok :
      (p : String) (o : Option String)
      → (o ≡ none) ⊎ ((s : String) × (o ≡ some s) × (match_string regex p s ≡ true))
      → text_ok p o true ≡ true
  optional_ok p o (inl e) = rw e (ground arith)
  optional_ok p o (inr (s, e, m)) = rw e (ground arith)

  Fits-hidraw_described :
      (decl : InputDecl) (i : HidrawInfo) → Fits decl i → hidraw_described decl i ≡ true
  unfolding hidraw_described
  Fits-hidraw_described decl i f =
      let bus = id_ok_lem decl.bus i.bustype f.bus in
      let vendor = id_ok_lem decl.vendor (pos (u16 i.vendor)) f.vendor in
      let product = id_ok_lem decl.product (pos (u16 i.product)) f.product in
      let name = required_ok decl.name i.name f.name in
      let phys = optional_ok decl.phys i.phys f.phys in
      let uniq = optional_ok decl.uniq i.uniq f.uniq in
      ground (arith, f.interface, eqb_ℤ_iff (get_interface_num i) decl.interface)

  -- A device has a node, which is not empty, can be opened, and is what the declaration asks for.
  pub FitsAt : InputDecl → HidrawNode → String → Type 0
  FitsAt decl dev node =
      (dev.devnode ≡ some node)
      × (is_empty node ≡ false)
      × ((i : HidrawInfo) × (dev.info ≡ some i) × Fits decl i)

  hidraw_matcher-FitsAt :
      (decl : InputDecl) (dev : HidrawNode)
      → is_empty (hidraw_matcher decl dev) ≡ false
      → FitsAt decl dev (hidraw_matcher decl dev)
  unfolding FitsAt
  hidraw_matcher-FitsAt decl dev h =
      let (i, p, q, d) = hidraw_matcher-Fits decl dev h in (q, h, (i, p, d))

  FitsAt-hidraw_matcher :
      (decl : InputDecl) (dev : HidrawNode) (node : String)
      → FitsAt decl dev node
      → is_empty (hidraw_matcher decl dev) ≡ false
  unfolding FitsAt hidraw_matcher
  FitsAt-hidraw_matcher decl dev node (n, full, (i, p, d)) =
      rw (n, p, Fits-hidraw_described decl i d, hidraw_matcher) full

  -- A node that the match returns is that of the first device of the enumeration that fits the
  -- declaration, and the declaration is of a hidraw device. A device fits where it has a node and
  -- can be opened, it has the bus, the vendor, the product and the interface that are set, and a
  -- name that matches where one is set; its physical path and its serial number match where the
  -- kernel gives them.
  pub hidraw_match-Fits :
      (decl : InputDecl) (devs : List HidrawNode) (node : String)
      → hidraw_match decl devs ≡ some node
      → (decl.type ≡ "hidraw") × IsFirstFit (FitsAt decl) devs node
  unfolding hidraw_match
  hidraw_match-Fits decl devs node h =
      let result = enumerate_and_match (hidraw_matcher decl) devs in
      let type : decl.type ≡ "hidraw" = ground (arith, ==_iff decl.type "hidraw") in
      let kept : is_empty result ≡ false = ground arith in
      let same : result ≡ node = ground arith in
      (
        type,
        first-IsFirstFit (hidraw_matcher decl) (FitsAt decl) devs node (hidraw_matcher-FitsAt decl)
            (FitsAt-hidraw_matcher decl) kept same,
      )
