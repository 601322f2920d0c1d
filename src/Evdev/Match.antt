-- ===== src/Evdev/Match.antt =====
-- `DeviceBackendEvdev::match`.
use aelkey.Base.{
  ℤ, String, Bool, true, false, not, ◌&&◌, ◌||◌, List, [], ◌∷◌, Option, none, some, is_empty,
  is_zero, eqb_ℤ, eqb_ℤ_iff, ==_iff, if◌then◌else◌, string_key, ◌==◌, ◌≡◌, ◌⊎◌, refl, arith, All,
  Bool-cases, Option-cases, inl, inr,
}
use aelkey.Device.Decl.{InputDecl}
use aelkey.Device.Enumerate.{enumerate_and_match, IsFirstFit, first-IsFirstFit}
use aelkey.Device.Helpers.{Match, match_string}

-- What libevdev says of an open device; a name that it does not have is "".
pub record Evdev : Type 0 where
  pub bustype : ℤ
  pub vendor : ℤ
  pub product : ℤ
  pub name : String
  pub phys : String
  pub uniq : String
  pub has_event_code : ℤ → ℤ → Bool

-- A device of the enumeration: its node, and what libevdev reads where it can be opened.
pub record UdevNode : Type 0 where
  pub devnode : Option String
  pub evdev : Option Evdev

unfoldable pub has_all : Evdev → List (ℤ × ℤ) → Bool
has_all e [] = true
has_all e ((type, code) ∷ caps) = e.has_event_code type code && has_all e caps

module _ (regex : String → Option (String → Match)) where
  -- A field that is not set matches any device.
  abbrev pub id_ok : ℤ → ℤ → Bool
  id_ok wanted found = is_zero wanted || eqb_ℤ found wanted

  abbrev pub text_ok : String → String → Bool
  text_ok pattern found = is_empty pattern || match_string regex pattern found

  unfoldable pub is_described : InputDecl → Evdev → Bool
  unfolding has_all
  is_described decl e =
      id_ok decl.bus e.bustype
      && id_ok decl.vendor e.vendor
      && id_ok decl.product e.product
      && text_ok decl.name e.name
      && text_ok decl.phys e.phys
      && text_ok decl.uniq e.uniq
      && has_all e decl.capabilities

  -- The function that the enumeration applies to each device.
  unfoldable pub matcher : InputDecl → UdevNode → String
  unfolding is_described
  matcher decl dev = elim dev.devnode [
    | none ↦ ""
    | some devnode ↦ elim dev.evdev [
      | none ↦ ""
      | some e ↦ if is_described decl e then devnode else ""
    ]
  ]

  unfoldable pub evdev_match : InputDecl → List UdevNode → Option String
  unfolding enumerate_and_match matcher
  evdev_match decl devs =
      let result = enumerate_and_match (matcher decl) devs in
      if not (decl.type == "evdev") then none else if is_empty result then none else some result

  -- What the declaration asks of a device, field by field.
  pub record IsDescribed (decl : InputDecl) (e : Evdev) : Type 0 where
    pub bus : (is_zero decl.bus ≡ true) ⊎ (e.bustype ≡ decl.bus)
    pub vendor : (is_zero decl.vendor ≡ true) ⊎ (e.vendor ≡ decl.vendor)
    pub product : (is_zero decl.product ≡ true) ⊎ (e.product ≡ decl.product)
    pub name : match_string regex decl.name e.name ≡ true
    pub phys : match_string regex decl.phys e.phys ≡ true
    pub uniq : match_string regex decl.uniq e.uniq ≡ true
    pub codes : All (λ (c : ℤ × ℤ). e.has_event_code c.0 c.1 ≡ true) decl.capabilities

  id_lem : (a b : ℤ) → id_ok a b ≡ true → (is_zero a ≡ true) ⊎ (b ≡ a)
  id_lem a b h = ground (arith, eqb_ℤ_iff b a)

  text_lem : (p v : String) → text_ok p v ≡ true → match_string regex p v ≡ true
  unfolding match_string
  text_lem p v h = ground arith

  codes_lem :
      (e : Evdev) (caps : List (ℤ × ℤ))
      → has_all e caps ≡ true
      → All (λ (c : ℤ × ℤ). e.has_event_code c.0 c.1 ≡ true) caps
  unfolding has_all
  codes_lem e [] h = tt
  codes_lem e ((t, c) ∷ caps) h =
      let head : e.has_event_code t c ≡ true = ground arith in
      let tail : has_all e caps ≡ true = ground arith in (head, codes_lem e caps tail)

  is_described-IsDescribed :
      (decl : InputDecl) (e : Evdev) → is_described decl e ≡ true → IsDescribed decl e
  unfolding is_described
  is_described-IsDescribed decl e h = record {
    bus = id_lem decl.bus e.bustype (ground arith);
    vendor = id_lem decl.vendor e.vendor (ground arith);
    product = id_lem decl.product e.product (ground arith);
    name = text_lem decl.name e.name (ground arith);
    phys = text_lem decl.phys e.phys (ground arith);
    uniq = text_lem decl.uniq e.uniq (ground arith);
    codes = codes_lem e decl.capabilities (ground arith);
  }

  matcher-IsDescribed :
      (decl : InputDecl) (dev : UdevNode)
      → is_empty (matcher decl dev) ≡ false
      → (e : Evdev) × (dev.evdev ≡ some e)
        × (dev.devnode ≡ some (matcher decl dev))
        × IsDescribed decl e
  unfolding matcher
  matcher-IsDescribed decl dev h = elim (Option-cases dev.devnode) [
    | inl e ↦ let c : matcher decl dev ≡ "" = rw (e, matcher) refl in absurd (is_empty_lem c h)
    | inr (n, e) ↦ elim (Option-cases dev.evdev) [
      | inl f ↦ let c : matcher decl dev ≡ "" = rw (e, f, matcher) refl in absurd (is_empty_lem c h)
      | inr (i, f) ↦ elim (Bool-cases (is_described decl i)) [
        | inl g ↦
            let c : matcher decl dev ≡ n = rw (e, f, g, matcher) refl in
            (i, f, rw c e, is_described-IsDescribed decl i g)
        | inr g ↦
            let c : matcher decl dev ≡ "" = rw (e, f, g, matcher) refl in absurd (is_empty_lem c h)
      ]
    ]
  ]
    where
      is_empty_lem : {s : String} → s ≡ "" → is_empty s ≡ false → ⊥
      is_empty_lem {s} c k = let t : is_empty s ≡ true = rw c refl in cc

  has_all_lem :
      (e : Evdev) (caps : List (ℤ × ℤ))
      → All (λ (c : ℤ × ℤ). e.has_event_code c.0 c.1 ≡ true) caps
      → has_all e caps ≡ true
  unfolding has_all
  has_all_lem e [] a = refl
  has_all_lem e ((t, c) ∷ caps) a = rw (a.0) (has_all_lem e caps a.1)

  id_ok_lem : (a b : ℤ) → (is_zero a ≡ true) ⊎ (b ≡ a) → id_ok a b ≡ true
  id_ok_lem a b h = ground (arith, eqb_ℤ_iff b a)

  IsDescribed-is_described :
      (decl : InputDecl) (e : Evdev) → IsDescribed decl e → is_described decl e ≡ true
  unfolding is_described
  IsDescribed-is_described decl e d =
      let bus = id_ok_lem decl.bus e.bustype d.bus in
      let vendor = id_ok_lem decl.vendor e.vendor d.vendor in
      let product = id_ok_lem decl.product e.product d.product in
      let codes = has_all_lem e decl.capabilities d.codes in ground (arith, d.name, d.phys, d.uniq)

  -- A device has a node, which is not empty, can be opened, and is what the declaration asks for.
  pub Fits : InputDecl → UdevNode → String → Type 0
  Fits decl dev node =
      (dev.devnode ≡ some node)
      × (is_empty node ≡ false)
      × ((e : Evdev) × (dev.evdev ≡ some e) × IsDescribed decl e)

  matcher-Fits :
      (decl : InputDecl) (dev : UdevNode)
      → is_empty (matcher decl dev) ≡ false
      → Fits decl dev (matcher decl dev)
  unfolding Fits
  matcher-Fits decl dev h = let (e, p, q, d) = matcher-IsDescribed decl dev h in (q, h, (e, p, d))

  Fits-matcher :
      (decl : InputDecl) (dev : UdevNode) (node : String)
      → Fits decl dev node
      → is_empty (matcher decl dev) ≡ false
  unfolding Fits matcher
  Fits-matcher decl dev node (n, full, (e, p, d)) =
      rw (n, p, IsDescribed-is_described decl e d, matcher) full

  -- A node that the match returns is that of the first device of the enumeration that fits the
  -- declaration, and the declaration is of an evdev device. A device fits where it has a node and
  -- can be opened, libevdev reads from it the bus, the vendor and the product that are set, the
  -- names that are set match, and it has every capability that is asked for.
  pub evdev_match-IsDescribed :
      (decl : InputDecl) (devs : List UdevNode) (node : String)
      → evdev_match decl devs ≡ some node
      → (decl.type ≡ "evdev") × IsFirstFit (Fits decl) devs node
  unfolding evdev_match
  evdev_match-IsDescribed decl devs node h =
      let result = enumerate_and_match (matcher decl) devs in
      let type : decl.type ≡ "evdev" = ground (arith, ==_iff decl.type "evdev") in
      let kept : is_empty result ≡ false = ground arith in
      let same : result ≡ node = ground arith in
      (
        type,
        first-IsFirstFit (matcher decl) (Fits decl) devs node (matcher-Fits decl)
            (Fits-matcher decl) kept same,
      )
