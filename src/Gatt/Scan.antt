-- ===== src/Gatt/Scan.antt =====
-- What the walks over BlueZ's objects find: the children of an object, and the devices.
use aelkey.Base.{
  ℕ, ℤ, none, starts_with, eqb_ℤ_iff, Option-cases, String, Bool, true, false, ◌&&◌, ◌||◌, List, [],
  ◌∷◌, some, is_zero, if◌then◌else◌, string_key, ◌==◌, ◌≡◌, ◌⊎◌, refl, ◌∙◌, arith, All, IsIn,
  All-append, All-weaken, Bool-cases, inl, inr,
}
use aelkey.Gatt.Hex.{as_int}
use aelkey.Gatt.Paths.{handle_after}
use aelkey.Gatt.Bus.{Property, GattObject}
use aelkey.Gatt.Tree.{
  is_under, scan_interfaces, scan_objects, scan_parents, DeviceInfo, read_props, read_device,
}

-- The object has an interface of the name.
unfoldable pub has_interface : String → List (String × List (String × Property)) → Bool
has_interface name [] = false
has_interface name ((n, props) ∷ ifaces) = n == name || has_interface name ifaces

-- An object of the reply with the path, the interface, and a place and a handle that are wanted.
pub record IsChild (iface word : String) (wanted : ℤ) (os : List GattObject) (parent path : String)
    : Type 0 where
  pub object : GattObject
  pub is_in : IsIn object os
  pub same_path : object.path ≡ path
  pub interface : has_interface iface object.interfaces ≡ true
  pub under : starts_with object.path parent ≡ true
  pub handle :
      (n : ℕ) × (handle_after object.path word ≡ some n)
      × ((is_zero wanted ≡ true) ⊎ (as_int n ≡ wanted))

is_under-IsChild :
    (iface word : String) (wanted : ℤ) (os : List GattObject) (parent : String) (o : GattObject)
    → IsIn o os
    → has_interface iface o.interfaces ≡ true
    → is_under word wanted parent o.path ≡ true
    → IsChild iface word wanted os parent o.path
is_under-IsChild iface word wanted os parent o i h u =
    elim (Option-cases (handle_after o.path word)) [
      | inl e ↦ absurd (no_handle e)
      | inr (n, e) ↦ record {
        object = o;
        is_in = i;
        same_path = refl;
        interface = h;
        under = ground arith;
        handle = (n, e, ground (arith, eqb_ℤ_iff (as_int n) wanted));
      }
    ]
  where
    no_handle : handle_after o.path word ≡ none → ⊥
    no_handle e = ground arith

is_device-read_props :
    (props : List (String × Property)) (i : DeviceInfo)
    → (read_props props i).is_device ≡ i.is_device
unfolding read_props
is_device-read_props [] i = refl
is_device-read_props ((key, v) ∷ props) i = is_device-read_props props _ ∙ ground arith

-- The walk over the interfaces of an object looks for that of a device.
pub is_device-read_device :
    (ifaces : List (String × List (String × Property))) (i : DeviceInfo)
    → (read_device ifaces i).is_device ≡ (i.is_device || has_interface "org.bluez.Device1" ifaces)
unfolding read_device has_interface
is_device-read_device [] i = ground arith
is_device-read_device ((iface, props) ∷ ifaces) i =
    let j =
      if iface == "org.bluez.Device1"
      then read_props props (record i { is_device = true })
      else i in
    let head = is_device-read_props props (record i { is_device = true }) in
    is_device-read_device ifaces j ∙ ground (arith, head)

pub All-scan_interfaces :
    (P : String → Type 0) (iface : String) (under : Bool) (path : String)
    (ifaces : List (String × List (String × Property)))
    → (has_interface iface ifaces ≡ true → under ≡ true → P path)
    → All P (scan_interfaces iface under path ifaces)
unfolding scan_interfaces has_interface
All-scan_interfaces P iface under path [] h = tt
All-scan_interfaces P iface under path ((n, props) ∷ ifaces) h =
    let rest = All-scan_interfaces P iface under path ifaces (λ a b. h (ground arith) b) in
    elim (Bool-cases (n == iface && under)) [
      | inl e ↦ rw e (h (ground arith) (ground arith), rest)
      | inr e ↦ rw e rest
    ]

module _ (iface word : String) (wanted : ℤ) (all : List GattObject) where
  scan_objects-IsChild :
      (parent : String) (os : List GattObject)
      → ((o : GattObject) → IsIn o os → IsIn o all)
      → All (IsChild iface word wanted all parent) (scan_objects iface word wanted parent os)
  unfolding scan_objects
  scan_objects-IsChild parent [] into = tt
  scan_objects-IsChild parent (o ∷ os) into =
      let P = IsChild iface word wanted all parent in
      All-append P (scan_interfaces iface (is_under word wanted parent o.path) o.path o.interfaces)
        (scan_objects iface word wanted parent os)
        (All-scan_interfaces P iface (is_under word wanted parent o.path) o.path o.interfaces
          (λ i u. is_under-IsChild iface word wanted all parent o (into o (inl refl)) i u))
        (scan_objects-IsChild parent os (λ p i. into p (inr i)))

  -- A child of one of the parents.
  abbrev pub ChildOf : List String → String → Type 0
  ChildOf ps path = (parent : String) × IsIn parent ps × IsChild iface word wanted all parent path

  pub scan_parents-ChildOf :
      (full ps : List String)
      → ((p : String) → IsIn p ps → IsIn p full)
      → All (ChildOf full) (scan_parents iface word wanted ps all)
  unfolding scan_parents
  scan_parents-ChildOf full [] into = tt
  scan_parents-ChildOf full (p ∷ ps) into =
      All-append (ChildOf full) (scan_objects iface word wanted p all)
        (scan_parents iface word wanted ps all)
        (All-weaken (IsChild iface word wanted all p) (ChildOf full)
          (scan_objects iface word wanted p all) (λ path c. (p, into p (inl refl), c))
          (scan_objects-IsChild p all (λ o i. i)))
        (scan_parents-ChildOf full ps (λ q i. into q (inr i)))
