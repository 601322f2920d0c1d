-- ===== src/Base/Maps.antt =====
-- `std::map`: the entries in the order of their keys. The laws of `find` hold for any list, so no
-- theorem about a lookup asks for the order.
use mathlib.Core.Path.{◌≡◌, refl, subst}
use mathlib.Core.Bool.{Bool, true, false}
use mathlib.Core.Option.{Option, none, some}
use mathlib.Core.List.{List, [], ◌∷◌, ◌++◌}
use native.Mathlib.Omega.{arith}
use aelkey.Base.Tests.{if◌then◌else◌, Bool-cases}
use mathlib.Core.Logic.{◌⊎◌, inl, inr}
use aelkey.Base.Key.{Key, ◌==◌, ==_iff, ==_refl}

abbrev pub Map {ℓ κ} : Type ℓ → Type κ → Type (ℓ ⊔ κ)
Map K V = List (K × V)

module _ {ℓ κ} {K : Type ℓ} {V : Type κ} ⦃key : Key K⦄ where
  -- m.find(k)
  unfoldable pub find : K → Map K V → Option V
  find k [] = none
  find k ((j, v) ∷ m) = if j == k then some v else find k m

  -- m.count(k) > 0, m.contains(k)
  unfoldable pub contains : K → Map K V → Bool
  unfolding find
  contains k m = elim (find k m) [ none ↦ false | some v ↦ true ]

  -- m[k] = v
  unfoldable pub insert : K → V → Map K V → Map K V
  insert k v [] = (k, v) ∷ []
  insert k v ((j, w) ∷ m) =
      if j == k
      then (k, v) ∷ m
      else if key.before k j
      then (k, v) ∷ (j, w) ∷ m
      else (j, w) ∷ insert k v m

  -- m.erase(k)
  unfoldable pub erase : K → Map K V → Map K V
  erase k [] = []
  erase k ((j, v) ∷ m) = let rest = erase k m in if j == k then rest else (j, v) ∷ rest

  pub find-insert :
      (k j : K) (v : V) (m : Map K V)
      → find j (insert k v m) ≡ (if k == j then some v else find j m)
  unfolding find insert
  find-insert k j v [] = refl
  find-insert k j v ((i, w) ∷ m) =
      ground (arith, ==_iff k j, ==_iff i k, ==_iff i j, find-insert k j v m)

  pub find-erase :
      (k j : K) (m : Map K V) → find j (erase k m) ≡ (if k == j then none else find j m)
  unfolding find erase
  find-erase k j [] = ground arith
  find-erase k j ((i, w) ∷ m) = ground (arith, ==_iff k j, ==_iff i k, ==_iff i j, find-erase k j m)

  -- Where a lookup hits: at the head, or further down.
  pub find_first : (k : K) (v : V) (m : Map K V) → find k ((k, v) ∷ m) ≡ some v
  unfolding find
  find_first k v m = rw (==_refl k) refl

  pub find_next :
      (k j : K) (v : V) (m : Map K V) → (j == k) ≡ false → find k ((j, v) ∷ m) ≡ find k m
  unfolding find
  find_next k j v m e = rw e refl

  pub find-cons :
      (k j : K) (w : V) (m : Map K V) {v : V}
      → find k ((j, w) ∷ m) ≡ some v
      → ((j ≡ k) × (w ≡ v)) ⊎ (((j == k) ≡ false) × (find k m ≡ some v))
  unfolding find
  find-cons k j w m h = ground (arith, ==_iff j k)

-- A property of every element.
abbrev pub All {ℓ κ} : {A : Type ℓ} → (A → Type κ) → List A → Type κ
All P [] = Unit
All P (x ∷ xs) = P x × All P xs

-- Membership.
abbrev pub IsIn : {A : Type 0} → A → List A → Type 0
IsIn x [] = ⊥
IsIn x (y ∷ ys) = (y ≡ x) ⊎ IsIn x ys

pub All-append {ℓ κ} :
    {A : Type ℓ} (P : A → Type κ) (xs ys : List A) → All P xs → All P ys → All P (xs ++ ys)
All-append P [] ys a b = b
All-append P (x ∷ xs) ys a b = (a.0, All-append P xs ys a.1 b)

pub All-IsIn {κ} : {A : Type 0} (P : A → Type κ) (xs : List A) {x : A} → All P xs → IsIn x xs → P x
All-IsIn P [] a i = absurd i
All-IsIn P (y ∷ ys) a (inl e) = subst P e a.0
All-IsIn P (y ∷ ys) a (inr i) = All-IsIn P ys a.1 i

pub All-weaken {ℓ κ ρ} :
    {A : Type ℓ} (P : A → Type κ) (Q : A → Type ρ) (xs : List A)
    → ((x : A) → P x → Q x)
    → All P xs
    → All Q xs
All-weaken P Q [] f a = tt
All-weaken P Q (x ∷ xs) f a = (f x a.0, All-weaken P Q xs f a.1)

module _ {ℓ κ ρ} {K : Type ℓ} {V : Type κ} ⦃key : Key K⦄ (P : K × V → Type ρ) where
  pub All-insert : (k : K) (v : V) (m : Map K V) → P (k, v) → All P m → All P (insert k v m)
  unfolding insert
  All-insert k v [] h a = (h, tt)
  All-insert k v ((j, w) ∷ m) h a = elim (Bool-cases (j == k)) [
    | inl e ↦ rw e (h, a.1)
    | inr e ↦ elim (Bool-cases (key.before k j)) [
      | inl f ↦ rw (e, f) (h, a)
      | inr f ↦ rw (e, f) (a.0, All-insert k v m h a.1)
    ]
  ]

  pub All-erase : (k : K) (m : Map K V) → All P m → All P (erase k m)
  unfolding erase
  All-erase k [] a = tt
  All-erase k ((j, w) ∷ m) a = elim (Bool-cases (j == k)) [
    | inl e ↦ rw e (All-erase k m a.1)
    | inr e ↦ rw e (a.0, All-erase k m a.1)
  ]

  -- What holds of every entry holds of one that `find` returns.
  pub All-find : (k : K) (m : Map K V) {v : V} → find k m ≡ some v → All P m → P (k, v)
  unfolding find
  All-find k [] h a = cc
  All-find k ((j, w) ∷ m) h a = elim (find-cons k j w m h) [
    | inl (e, f) ↦ rw (← e, ← f) a.0
    | inr (e, f) ↦ All-find k m f a.1
  ]

pub ruleset map_laws = (find-insert, find-erase)
