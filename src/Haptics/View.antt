-- ===== src/Haptics/View.antt =====
-- The dispatcher seen through its lookups: the real id that a sink holds for a virtual effect, and
-- the effect that a source holds under an id.
use aelkey.Base.{
  ℤ, ◌≡◌, refl, ap, String, ◌&&◌, [], ◌∷◌, Option, none, some, Map, find, insert, erase,
  if◌then◌else◌, int_key, string_key, pair_key, ◌==◌, ==_iff, find-insert, find-erase, Option-cases,
  Bool-cases, inl, inr, arith,
}
use aelkey.Haptics.Effect.{FfEffect}
use aelkey.Haptics.Defs.{
  HapticsSourceCtx, HapticsSinkCtx, SlotKey, FfDevice, DispatcherHaptics, propagate_erase_to_sinks,
  erase_from_sinks, erase_slot, set_effect, drop_effect,
}

abbrev pub slot_in : Option HapticsSinkCtx → SlotKey → Option ℤ
slot_in none key = none
slot_in (some sink) key = find key sink.slots

abbrev pub effect_in : Option HapticsSourceCtx → ℤ → Option FfEffect
effect_in none id = none
effect_in (some src) id = find id src.effects

module _ {W : Type 0} where
  unfoldable pub slot_of : DispatcherHaptics W → String → SlotKey → Option ℤ
  slot_of h sink_id key = slot_in (find sink_id h.sinks) key

  unfoldable pub effect_of : DispatcherHaptics W → String → ℤ → Option FfEffect
  effect_of h source_id id = effect_in (find source_id h.sources) id

  pub effect_of-set_effect :
      (h : DispatcherHaptics W) (s t : String) (i j : ℤ) (eff : FfEffect) {src : HapticsSourceCtx}
      → find s h.sources ≡ some src
      → effect_of (set_effect h s i eff) t j
        ≡ (if (s == t) && (i == j) then some eff else effect_of h t j)
  unfolding effect_of set_effect
  effect_of-set_effect h s t i j eff {src} e = ground (
    arith,
    find-insert s t (record src { effects = insert i eff src.effects }) h.sources,
    find-insert i j eff src.effects,
    ==_iff s t,
  )

  pub effect_of-drop_effect :
      (h : DispatcherHaptics W) (s t : String) (i j : ℤ)
      → effect_of (drop_effect h s i) t j ≡ (if (s == t) && (i == j) then none else effect_of h t j)
  unfolding effect_of drop_effect
  effect_of-drop_effect h s t i j = elim (Option-cases (find s h.sources)) [
    | inl e ↦ ground (arith, ==_iff s t)
    | inr (src, e) ↦ ground (
      arith,
      find-insert s t (record src { effects = erase i src.effects }) h.sources,
      find-erase i j src.effects,
      ==_iff s t,
    )
  ]

  pub slot_of-set_effect :
      (h : DispatcherHaptics W) (s k : String) (i : ℤ) (eff : FfEffect) (j : SlotKey)
      → slot_of (set_effect h s i eff) k j ≡ slot_of h k j
  unfolding slot_of set_effect
  slot_of-set_effect h s k i eff j = ground arith

  pub slot_of-drop_effect :
      (h : DispatcherHaptics W) (s k : String) (i : ℤ) (j : SlotKey)
      → slot_of (drop_effect h s i) k j ≡ slot_of h k j
  unfolding slot_of drop_effect
  slot_of-drop_effect h s k i j = ground arith

  -- Changes to the rest of the state.
  pub slot_of-sinks :
      (g h : DispatcherHaptics W) (k : String) (j : SlotKey)
      → g.sinks ≡ h.sinks
      → slot_of g k j ≡ slot_of h k j
  unfolding slot_of
  slot_of-sinks g h k j e = ap (λ (m : Map String HapticsSinkCtx). slot_in (find k m) j) e

  pub effect_of-sources :
      (g h : DispatcherHaptics W) (s : String) (i : ℤ)
      → g.sources ≡ h.sources
      → effect_of g s i ≡ effect_of h s i
  unfolding effect_of
  effect_of-sources g h s i e = ap (λ (m : Map String HapticsSourceCtx). effect_in (find s m) i) e

module _ {W : Type 0} (dev : FfDevice W) where
  slot_in-erase_slot :
      (key j : SlotKey) (w : W) (sink : HapticsSinkCtx)
      → slot_in (some (erase_slot dev key w sink).1) j
        ≡ (if key == j then none else find j sink.slots)
  unfolding erase_slot
  slot_in-erase_slot key j w sink = elim (Option-cases (find key sink.slots)) [
    | inl e ↦ ground (arith, ==_iff key j)
    | inr (r, e) ↦ ground (arith, find-erase key j sink.slots)
  ]

  slot_in-erase_from_sinks :
      (key j : SlotKey) (k : String) (m : Map String HapticsSinkCtx) (w : W)
      → slot_in (find k (erase_from_sinks dev key w m).1) j
        ≡ (if key == j then none else slot_in (find k m) j)
  unfolding erase_from_sinks find
  slot_in-erase_from_sinks key j k [] w = ground arith
  slot_in-erase_from_sinks key j k ((i, sink) ∷ m) w = elim (Bool-cases (i == k)) [
    | inl e ↦ rw e (slot_in-erase_slot key j w sink)
    | inr e ↦ rw e (slot_in-erase_from_sinks key j k m _)
  ]

  -- An erased effect has no slot in any sink; every other slot is as before.
  pub slot_of-propagate :
      (h : DispatcherHaptics W) (s k : String) (i : ℤ) (j : SlotKey)
      → slot_of (propagate_erase_to_sinks dev h s i) k j
        ≡ (if (s, i) == j then none else slot_of h k j)
  unfolding slot_of propagate_erase_to_sinks
  slot_of-propagate h s k i j = slot_in-erase_from_sinks (s, i) j k h.sinks h.world

  pub effect_of-propagate :
      (h : DispatcherHaptics W) (s t : String) (i j : ℤ)
      → effect_of (propagate_erase_to_sinks dev h s i) t j ≡ effect_of h t j
  unfolding effect_of propagate_erase_to_sinks
  effect_of-propagate h s t i j = refl
