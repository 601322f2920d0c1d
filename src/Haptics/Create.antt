-- ===== src/Haptics/Create.antt =====
-- What an effect's definition and erasure do, lookup by lookup.
use aelkey.Base.{
  is_some, ℤ, ◌≡◌, ap, ◌∙◌, String, true, ◌&&◌, Option, none, some, find, if◌then◌else◌, int_key,
  string_key, pair_key, ◌==◌, Option-cases, inl, inr, arith,
}
use aelkey.Dispatcher.{Epoll}
use aelkey.Haptics.Effect.{FfEffect}
use aelkey.Haptics.Defs.{SlotKey, FfDevice, DispatcherHaptics, propagate_erase_to_sinks}
use aelkey.Haptics.View.{
  slot_of, effect_of, effect_of-set_effect, slot_of-propagate, effect_of-propagate,
  effect_of-sources, slot_of-sinks, slot_of-set_effect,
}
use aelkey.Haptics.Play.{ensure_source, assign_id, create_persistent_effect}
use aelkey.Haptics.Invariant.{effect_of-ensure_source, sinks-ensure_source, ensure_source-found}

module _ {W : Type 0} (epoll : Epoll W) (dev : FfDevice W) where
  -- The state in which `create_persistent_effect` has its source and its id.
  abbrev assigned : DispatcherHaptics W → String → FfEffect → DispatcherHaptics W × FfEffect
  assigned h s eff = assign_id epoll dev (ensure_source epoll dev h s) eff

  slot_of-assigned :
      (h : DispatcherHaptics W) (s k : String) (eff : FfEffect) (j : SlotKey)
      → slot_of (assigned h s eff).0 k j ≡ slot_of h k j
  unfolding assign_id
  slot_of-assigned h s k eff j =
      slot_of-sinks (assigned h s eff).0 (ensure_source epoll dev h s) k j (ground arith)
      ∙ slot_of-sinks (ensure_source epoll dev h s) h k j (sinks-ensure_source epoll dev h s)

  effect_of-assigned :
      (h : DispatcherHaptics W) (s t : String) (eff : FfEffect) (i : ℤ)
      → effect_of (assigned h s eff).0 t i ≡ effect_of h t i
  unfolding assign_id
  effect_of-assigned h s t eff i =
      effect_of-sources (assigned h s eff).0 (ensure_source epoll dev h s) t i (ground arith)
      ∙ effect_of-ensure_source epoll dev h s t i

  found-assigned :
      (h : DispatcherHaptics W) (s : String) (eff : FfEffect) (i : ℤ)
      → is_some (find s (propagate_erase_to_sinks dev (assigned h s eff).0 s i).sources) ≡ true
  unfolding assign_id propagate_erase_to_sinks
  found-assigned h s eff i = ground (arith, ensure_source-found epoll dev h s)

  -- `create_persistent_effect` defines the effect under the id that it returns and changes no
  -- other effect; no sink keeps a slot under that id, and every other slot is as before.
  pub create_persistent_effect_lem :
      (h : DispatcherHaptics W) (s : String) (eff : FfEffect) (t k : String) (j : ℤ)
      → let (g, out) = create_persistent_effect epoll dev h s eff in
        (effect_of g t j ≡ (if (s == t) && (out.id == j) then some out else effect_of h t j))
        × (slot_of g k (t, j) ≡ (if (s == t) && (out.id == j) then none else slot_of h k (t, j)))
  unfolding create_persistent_effect
  create_persistent_effect_lem h s eff t k j =
      let (h1, out) = assigned h s eff in
      let h2 = propagate_erase_to_sinks dev h1 s out.id in
      (
        elim (Option-cases (find s h2.sources)) [
          | inl e ↦ cc (found-assigned h s eff out.id)
          | inr (src, e) ↦
              effect_of-set_effect h2 s t out.id j out e
              ∙ ap (λ (o : Option FfEffect). if (s == t) && (out.id == j) then some out else o)
                  (effect_of-propagate dev h1 s t out.id j ∙ effect_of-assigned h s t eff j)
        ],
        slot_of-set_effect h2 s k out.id out (t, j)
            ∙ slot_of-propagate dev h1 s k out.id (t, j)
            ∙ ap (λ (o : Option ℤ). if (s == t) && (out.id == j) then none else o)
                (slot_of-assigned h s k eff (t, j)),
      )
