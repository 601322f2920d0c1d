-- ===== src/Haptics/Backed.antt =====
-- Every slot of a persistent effect is backed by the effect: what a sink remembers as uploaded is
-- still defined in its source.
use aelkey.Base.{
  is_some, ℤ, ◌≡◌, ◌∙◌, String, true, false, ◌&&◌, [], none, some, find, insert, is_negative,
  if◌then◌else◌, int_key, string_key, pair_key, ◌==◌, ==_iff, find-insert, Option-cases, Bool-cases,
  ◌⊎◌, inl, inr, arith,
}
use aelkey.Haptics.Effect.{FfEffect}
use aelkey.Haptics.Defs.{
  HapticsSourceCtx, HapticsSinkCtx, SlotKey, FfDevice, DispatcherHaptics, register_sink,
  propagate_erase_to_sinks, set_effect, drop_effect, upload_effect_to_sink, upload_to,
  source_oneshot,
}
use aelkey.Haptics.View.{
  slot_in, slot_of, effect_of, effect_of-set_effect, effect_of-drop_effect, slot_of-propagate,
  effect_of-propagate, effect_of-sources, slot_of-sinks, slot_of-set_effect, slot_of-drop_effect,
}
use aelkey.Haptics.Play.{erase_persistent_effect, set_slot, upload_slot}

pub record IsBacked {W : Type 0} (h : DispatcherHaptics W) : Type 0 where
  pub at :
      (sink s : String) (i : ℤ)
      → is_some (slot_of h sink (s, i)) ≡ true
      → (s == source_oneshot) ≡ false
      → is_some (effect_of h s i) ≡ true

module _ {W : Type 0} where
  pub IsBacked-congr :
      (g h : DispatcherHaptics W)
      → g.sinks ≡ h.sinks
      → g.sources ≡ h.sources
      → IsBacked h
      → IsBacked g
  IsBacked-congr g h e f b = record {
    at = λ k t j p q.
        rw (effect_of-sources g h t j f) (b.at k t j (rw (← slot_of-sinks g h k (t, j) e) p) q);
  }

  -- Slots may go while the sources stay.
  IsBacked-shrink :
      (g h : DispatcherHaptics W)
      → g.sources ≡ h.sources
      → ((k : String) (j : SlotKey)
          → is_some (slot_of g k j) ≡ true
          → is_some (slot_of h k j) ≡ true)
      → IsBacked h
      → IsBacked g
  IsBacked-shrink g h f less b = record {
    at = λ k t j p q. rw (effect_of-sources g h t j f) (b.at k t j (less k (t, j) p) q);
  }

  -- A sink that is registered starts without slots.
  pub register_sink-IsBacked :
      (h : DispatcherHaptics W) (id : String) (fd : ℤ)
      → IsBacked h
      → IsBacked (register_sink h id fd)
  unfolding register_sink slot_of find
  register_sink-IsBacked h id fd b =
      IsBacked-shrink (register_sink h id fd) h (ground arith)
        (λ k j p.
          ground (arith, find-insert id k (record { id = id; fd = fd; slots = [] }) h.sinks))
        b

  -- Defining an effect takes nothing away.
  pub set_effect-IsBacked :
      (h : DispatcherHaptics W) (s : String) (i : ℤ) (eff : FfEffect) {src : HapticsSourceCtx}
      → find s h.sources ≡ some src
      → IsBacked h
      → IsBacked (set_effect h s i eff)
  set_effect-IsBacked h s i eff e b = record {
    at = λ k t j p q.
        let old : is_some (effect_of h t j) ≡ true =
          b.at k t j (rw (← slot_of-set_effect h s k i eff (t, j)) p) q in
        rw (effect_of-set_effect h s t i j eff e) (ground arith);
  }

module _ {W : Type 0} (dev : FfDevice W) where
  pub propagate-IsBacked :
      (h : DispatcherHaptics W) (s : String) (i : ℤ)
      → IsBacked h
      → IsBacked (propagate_erase_to_sinks dev h s i)
  propagate-IsBacked h s i b = record {
    at = λ k t j p q.
        rw (effect_of-propagate dev h s t i j)
          (b.at k t j (ground (arith, slot_of-propagate dev h s k i (t, j))) q);
  }

  -- An effect may be dropped with its slots.
  pub drop-propagate-IsBacked :
      (h : DispatcherHaptics W) (s : String) (i : ℤ)
      → IsBacked h
      → IsBacked (drop_effect (propagate_erase_to_sinks dev h s i) s i)
  drop-propagate-IsBacked h s i b = record {
    at = λ k t j p q.
        let g = propagate_erase_to_sinks dev h s i in
        let e : slot_of (drop_effect g s i) k (t, j)
            ≡ (if (s == t) && (i == j) then none else slot_of h k (t, j)) =
          slot_of-drop_effect g s k i (t, j) ∙ slot_of-propagate dev h s k i (t, j) in
        let kept : is_some (slot_of h k (t, j)) ≡ true = ground arith in
        rw (effect_of-drop_effect g s t i j, effect_of-propagate dev h s t i j)
          (ground (arith, b.at k t j kept q));
  }

  -- The order of `handle_erase`: the effect first, then its slots.
  pub propagate-drop-IsBacked :
      (h : DispatcherHaptics W) (s : String) (i : ℤ)
      → IsBacked h
      → IsBacked (propagate_erase_to_sinks dev (drop_effect h s i) s i)
  propagate-drop-IsBacked h s i b = record {
    at = λ k t j p q.
        let g = drop_effect h s i in
        let e : slot_of (propagate_erase_to_sinks dev g s i) k (t, j)
            ≡ (if (s == t) && (i == j) then none else slot_of g k (t, j)) =
          slot_of-propagate dev g s k i (t, j) in
        let kept : is_some (slot_of h k (t, j)) ≡ true =
          ground (arith, slot_of-drop_effect h s k i (t, j)) in
        rw (effect_of-propagate dev g s t i j, effect_of-drop_effect h s t i j)
          (ground (arith, b.at k t j kept q));
  }

  pub erase_persistent_effect-IsBacked :
      (h : DispatcherHaptics W) (s : String) (i : ℤ)
      → IsBacked h
      → IsBacked (erase_persistent_effect dev h s i).0
  unfolding erase_persistent_effect
  erase_persistent_effect-IsBacked h s i b = elim (Option-cases (find s h.sources)) [
    | inl e ↦ rw (e, erase_persistent_effect) b
    | inr (src, e) ↦ rw (e, erase_persistent_effect) (drop-propagate-IsBacked h s i b)
  ]

  slot_of-set_slot :
      (h : DispatcherHaptics W) (sink k : String) (key j : SlotKey) (real : ℤ)
      → is_some (slot_of (set_slot dev h sink key real) k j) ≡ true
      → ((key == j) ≡ true) ⊎ (is_some (slot_of h k j) ≡ true)
  unfolding slot_of set_slot
  slot_of-set_slot h sink k key j real p = elim (Option-cases (find sink h.sinks)) [
    | inl e ↦ inr (ground arith)
    | inr (c, e) ↦ ground (
      arith,
      find-insert sink k (record c { slots = insert key real c.slots }) h.sinks,
      find-insert key j real c.slots,
      ==_iff sink k,
    )
  ]

  sources-set_slot :
      (h : DispatcherHaptics W) (sink : String) (key : SlotKey) (real : ℤ)
      → (set_slot dev h sink key real).sources ≡ h.sources
  unfolding set_slot
  sources-set_slot h sink key real = ground arith

  -- A new slot needs its effect, unless it is a one-shot's.
  set_slot-IsBacked :
      (h : DispatcherHaptics W) (sink s : String) (i real : ℤ)
      → ((s == source_oneshot) ≡ false → is_some (effect_of h s i) ≡ true)
      → IsBacked h
      → IsBacked (set_slot dev h sink (s, i) real)
  set_slot-IsBacked h sink s i real backed b = record {
    at = λ k t j p q.
        rw
          (effect_of-sources (set_slot dev h sink (s, i) real) h t j
            (sources-set_slot h sink (s, i) real))
          (elim (slot_of-set_slot h sink k (s, i) (t, j) real p) [
            | inl same ↦ ground (arith, ==_iff s t, ==_iff i j, backed)
            | inr old ↦ b.at k t j old q
          ]);
  }

  sources-upload :
      (h : DispatcherHaptics W) (sink : String) (eff : FfEffect)
      → (upload_effect_to_sink dev h sink eff).0.sources ≡ h.sources
  unfolding upload_effect_to_sink
  sources-upload h sink eff = ground arith

  slot_in-upload_to :
      (w : W) (sink : HapticsSinkCtx) (eff : FfEffect) (j : SlotKey)
      → is_some (slot_in (some (upload_to dev w sink eff).1) j) ≡ true
      → is_some (find j sink.slots) ≡ true
  unfolding upload_to find
  slot_in-upload_to w sink eff j p = ground arith

  slot_of-upload :
      (h : DispatcherHaptics W) (sink k : String) (eff : FfEffect) (j : SlotKey)
      → is_some (slot_of (upload_effect_to_sink dev h sink eff).0 k j) ≡ true
      → is_some (slot_of h k j) ≡ true
  unfolding slot_of upload_effect_to_sink
  slot_of-upload h sink k eff j p = elim (Option-cases (find sink h.sinks)) [
    | inl e ↦ ground arith
    | inr (c, e) ↦ ground (
      arith,
      find-insert sink k (upload_to dev h.world c eff).1 h.sinks,
      slot_in-upload_to h.world c eff j,
      ==_iff sink k,
    )
  ]

  -- An upload may evict slots, and adds none.
  pub upload_slot-IsBacked :
      (h : DispatcherHaptics W) (sink s : String) (i : ℤ) (eff : FfEffect)
      → ((s == source_oneshot) ≡ false → is_some (effect_of h s i) ≡ true)
      → IsBacked h
      → IsBacked (upload_slot dev h sink (s, i) eff).0
  unfolding upload_slot
  upload_slot-IsBacked h sink s i eff backed b =
      let g = (upload_effect_to_sink dev h sink eff).0 in
      let kept : IsBacked g =
        IsBacked-shrink g h (sources-upload h sink eff) (λ k j p. slot_of-upload h sink k eff j p)
          b in
      elim (Bool-cases (is_negative (upload_effect_to_sink dev h sink eff).1)) [
        | inl e ↦ rw e kept
        | inr e ↦ rw e (
            set_slot-IsBacked g sink s i _
              (λ n. rw (effect_of-sources g h s i (sources-upload h sink eff)) (backed n)) kept)
      ]
