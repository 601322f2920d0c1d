-- ===== src/Haptics/Playback.antt =====
-- Uploads on demand: the first play of an effect uploads it, later ones do not, and a device that
-- is full is emptied.
use aelkey.Base.{
  u16, ℕ, ℤ, pos, ◌≡◌, refl, ap, ◌∙◌, String, false, [], ◌∷◌, Option, none, some, find, insert,
  is_negative, if◌then◌else◌, int_key, string_key, pair_key, ◌==◌, ==_iff, ==_refl, minus_one,
  find-insert, arith,
}
use aelkey.Haptics.Effect.{FfEffect}
use aelkey.Haptics.Defs.{
  HapticsSourceCtx, HapticsSinkCtx, SlotKey, FfDevice, DispatcherHaptics, upload_effect_to_sink,
  upload_to, remove_all, uploaded, no_space,
}
use aelkey.Haptics.View.{slot_of, slot_in}
use aelkey.Haptics.Play.{play_effect, slot_for, persistent_slot, upload_slot, set_slot}

abbrev pub as_uploaded : FfEffect → FfEffect
as_uploaded eff = record eff { id = minus_one }

module _ {W : Type 0} (dev : FfDevice W) where
  -- `persistent_slot` where the sink has no slot and the source has the effect.
  uncached :
      (h : DispatcherHaptics W) (k : String) (c : HapticsSinkCtx) (s : String) (i : ℤ)
      {src : HapticsSourceCtx} {eff : FfEffect}
      → find (s, i) c.slots ≡ none
      → find s h.sources ≡ some src
      → find i src.effects ≡ some eff
      → persistent_slot dev h k c (s, i) ≡ upload_slot dev h k (s, i) eff
  unfolding persistent_slot
  uncached h k c s i e f g = rw (e, f, g, persistent_slot)

  -- Where the sink ends up after an upload with result `n`.
  abbrev stored : HapticsSinkCtx → SlotKey → ℤ → HapticsSinkCtx
  stored c key n = record c { slots = insert key n c.slots }

  upload_slot_accepted :
      (h : DispatcherHaptics W) (k : String) (key : SlotKey) (eff : FfEffect) {c : HapticsSinkCtx}
      (n : ℕ)
      → find k h.sinks ≡ some c
      → (dev.upload h.world c.fd (as_uploaded eff)).1 ≡ uploaded (pos n)
      → let (g, r) = upload_slot dev h k key eff in
        (r ≡ some (pos n))
        × (find k g.sinks ≡ some (stored c key (pos n)))
        × (g.world ≡ (dev.upload h.world c.fd (as_uploaded eff)).0)
  unfolding upload_slot upload_effect_to_sink upload_to set_slot
  upload_slot_accepted h k key eff {c} n e u = ground (
    arith,
    find-insert k k c h.sinks,
    find-insert k k (stored c key (pos n)) (insert k c h.sinks),
    ==_iff k k,
  )

  abbrev only : HapticsSinkCtx → SlotKey → ℤ → HapticsSinkCtx
  only c key n = record c { slots = (key, n) ∷ [] }

  insert-nil : (key : SlotKey) (n : ℤ) → insert key n [] ≡ (key, n) ∷ []
  unfolding insert
  insert-nil key n = refl

  upload_slot_full :
      (h : DispatcherHaptics W) (k : String) (key : SlotKey) (eff : FfEffect) {c : HapticsSinkCtx}
      (n : ℕ)
      → find k h.sinks ≡ some c
      → (dev.upload h.world c.fd (as_uploaded eff)).1 ≡ no_space
      → (dev.upload
          (remove_all dev (dev.upload h.world c.fd (as_uploaded eff)).0 c.fd c.slots)
          c.fd
          (as_uploaded eff)).1
        ≡ uploaded (pos n)
      → let (g, r) = upload_slot dev h k key eff in
        (r ≡ some (pos n)) × (find k g.sinks ≡ some (record c { slots = (key, pos n) ∷ [] }))
  unfolding upload_slot upload_effect_to_sink upload_to set_slot
  upload_slot_full h k key eff {c} n e u v = ground (
    arith,
    find-insert k k (record c { slots = [] }) h.sinks,
    find-insert k k (only c key (pos n)) (insert k (record c { slots = [] }) h.sinks),
    insert-nil key (pos n),
    ==_iff k k,
  )

  -- `play_effect` once the real id is chosen.
  play_chosen :
      (h g : DispatcherHaptics W) (k s : String) (i m real : ℤ) {c : HapticsSinkCtx}
      → find k h.sinks ≡ some c
      → is_negative c.fd ≡ false
      → slot_for dev h k c (s, i) none ≡ (g, some real)
      → play_effect dev h k s i m none
        ≡ (record g { world = dev.write_ff g.world c.fd (u16 real) m }, real)
  unfolding play_effect
  play_chosen h g k s i m real {c} e o q =
      let q0 : (slot_for dev h k c (s, i) none).0 ≡ g = λ t. (q t).0 in
      let q1 : (slot_for dev h k c (s, i) none).1 ≡ some real = λ t. (q t).1 in
      rw (e, play_effect) (rw (o, q1) (rw q0))

  -- A slot that the sink has is played at once.
  play_cached :
      (h : DispatcherHaptics W) (k s : String) (i m real : ℤ) {c : HapticsSinkCtx}
      → find k h.sinks ≡ some c
      → is_negative c.fd ≡ false
      → find (s, i) c.slots ≡ some real
      → play_effect dev h k s i m none
        ≡ (record h { world = dev.write_ff h.world c.fd (u16 real) m }, real)
  unfolding slot_for persistent_slot
  play_cached h k s i m real {c} e o f = play_chosen h h k s i m real e o (rw (f, persistent_slot))

  play_uploaded :
      (h : DispatcherHaptics W) (k s : String) (i m : ℤ) {c : HapticsSinkCtx}
      {src : HapticsSourceCtx} {eff : FfEffect} (n : ℕ)
      → find k h.sinks ≡ some c
      → is_negative c.fd ≡ false
      → find (s, i) c.slots ≡ none
      → find s h.sources ≡ some src
      → find i src.effects ≡ some eff
      → (upload_slot dev h k (s, i) eff).1 ≡ some (pos n)
      → let g = (upload_slot dev h k (s, i) eff).0 in
        play_effect dev h k s i m none
        ≡ (record g { world = dev.write_ff g.world c.fd (u16 (pos n)) m }, pos n)
  unfolding slot_for
  play_uploaded h k s i m {c} {eff = eff} n e o free f g u =
      play_chosen h (upload_slot dev h k (s, i) eff).0 k s i m (pos n) e o
        (uncached h k c s i free f g ∙ pair_path u)
    where
      pair_path :
          (upload_slot dev h k (s, i) eff).1 ≡ some (pos n)
          → upload_slot dev h k (s, i) eff ≡ ((upload_slot dev h k (s, i) eff).0, some (pos n))
      pair_path q = λ t. ((upload_slot dev h k (s, i) eff).0, q t)

  -- The first play of a defined effect, on an open sink that has no slot for it and whose device
  -- accepts the upload, uploads it once, starts it, and returns the real id; a second play of it
  -- only starts it: the state changes by the one write, and the same id is returned.
  pub play_effect_twice :
      (h : DispatcherHaptics W) (k s : String) (i m m' : ℤ) {c : HapticsSinkCtx}
      {src : HapticsSourceCtx} {eff : FfEffect} (n : ℕ)
      → find k h.sinks ≡ some c
      → is_negative c.fd ≡ false
      → find (s, i) c.slots ≡ none
      → find s h.sources ≡ some src
      → find i src.effects ≡ some eff
      → (dev.upload h.world c.fd (as_uploaded eff)).1 ≡ uploaded (pos n)
      → let (g, r) = play_effect dev h k s i m none in
        (r ≡ pos n)
        × (g.world
            ≡ dev.write_ff (dev.upload h.world c.fd (as_uploaded eff)).0 c.fd (u16 (pos n)) m)
        × (play_effect dev g k s i m' none
            ≡ (record g { world = dev.write_ff g.world c.fd (u16 (pos n)) m' }, pos n))
  play_effect_twice h k s i m m' {c} {src} {eff} n e o free f g u =
      let key : SlotKey = (s, i) in
      let up = upload_slot_accepted h k key eff n e u in
      let first = play_uploaded h k s i m n e o free f g up.0 in
      let hit : find key (stored c key (pos n)).slots ≡ some (pos n) =
        rw (find-insert key key (pos n) c.slots, ==_refl key) in
      rw first (
        refl,
        ap (λ (w : W). dev.write_ff w c.fd (u16 (pos n)) m) up.2,
        play_cached _ k s i m' (pos n) up.1 o hit,
      )

  -- When the device is full at the first play and accepts the effect once it is emptied, the sink
  -- forgets every slot that it had and keeps the new one alone.
  pub play_effect_full :
      (h : DispatcherHaptics W) (k s : String) (i m : ℤ) {c : HapticsSinkCtx}
      {src : HapticsSourceCtx} {eff : FfEffect} (n : ℕ) (j : SlotKey)
      → find k h.sinks ≡ some c
      → is_negative c.fd ≡ false
      → find (s, i) c.slots ≡ none
      → find s h.sources ≡ some src
      → find i src.effects ≡ some eff
      → (dev.upload h.world c.fd (as_uploaded eff)).1 ≡ no_space
      → (dev.upload
          (remove_all dev (dev.upload h.world c.fd (as_uploaded eff)).0 c.fd c.slots)
          c.fd
          (as_uploaded eff)).1
        ≡ uploaded (pos n)
      → ((play_effect dev h k s i m none).1 ≡ pos n)
        × (slot_of (play_effect dev h k s i m none).0 k j
            ≡ (if (s, i) == j then some (pos n) else none))
  unfolding slot_of find
  play_effect_full h k s i m {eff = eff} n j e o free f g u v =
      let up = upload_slot_full h k (s, i) eff n e u v in
      rw (play_uploaded h k s i m n e o free f g up.0)
        (refl, ap (λ (x : Option HapticsSinkCtx). slot_in x j) up.1)
