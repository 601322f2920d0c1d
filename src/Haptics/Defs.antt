-- ===== src/Haptics/Defs.antt =====
-- The state of `DispatcherHaptics` and its operations on sinks, sources and effects.
use aelkey.Base.{
  ℕ, ℤ, String, Bool, [], ◌∷◌, Option, none, some, Map, find, insert, erase, contains, is_negative,
  if◌then◌else◌, int_key, string_key, pair_key, minus_one,
}
use aelkey.Dispatcher.{Epoll, DispatcherBase, register_fd, unregister_fd}
use aelkey.Haptics.Effect.{FfEffect}

pub record HapticsSourceCtx : Type 0 where
  pub id : String
  pub fd : ℤ
  pub callback : String
  pub effects : Map ℤ FfEffect

abbrev pub SlotKey : Type 0
SlotKey = String × ℤ

pub record HapticsSinkCtx : Type 0 where
  pub id : String
  pub fd : ℤ
  pub slots : Map SlotKey ℤ

-- EVIOCSFF: the kernel's number for the effect, ENOSPC, or another error.
pub data Upload : Type 0 where
  uploaded : ℤ → Upload
  no_space failed : Upload

-- The calls on force-feedback devices.
pub record FfDevice (W : Type 0) : Type 0 where
  pub remove : W → ℤ → ℤ → W  -- EVIOCRMFF
  pub upload : W → ℤ → FfEffect → W × Upload  -- EVIOCSFF
  pub write_ff : W → ℤ → ℕ → ℤ → W  -- write of an EV_FF event

-- The two counters are the function-local statics of `create_persistent_effect` and `play_effect`.
pub record DispatcherHaptics (W : Type 0) : Type 0 where
  pub world : W
  pub base : DispatcherBase
  pub sources : Map String HapticsSourceCtx
  pub sinks : Map String HapticsSinkCtx
  pub internal_id_counter : ℕ
  pub oneshot_counter : ℕ

abbrev pub source_oneshot : String
source_oneshot = "_aelkey_haptics_oneshot_"

abbrev pub source_custom : String
source_custom = "_aelkey_haptics_custom_"

module _ {W : Type 0} where
  abbrev pub get_source : DispatcherHaptics W → String → Option HapticsSourceCtx
  get_source h id = find id h.sources

  abbrev pub get_sink : DispatcherHaptics W → String → Option HapticsSinkCtx
  get_sink h id = find id h.sinks

  unfoldable pub is_haptics_supported : DispatcherHaptics W → String → Bool
  is_haptics_supported h id = contains id h.sinks

  unfoldable pub get_source_slot : DispatcherHaptics W → String → String → ℤ → ℤ
  get_source_slot h sink_id source_id virt_id = elim (find sink_id h.sinks) [
    | none ↦ minus_one
    | some sink ↦ elim (find (source_id, virt_id) sink.slots) [
      | none ↦ minus_one
      | some real ↦ real
    ]
  ]

  unfoldable pub register_sink : DispatcherHaptics W → String → ℤ → DispatcherHaptics W
  register_sink h id fd =
      if is_negative fd
      then h
      else record h { sinks = insert id (record { id = id; fd = fd; slots = [] }) h.sinks }

  -- `src->effects[id] = eff` through the pointer to the source.
  unfoldable pub set_effect : DispatcherHaptics W → String → ℤ → FfEffect → DispatcherHaptics W
  set_effect h source_id id eff = elim (find source_id h.sources) [
    | none ↦ h
    | some src ↦ record h {
      sources = insert source_id (record src { effects = insert id eff src.effects }) h.sources;
    }
  ]

  unfoldable pub drop_effect : DispatcherHaptics W → String → ℤ → DispatcherHaptics W
  drop_effect h source_id id = elim (find source_id h.sources) [
    | none ↦ h
    | some src ↦ record h {
      sources = insert source_id (record src { effects = erase id src.effects }) h.sources;
    }
  ]

module _ {W : Type 0} (epoll : Epoll W) where
  unfoldable pub register_source : DispatcherHaptics W → String → ℤ → String → DispatcherHaptics W
  register_source h id fd callback =
      let src : HapticsSourceCtx = record { id = id; fd = fd; callback = callback; effects = [] } in
      let h' = record h { sources = insert id src h.sources } in
      if is_negative fd
      then h'
      else let (w, b) = register_fd epoll h'.world h'.base fd 1 in record h' { world = w; base = b }

  unfoldable pub unregister_sources :
      W × DispatcherBase → Map String HapticsSourceCtx → W × DispatcherBase
  unregister_sources s [] = s
  unregister_sources s ((id, src) ∷ m) =
      unregister_sources (if is_negative src.fd then s else unregister_fd epoll s.0 s.1 src.fd) m

  unfoldable pub cleanup_sources : DispatcherHaptics W → DispatcherHaptics W
  unfolding unregister_sources
  cleanup_sources h =
      let (w, b) = unregister_sources (h.world, h.base) h.sources in
      record h { world = w; base = b; sources = [] }

module _ {W : Type 0} (dev : FfDevice W) where
  -- The body of the loop of `propagate_erase_to_sinks`.
  unfoldable pub erase_slot : SlotKey → W → HapticsSinkCtx → W × HapticsSinkCtx
  erase_slot key w sink = elim (find key sink.slots) [
    | none ↦ (w, sink)
    | some real ↦ (dev.remove w sink.fd real, record sink { slots = erase key sink.slots })
  ]

  unfoldable pub erase_from_sinks :
      SlotKey → W → Map String HapticsSinkCtx → W × Map String HapticsSinkCtx
  erase_from_sinks key w [] = (w, [])
  erase_from_sinks key w ((id, sink) ∷ m) =
      let (w', sink') = erase_slot key w sink in
      let (w'', m') = erase_from_sinks key w' m in (w'', (id, sink') ∷ m')

  unfoldable pub propagate_erase_to_sinks : DispatcherHaptics W → String → ℤ → DispatcherHaptics W
  propagate_erase_to_sinks h source_id virt_id =
      let (w, m) = erase_from_sinks (source_id, virt_id) h.world h.sinks in
      record h { world = w; sinks = m }

  -- The eviction loop of `upload_effect_to_sink`.
  unfoldable pub remove_all : W → ℤ → Map SlotKey ℤ → W
  remove_all w fd [] = w
  remove_all w fd ((key, real) ∷ m) = remove_all (dev.remove w fd real) fd m

  abbrev pub effect_id : Upload → ℤ
  effect_id (uploaded n) = n
  effect_id _ = minus_one

  -- The sink after the call, with the real id or -1. The effect's id is set to -1.
  unfoldable pub upload_to : W → HapticsSinkCtx → FfEffect → W × HapticsSinkCtx × ℤ
  unfolding remove_all
  upload_to w sink eff =
      let (w', r) = dev.upload w sink.fd (record eff { id = minus_one }) in
      elim r [
        | uploaded n ↦ (w', sink, n)
        | failed ↦ (w', sink, minus_one)
        | no_space ↦
            let (w'', r') =
              dev.upload (remove_all w' sink.fd sink.slots) sink.fd
                (record eff { id = minus_one }) in
            (w'', record sink { slots = [] }, effect_id r')
      ]

  unfoldable pub upload_effect_to_sink :
      DispatcherHaptics W → String → FfEffect → DispatcherHaptics W × ℤ
  unfolding upload_to
  upload_effect_to_sink h sink_id eff = elim (find sink_id h.sinks) [
    | none ↦ (h, minus_one)
    | some sink ↦
        let (w, sink', r) = upload_to h.world sink eff in
        (record h { world = w; sinks = insert sink_id sink' h.sinks }, r)
  ]
