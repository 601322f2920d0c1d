-- ===== src/Haptics/Play.antt =====
-- The operations that the Lua entries call: create, erase, play and stop an effect.
use aelkey.Base.{
  u16, ℤ, pos, ◌+◌, String, Bool, true, false, not, ◌||◌, Option, none, some, find, insert,
  contains, is_negative, if◌then◌else◌, int_key, string_key, pair_key, minus_one, is_empty, eqb_ℤ,
}
use aelkey.Lua.{Table, str, int, nil, field, get_int, get_str}
use aelkey.Dispatcher.{Epoll}
use aelkey.Haptics.Effect.{FfEffect, s16, lua_to_ff_effect}
use aelkey.Haptics.Defs.{
  HapticsSinkCtx, SlotKey, FfDevice, DispatcherHaptics, register_source, propagate_erase_to_sinks,
  upload_effect_to_sink, set_effect, drop_effect, source_oneshot, source_custom,
}

module _ {W : Type 0} (dev : FfDevice W) where
  unfoldable pub erase_persistent_effect :
      DispatcherHaptics W → String → ℤ → DispatcherHaptics W × Bool
  erase_persistent_effect h source_id virt_id = elim (find source_id h.sources) [
    | none ↦ (h, false)
    | some src ↦
        (drop_effect (propagate_erase_to_sinks dev h source_id virt_id) source_id virt_id, true)
  ]

  -- `sink->slots[key] = real_id` through the pointer to the sink.
  unfoldable pub set_slot : DispatcherHaptics W → String → SlotKey → ℤ → DispatcherHaptics W
  set_slot h sink_id key real = elim (find sink_id h.sinks) [
    | none ↦ h
    | some sink ↦ record h {
      sinks = insert sink_id (record sink { slots = insert key real sink.slots }) h.sinks;
    }
  ]

  -- Upload an effect and remember its number under `key`; `none` when the device refuses it.
  unfoldable pub upload_slot :
      DispatcherHaptics W → String → SlotKey → FfEffect → DispatcherHaptics W × Option ℤ
  upload_slot h sink_id key eff =
      let (h', real) = upload_effect_to_sink dev h sink_id eff in
      if is_negative real then (h', none) else (set_slot h' sink_id key real, some real)

  unfoldable pub persistent_slot :
      DispatcherHaptics W → String → HapticsSinkCtx → SlotKey → DispatcherHaptics W × Option ℤ
  unfolding upload_slot
  persistent_slot h sink_id sink key = elim (find key sink.slots) [
    | some real ↦ (h, some real)
    | none ↦ elim (find key.0 h.sources) [
      | none ↦ (h, none)
      | some src ↦ elim (find key.1 src.effects) [
        | none ↦ (h, none)
        | some eff ↦ upload_slot h sink_id key eff
      ]
    ]
  ]

  unfoldable pub oneshot_slot :
      DispatcherHaptics W → String → FfEffect → DispatcherHaptics W × Option ℤ
  unfolding upload_slot
  oneshot_slot h sink_id eff =
      upload_slot (record h { oneshot_counter = h.oneshot_counter + 1 }) sink_id
        (source_oneshot, pos h.oneshot_counter) eff

  -- The choice of the real id in `play_effect`. As an argument `none` plays a persistent effect; as
  -- a result it is the early return of -1.
  unfoldable pub slot_for :
      DispatcherHaptics W
      → String
      → HapticsSinkCtx
      → SlotKey
      → Option FfEffect
      → DispatcherHaptics W × Option ℤ
  unfolding persistent_slot oneshot_slot
  slot_for h sink_id sink key none = persistent_slot h sink_id sink key
  slot_for h sink_id sink key (some eff) = oneshot_slot h sink_id eff

  -- The write of an EV_FF event to a sink. Its `code` is a `__u16`.
  abbrev pub send : DispatcherHaptics W → ℤ → ℤ → ℤ → DispatcherHaptics W
  send h fd real value = record h { world = dev.write_ff h.world fd (u16 real) value }

  unfoldable pub play_effect :
      DispatcherHaptics W → String → String → ℤ → ℤ → Option FfEffect → DispatcherHaptics W × ℤ
  play_effect h sink_id source_id virt_id magnitude maybe_eff = elim (find sink_id h.sinks) [
    | none ↦ (h, minus_one)
    | some sink ↦
        if is_negative sink.fd
        then (h, minus_one)
        else let (h', real) = slot_for h sink_id sink (source_id, virt_id) maybe_eff in
          elim real [ none ↦ (h', minus_one) | some n ↦ (send h' sink.fd n magnitude, n) ]
  ]

  unfoldable pub stop_effect :
      DispatcherHaptics W → String → String → ℤ → DispatcherHaptics W × Bool
  stop_effect h sink_id source_id virt_id = elim (find sink_id h.sinks) [
    | none ↦ (h, false)
    | some sink ↦
        if is_negative sink.fd then (h, false) else elim (find (source_id, virt_id) sink.slots) [
          | none ↦ (h, false)
          | some real ↦ (send h sink.fd real (pos 0), true)
        ]
  ]

  -- The Lua entries. The table of `haptics_erase` has its `source` cleared and its `id` set to -1.
  unfoldable pub haptics_erase : DispatcherHaptics W → Table → DispatcherHaptics W × Table
  haptics_erase h tbl =
      let source = get_str tbl "source" "" in
      let id = get_int tbl "id" minus_one in
      let cleared = field "id" (int minus_one) (field "source" nil tbl) in
      if is_empty source || is_negative id
      then (h, cleared)
      else ((erase_persistent_effect h source id).0, cleared)

  -- The effect is unknown to the dispatcher, so it is played as a one-shot.
  unfoldable pub plays_oneshot : DispatcherHaptics W → String → ℤ → Bool
  plays_oneshot h source id =
      is_empty source
      || is_negative id
      || (elim (find source h.sources) [ none ↦ true | some src ↦ not (contains id src.effects) ])

  unfoldable pub haptics_play : DispatcherHaptics W → String → Table → DispatcherHaptics W
  unfolding plays_oneshot
  haptics_play h sink_id ev =
      let source = get_str ev "source" "" in
      let id = get_int ev "id" minus_one in
      let eff = if plays_oneshot h source id then some (lua_to_ff_effect ev) else none in
      (play_effect h sink_id source id (get_int ev "value" (pos 0)) eff).0

  unfoldable pub haptics_stop : DispatcherHaptics W → String → Table → DispatcherHaptics W
  haptics_stop h sink_id ev =
      (stop_effect h sink_id (get_str ev "source" "") (get_int ev "id" minus_one)).0

module _ {W : Type 0} (epoll : Epoll W) (dev : FfDevice W) where
  -- `get_source`, with the source made if there is none.
  unfoldable pub ensure_source : DispatcherHaptics W → String → DispatcherHaptics W
  ensure_source h id = elim (find id h.sources) [
    | none ↦ register_source epoll h id minus_one ""
    | some src ↦ h
  ]

  -- `eff_out.id` when it is given, and otherwise the next number, as a `__s16`.
  unfoldable pub assign_id : DispatcherHaptics W → FfEffect → DispatcherHaptics W × FfEffect
  assign_id h eff =
      if eqb_ℤ eff.id minus_one
      then (
        record h { internal_id_counter = h.internal_id_counter + 1 },
        record eff { id = s16 (pos h.internal_id_counter) },
      )
      else (h, eff)

  -- The state, and `eff_out` with its id; the id is also what the function returns.
  unfoldable pub create_persistent_effect :
      DispatcherHaptics W → String → FfEffect → DispatcherHaptics W × FfEffect
  unfolding ensure_source assign_id
  create_persistent_effect h source_id eff_out =
      let (h', eff) = assign_id (ensure_source h source_id) eff_out in
      (set_effect (propagate_erase_to_sinks dev h' source_id eff.id) source_id eff.id eff, eff)

  -- `haptics_create` also stores `source` and the id in its table, the second component.
  unfoldable pub haptics_create : DispatcherHaptics W → Table → DispatcherHaptics W × Table
  haptics_create h tbl =
      let (h', eff) = create_persistent_effect h source_custom (lua_to_ff_effect tbl) in
      (h', field "id" (int eff.id) (field "source" (str source_custom) tbl))
