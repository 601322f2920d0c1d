-- ===== src/Haptics/Events.antt =====
-- The requests of the kernel on a virtual device: `handle_event` and what it calls.
use aelkey.Base.{
  ℤ, String, Bool, true, false, not, [], ◌∷◌, Option, none, some, Map, find, is_positive,
  if◌then◌else◌, int_key, string_key, pair_key, ◌==◌, is_empty,
}
use aelkey.Lua.{Table, str, int, table, empty, field}
use aelkey.Haptics.Effect.{FfEffect, rebuild_effect, haptics_effect_to_lua}
use aelkey.Haptics.Defs.{
  HapticsSourceCtx, FfDevice, DispatcherHaptics, propagate_erase_to_sinks, set_effect, drop_effect,
}

-- An `input_event` of a virtual device, by its `type` and `code`: EV_UINPUT with UI_FF_UPLOAD or
-- UI_FF_ERASE and the request number, EV_FF with an effect and a magnitude, or anything else.
pub data Request : Type 0 where
  ff_upload : ℤ → Request
  ff_erase : ℤ → Request
  ff : ℤ → ℤ → Request
  ignored : Request

-- The calls on the uinput descriptor. `read` gives none where the code returns without an event;
-- `begin_upload` and `begin_erase` give none on failure; `end_upload` and `end_erase` are false on
-- failure.
pub record Uinput (W : Type 0) : Type 0 where
  pub read : W → ℤ → W × Option Request
  pub begin_upload : W → ℤ → ℤ → W × Option FfEffect
  pub end_upload : W → ℤ → ℤ → W × Bool
  pub begin_erase : W → ℤ → ℤ → W × Option ℤ
  pub end_erase : W → ℤ → ℤ → W × Bool

-- Lua: whether a global is a function, and a call of it with one table. A callback may call the
-- dispatcher again, so it acts on the whole state.
pub record HapticsLua (W : Type 0) : Type 0 where
  pub is_function : DispatcherHaptics W → String → Bool
  pub call : String → Table → DispatcherHaptics W → DispatcherHaptics W

-- The first source with this descriptor.
unfoldable pub source_of_fd : ℤ → Map String HapticsSourceCtx → Option HapticsSourceCtx
source_of_fd fd [] = none
source_of_fd fd ((id, src) ∷ m) = if src.fd == fd then some src else source_of_fd fd m

module _ {W : Type 0} (dev : FfDevice W) (uinput : Uinput W) (lua : HapticsLua W) where
  abbrev pub at_world : DispatcherHaptics W → W → DispatcherHaptics W
  at_world h w = record h { world = w }

  unfoldable pub handle_upload :
      DispatcherHaptics W → HapticsSourceCtx → ℤ → DispatcherHaptics W × Bool
  handle_upload h src request_id =
      let (w, begun) = uinput.begin_upload h.world src.fd request_id in
      elim begun [
        | none ↦ (at_world h w, false)
        | some effect ↦
            let (w', ended) = uinput.end_upload w src.fd request_id in
            if not ended
            then (at_world h w', false)
            else let h' = set_effect (at_world h w') src.id effect.id (rebuild_effect effect) in
              (propagate_erase_to_sinks dev h' src.id effect.id, true)
      ]

  unfoldable pub handle_erase :
      DispatcherHaptics W → HapticsSourceCtx → ℤ → DispatcherHaptics W × Bool
  handle_erase h src request_id =
      let (w, begun) = uinput.begin_erase h.world src.fd request_id in
      elim begun [
        | none ↦ (at_world h w, false)
        | some virt_id ↦
            let h' = drop_effect (at_world h w) src.id virt_id in
            let h'' = propagate_erase_to_sinks dev h' src.id virt_id in
            let (w', ended) = uinput.end_erase h''.world src.fd request_id in
            (at_world h'' w', ended)
      ]

  -- `src.callback` is set and names a function.
  abbrev pub callable : DispatcherHaptics W → HapticsSourceCtx → Bool
  callable h src = if is_empty src.callback then false else lua.is_function h src.callback

  abbrev pub play_event : HapticsSourceCtx → ℤ → ℤ → Table
  play_event src virt_id magnitude =
      let ev = field "value" (int magnitude) (
        field "id" (int virt_id) (field "type" (str "play") (field "source" (str src.id) empty))) in
      elim (find virt_id src.effects) [
        | none ↦ ev
        | some eff ↦ field "effect" (table (haptics_effect_to_lua eff)) ev
      ]

  abbrev pub stop_event : HapticsSourceCtx → ℤ → Table
  stop_event src virt_id =
      field "id" (int virt_id) (field "type" (str "stop") (field "source" (str src.id) empty))

  unfoldable pub handle_play : DispatcherHaptics W → HapticsSourceCtx → ℤ → ℤ → DispatcherHaptics W
  handle_play h src virt_id magnitude =
      if callable h src then lua.call src.callback (play_event src virt_id magnitude) h else h

  unfoldable pub handle_stop : DispatcherHaptics W → HapticsSourceCtx → ℤ → DispatcherHaptics W
  handle_stop h src virt_id =
      if callable h src then lua.call src.callback (stop_event src virt_id) h else h

  unfoldable pub handle_request :
      DispatcherHaptics W → HapticsSourceCtx → Request → DispatcherHaptics W
  handle_request h src (ff_upload request_id) = (handle_upload h src request_id).0
  handle_request h src (ff_erase request_id) = (handle_erase h src request_id).0
  handle_request h src (ff virt_id magnitude) =
      if is_positive magnitude
      then handle_play h src virt_id magnitude
      else handle_stop h src virt_id
  handle_request h src ignored = h

  -- `readable` is `events & EPOLLIN`.
  unfoldable pub handle_event : DispatcherHaptics W → ℤ → Bool → DispatcherHaptics W
  unfolding handle_request
  handle_event h fd readable = if not readable then h else elim (source_of_fd fd h.sources) [
    | none ↦ h
    | some src ↦
        let (w, r) = uinput.read h.world fd in
        elim r [ none ↦ at_world h w | some request ↦ handle_request (at_world h w) src request ]
  ]
