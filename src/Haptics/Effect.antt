-- ===== src/Haptics/Effect.antt =====
-- `ff_effect` and its conversions: `lua_to_ff_effect`, `haptics_effect_to_lua`, `rebuild_effect`.
use aelkey.Base.{ℕ, ℤ, pos, negsuc, ◌-◌, u16, ◌==◌, if◌then◌else◌, ltb, eqb, string_key, minus_one}
use aelkey.Lua.{Table, str, int, empty, field, get_int, get_str}

-- An assignment to a `__s16` field.
abbrev pub s16 : ℤ → ℤ
s16 z = let w = u16 z in if ltb w 32768 then pos w else negsuc (65535 - w)

pub record Envelope : Type 0 where
  pub attack_length : ℕ
  pub attack_level : ℕ
  pub fade_length : ℕ
  pub fade_level : ℕ

pub record Periodic : Type 0 where
  pub waveform : ℕ
  pub period : ℕ
  pub magnitude : ℤ
  pub offset : ℤ
  pub phase : ℕ
  pub envelope : Envelope

-- The field `type` with the member of the union `u` that the program reads under it; `unknown` is
-- any type but FF_RUMBLE, FF_PERIODIC and FF_CONSTANT.
pub data Force : Type 0 where
  rumble : (strong weak : ℕ) → Force
  periodic : Periodic → Force
  constant : (level : ℤ) → Envelope → Force
  unknown : ℕ → Force

-- `replay` is `length` and `delay`, `trigger` is `button` and `interval`.
pub record FfEffect : Type 0 where
  pub id : ℤ
  pub force : Force
  pub direction : ℕ
  pub length : ℕ
  pub delay : ℕ
  pub button : ℕ
  pub interval : ℕ

abbrev pub no_envelope : Envelope
no_envelope = record { attack_length = 0; attack_level = 0; fade_length = 0; fade_level = 0 }

abbrev pub default_rumble : Force
default_rumble = rumble 0x4000 0x4000

abbrev pub envelope_of : Table → Envelope
envelope_of t = record {
  attack_length = u16 (get_int t "attack_length" (pos 0));
  attack_level = u16 (get_int t "attack_level" (pos 0));
  fade_length = u16 (get_int t "fade_length" (pos 0));
  fade_level = u16 (get_int t "fade_level" (pos 0));
}

-- The fields that every type has, over a zeroed effect.
abbrev pub common_fields : Table → FfEffect
common_fields t = record {
  id = minus_one;
  force = unknown 0;
  direction = u16 (get_int t "direction" (pos 0));
  length = u16 (get_int t "length" (pos 250));
  delay = u16 (get_int t "delay" (pos 0));
  button = u16 (get_int t "trigger_button" (pos 0));
  interval = u16 (get_int t "trigger_interval" (pos 0));
}

unfoldable pub lua_to_ff_effect : Table → FfEffect
lua_to_ff_effect t =
    let eff = common_fields t in
    let type = get_str t "type" "rumble" in
    if type == "rumble"
    then record eff {
      force = rumble (u16 (get_int t "strong" (pos 0x4000))) (u16 (get_int t "weak" (pos 0x4000)));
    }
    else if type == "periodic"
    then record eff {
      force = periodic (record {
        waveform = u16 (get_int t "waveform" (pos 0));
        period = u16 (get_int t "period" (pos 0));
        magnitude = s16 (get_int t "magnitude" (pos 0));
        offset = s16 (get_int t "offset" (pos 0));
        phase = u16 (get_int t "phase" (pos 0));
        envelope = envelope_of t;
      });
    }
    else if type == "constant"
    then record eff { force = constant (s16 (get_int t "level" (pos 0))) (envelope_of t) }
    else record eff { force = default_rumble; delay = if eqb eff.delay 0 then 250 else eff.delay }

-- The fields that follow `id`, `length` and `delay`.
abbrev pub force_fields : Force → Table
force_fields (rumble strong weak) =
    field "type" (str "rumble")
      (field "strong" (int (pos strong)) (field "weak" (int (pos weak)) empty))
force_fields (periodic p) = field "type" (str "periodic") (
    field "waveform" (int (pos p.waveform)) (
      field "magnitude" (int p.magnitude) (
        field "offset" (int p.offset)
          (field "phase" (int (pos p.phase)) (field "period" (int (pos p.period)) empty)))))
force_fields (constant level envelope) =
    field "type" (str "constant") (field "level" (int level) empty)
force_fields (unknown n) = empty

unfoldable pub haptics_effect_to_lua : FfEffect → Table
haptics_effect_to_lua eff = field "id" (int eff.id) (
    field "length" (int (pos eff.length))
      (field "delay" (int (pos eff.delay)) (force_fields eff.force)))

-- `rebuild_effect`, which always succeeds.
unfoldable pub rebuild_effect : FfEffect → FfEffect
rebuild_effect src =
    let eff = record src { id = minus_one } in
    elim src.force [
      | rumble s w ↦ eff
      | periodic p ↦ eff
      | constant l e ↦ eff
      | unknown n ↦ record eff {
        force = default_rumble;
        length = if eqb src.length 0 then 250 else src.length;
      }
    ]
