-- ===== src/Haptics/Convert.antt =====
-- The Lua form of an effect and back.
use aelkey.Base.{u16, ℕ, ℤ, pos, negsuc, ◌≡◌, ◌<◌, string_key, minus_one, arith}
use aelkey.Lua.{get}
use aelkey.Haptics.Effect.{
  FfEffect, Force, rumble, periodic, constant, unknown, no_envelope, s16, lua_to_ff_effect,
  haptics_effect_to_lua,
}

u16_id : (n : ℕ) → n < 65536 → u16 (pos n) ≡ n
u16_id n h = omega arith

-- The values of a `__s16`.
abbrev pub InS16 : ℤ → Type 0
InS16 (pos n) = n < 32768
InS16 (negsuc n) = n < 32768

s16_id : (z : ℤ) → InS16 z → s16 z ≡ z
s16_id (pos n) h = ground arith
s16_id (negsuc n) h = ground arith

-- The fields of the union are values of their C types.
abbrev pub ForceFits : Force → Type 0
ForceFits (rumble strong weak) = (strong < 65536) × (weak < 65536)
ForceFits (periodic p) =
    (p.waveform < 65536)
    × (p.period < 65536)
    × InS16 p.magnitude
    × InS16 p.offset
    × (p.phase < 65536)
    × (p.envelope ≡ no_envelope)
ForceFits (constant level envelope) = InS16 level × (envelope ≡ no_envelope)
ForceFits (unknown n) = ⊥

-- An effect of a known type that uses only what its Lua form carries: no direction, no trigger and
-- no envelope.
pub record IsCarried (e : FfEffect) : Type 0 where
  pub force : ForceFits e.force
  pub direction : e.direction ≡ 0
  pub button : e.button ≡ 0
  pub interval : e.interval ≡ 0
  pub length : e.length < 65536
  pub delay : e.delay < 65536

by_force :
    (f : Force) (i : ℤ) (l d : ℕ)
    → ForceFits f
    → l < 65536
    → d < 65536
    → let e : FfEffect = record {
      id = i;
      force = f;
      direction = 0;
      length = l;
      delay = d;
      button = 0;
      interval = 0;
    } in
      lua_to_ff_effect (haptics_effect_to_lua e) ≡ record e { id = minus_one }
unfolding lua_to_ff_effect haptics_effect_to_lua get
by_force (rumble s w) i l d h k m = ground arith
by_force (periodic p) i l d h k m = ground (arith, s16_id p.magnitude (h.2), s16_id p.offset (h.3))
by_force (constant z e) i l d h k m = ground (arith, s16_id z (h.0))
by_force (unknown n) i l d h k m = absurd h

-- An effect that uses only what its Lua form carries comes back from `haptics_effect_to_lua` and
-- `lua_to_ff_effect` as it was, but for its id, which is -1.
pub lua_to_ff_effect-haptics_effect_to_lua :
    (e : FfEffect)
    → IsCarried e
    → lua_to_ff_effect (haptics_effect_to_lua e) ≡ record e { id = minus_one }
lua_to_ff_effect-haptics_effect_to_lua e c =
    rw (← plain) (by_force e.force e.id e.length e.delay c.force c.length c.delay)
  where
    plain :
        record {
          id = e.id;
          force = e.force;
          direction = 0;
          length = e.length;
          delay = e.delay;
          button = 0;
          interval = 0;
        }
        ≡ e
    plain = ground arith
