-- ===== src/Haptics/Tests.antt =====
-- Runs of the haptics dispatcher. The world of these tests is the number of free slots of the only
-- force-feedback device: an upload takes one and a removal gives it back.
use aelkey.Base.{
  ℕ, pos, zero, suc, ◌≡◌, refl, true, false, [], ◌∷◌, none, some, find, string_key, int_key,
  pair_key, minus_one, arith,
}
use aelkey.Dispatcher.{Epoll, empty_base}
use aelkey.Haptics.Effect.{FfEffect, rumble, lua_to_ff_effect, haptics_effect_to_lua}
use aelkey.Haptics.Defs.{
  HapticsSourceCtx, HapticsSinkCtx, FfDevice, Upload, uploaded, no_space, DispatcherHaptics,
  register_source, register_sink, remove_all,
}
use aelkey.Haptics.View.{slot_of, effect_of}
use aelkey.Haptics.Play.{create_persistent_effect, play_effect}
use aelkey.Haptics.Events.{Uinput, HapticsLua}
use aelkey.Haptics.Backed.{IsBacked}
use aelkey.Haptics.Create.{create_persistent_effect_lem}
use aelkey.Haptics.Playback.{play_effect_twice, play_effect_full}
use aelkey.Haptics.Convert.{IsCarried, lua_to_ff_effect-haptics_effect_to_lua}
use aelkey.Haptics.History.{
  start, Reach, here, next, call, done, source, sink, create, play, Reach-IsBacked,
}

abbrev kernel : Epoll ℕ
kernel = record { add = λ w fd events. (w, pos 0); del = λ w fd. w }

abbrev take_slot : ℕ → ℕ × Upload
take_slot zero = (zero, no_space)
take_slot (suc n) = (n, uploaded (pos n))

abbrev device : FfDevice ℕ
device = record {
  remove = λ w fd id. suc w;
  upload = λ w fd eff. take_slot w;
  write_ff = λ w fd id value. w;
}

abbrev requests : Uinput ℕ
requests = record {
  read = λ w fd. (w, none);
  begin_upload = λ w fd id. (w, none);
  end_upload = λ w fd id. (w, true);
  begin_erase = λ w fd id. (w, none);
  end_erase = λ w fd id. (w, true);
}

abbrev no_functions : HapticsLua ℕ
no_functions = record { is_function = λ h name. false; call = λ name ev h. h }

abbrev shake : FfEffect
shake = record {
  id = pos 2;
  force = rumble 100 200;
  direction = 0;
  length = 250;
  delay = 10;
  button = 0;
  interval = 0;
}

-- One source with one effect, and one sink; the sink has a slot for another source's effect.
abbrev ready : ℕ → DispatcherHaptics ℕ
ready free = record {
  world = free;
  base = empty_base;
  sources =
      ("pad", record { id = "pad"; fd = pos 5; callback = ""; effects = (pos 2, shake) ∷ [] }) ∷ [];
  sinks = ("wheel", record { id = "wheel"; fd = pos 9; slots = (("old", pos 1), pos 7) ∷ [] }) ∷ [];
  internal_id_counter = 0;
  oneshot_counter = 0;
}

abbrev wheel : HapticsSinkCtx
wheel = record { id = "wheel"; fd = pos 9; slots = (("old", pos 1), pos 7) ∷ [] }

abbrev pad : HapticsSourceCtx
pad = record { id = "pad"; fd = pos 5; callback = ""; effects = (pos 2, shake) ∷ [] }

abbrev with_source : DispatcherHaptics ℕ
with_source = register_source kernel (start 3) "pad" (pos 5) "on_rumble"

abbrev with_sink : DispatcherHaptics ℕ
with_sink = register_sink with_source "wheel" (pos 9)

abbrev with_effect : DispatcherHaptics ℕ
with_effect = (create_persistent_effect kernel device with_sink "pad" shake).0

abbrev played : DispatcherHaptics ℕ
played = (play_effect device with_effect "wheel" "pad" (pos 2) (pos 1) none).0

no_source : find "pad" (start {W = ℕ} 3).sources ≡ none
unfolding find
no_source = refl

history : Reach kernel device requests no_functions 3 played
history =
    next
      (next
        (next (next here (call (source "pad" "on_rumble" (pos 5) no_source)))
          (call (sink "wheel" (pos 9))))
        (call (create "pad" shake)))
      (call (play "wheel" "pad" (pos 2) (pos 1) none))

Reach-IsBacked_example : IsBacked played
Reach-IsBacked_example =
    Reach-IsBacked kernel device requests no_functions (λ name ev h. done) history

create_persistent_effect_lem_example :
    let (g, out) = create_persistent_effect kernel device (ready 3) "pad" shake in
    (effect_of g "pad" (pos 2) ≡ some out) × (slot_of g "wheel" ("pad", pos 2) ≡ none)
unfolding create_persistent_effect
create_persistent_effect_lem_example =
    create_persistent_effect_lem kernel device (ready 3) "pad" shake "pad" "wheel" (pos 2)

sink_found : (free : ℕ) → find "wheel" (ready free).sinks ≡ some wheel
unfolding find
sink_found free = refl

no_slot : find ("pad", pos 2) wheel.slots ≡ none
unfolding find
no_slot = refl

source_found : (free : ℕ) → find "pad" (ready free).sources ≡ some pad
unfolding find
source_found free = refl

effect_found : find (pos 2) pad.effects ≡ some shake
unfolding find
effect_found = refl

play_effect_twice_example :
    let (g, r) = play_effect device (ready 3) "wheel" "pad" (pos 2) (pos 1) none in
    (r ≡ pos 2)
    × (g.world ≡ 2)
    × (play_effect device g "wheel" "pad" (pos 2) (pos 0) none
        ≡ (record g { world = g.world }, pos 2))
play_effect_twice_example =
    play_effect_twice device (ready 3) "wheel" "pad" (pos 2) (pos 1) (pos 0) 2 (sink_found 3) refl
      no_slot (source_found 3) effect_found refl

emptied : take_slot (remove_all device 0 (pos 9) wheel.slots) ≡ (0, uploaded (pos 0))
unfolding remove_all
emptied = refl

play_effect_full_example :
    ((play_effect device (ready 0) "wheel" "pad" (pos 2) (pos 1) none).1 ≡ pos 0)
    × (slot_of
          (play_effect device (ready 0) "wheel" "pad" (pos 2) (pos 1) none).0
          "wheel"
          ("old", pos 1)
        ≡ none)
play_effect_full_example =
    play_effect_full device (ready 0) "wheel" "pad" (pos 2) (pos 1) 0 ("old", pos 1) (sink_found 0)
      refl no_slot (source_found 0) effect_found refl (λ i. (emptied i).1)

shake-IsCarried : IsCarried shake
shake-IsCarried = record {
  force = (omega arith, omega arith);
  direction = refl;
  button = refl;
  interval = refl;
  length = omega arith;
  delay = omega arith;
}

lua_to_ff_effect-haptics_effect_to_lua_example :
    lua_to_ff_effect (haptics_effect_to_lua shake) ≡ record shake { id = minus_one }
lua_to_ff_effect-haptics_effect_to_lua_example =
    lua_to_ff_effect-haptics_effect_to_lua shake shake-IsCarried
