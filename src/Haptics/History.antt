-- ===== src/Haptics/History.antt =====
-- The histories of the dispatcher, and what holds after each.
use aelkey.Base.{
  ℤ, ◌≡◌, String, Bool, [], none, Option, find, int_key, string_key, pair_key, ==_iff, find-insert,
  arith,
}
use aelkey.Lua.{Table}
use aelkey.Dispatcher.{Epoll, empty_base}
use aelkey.Haptics.Effect.{FfEffect}
use aelkey.Haptics.Defs.{
  HapticsSourceCtx, FfDevice, DispatcherHaptics, register_source, register_sink,
}
use aelkey.Haptics.View.{slot_of, effect_of, slot_of-sinks}
use aelkey.Haptics.Play.{
  create_persistent_effect, erase_persistent_effect, play_effect, stop_effect,
}
use aelkey.Haptics.Events.{Uinput, HapticsLua, handle_event}
use aelkey.Haptics.Backed.{IsBacked, register_sink-IsBacked, erase_persistent_effect-IsBacked}
use aelkey.Haptics.Invariant.{
  play_effect-IsBacked, stop_effect-IsBacked, create-IsBacked, handle_event-IsBacked,
  sinks-register_source,
}

abbrev pub start : {W : Type 0} → W → DispatcherHaptics W
start w = record {
  world = w;
  base = empty_base;
  sources = [];
  sinks = [];
  internal_id_counter = 0;
  oneshot_counter = 0;
}

module _ {W : Type 0} (epoll : Epoll W) (dev : FfDevice W) (uinput : Uinput W)
    (lua : HapticsLua W) where
  start-IsBacked : (w : W) → IsBacked (start w)
  unfolding slot_of find
  start-IsBacked w = record { at = λ k s i p q. cc }

  -- One call of the dispatcher, or a change of the world by another part of the program. A source
  -- is registered under a name that is not in use.
  pub data Call (h : DispatcherHaptics W) : DispatcherHaptics W → Type 0 where
    source :
        (id callback : String) (fd : ℤ)
        → find id h.sources ≡ none
        → Call h (register_source epoll h id fd callback)
    sink : (id : String) (fd : ℤ) → Call h (register_sink h id fd)
    create : (s : String) (eff : FfEffect) → Call h (create_persistent_effect epoll dev h s eff).0
    erased : (s : String) (i : ℤ) → Call h (erase_persistent_effect dev h s i).0
    play :
        (k s : String) (i m : ℤ) (eff : Option FfEffect) → Call h (play_effect dev h k s i m eff).0
    stop : (k s : String) (i : ℤ) → Call h (stop_effect dev h k s i).0
    elsewhere : (w : W) → Call h (record h { world = w })

  -- What a Lua callback may do: any number of calls.
  pub data Calls (h : DispatcherHaptics W) : DispatcherHaptics W → Type 0 where
    done : Calls h h
    and : {g g1 : DispatcherHaptics W} → Calls h g → Call g g1 → Calls h g1

  -- A call, or an event of the kernel, which may call Lua.
  pub data Step (h : DispatcherHaptics W) : DispatcherHaptics W → Type 0 where
    call : {g : DispatcherHaptics W} → Call h g → Step h g
    event : (fd : ℤ) (readable : Bool) → Step h (handle_event dev uinput lua h fd readable)

  pub data Reach (w : W) : DispatcherHaptics W → Type 0 where
    here : Reach w (start w)
    next : {g h : DispatcherHaptics W} → Reach w g → Step g h → Reach w h

  effect_of-register_source :
      (h : DispatcherHaptics W) (id t callback : String) (fd i : ℤ)
      → find id h.sources ≡ none
      → effect_of (register_source epoll h id fd callback) t i ≡ effect_of h t i
  unfolding register_source effect_of find
  effect_of-register_source h id t callback fd i e =
      ground (arith, ==_iff id t, find-insert id t fresh h.sources)
    where
      fresh : HapticsSourceCtx
      fresh = record { id = id; fd = fd; callback = callback; effects = [] }

  register_source-IsBacked :
      (h : DispatcherHaptics W) (id callback : String) (fd : ℤ)
      → find id h.sources ≡ none
      → IsBacked h
      → IsBacked (register_source epoll h id fd callback)
  register_source-IsBacked h id callback fd e b = record {
    at = λ k t j p q.
        let g = register_source epoll h id fd callback in
        rw (effect_of-register_source h id t callback fd j e) (
          b.at k t j
            (rw (← slot_of-sinks g h k (t, j) (sinks-register_source epoll dev h id callback fd)) p)
            q);
  }

  Call-IsBacked : {g h : DispatcherHaptics W} → Call g h → IsBacked g → IsBacked h
  unfolding slot_of effect_of
  Call-IsBacked (source id callback fd e) b = register_source-IsBacked _ id callback fd e b
  Call-IsBacked (sink id fd) b = register_sink-IsBacked _ id fd b
  Call-IsBacked (create s eff) b = create-IsBacked epoll dev _ s eff b
  Call-IsBacked (erased s i) b = erase_persistent_effect-IsBacked dev _ s i b
  Call-IsBacked (play k s i m eff) b = play_effect-IsBacked dev _ k s i m eff b
  Call-IsBacked (stop k s i) b = stop_effect-IsBacked dev _ k s i b
  Call-IsBacked (elsewhere w) b = record { at = b.at }

  Calls-IsBacked : {g h : DispatcherHaptics W} → Calls g h → IsBacked g → IsBacked h
  Calls-IsBacked done b = b
  Calls-IsBacked (and cs c) b = Call-IsBacked c (Calls-IsBacked cs b)

  module _
      (scripts : (name : String) (ev : Table) (h : DispatcherHaptics W)
        → Calls h (lua.call name ev h)) where
    Step-IsBacked : {g h : DispatcherHaptics W} → Step g h → IsBacked g → IsBacked h
    Step-IsBacked (call c) b = Call-IsBacked c b
    Step-IsBacked (event fd readable) b =
        handle_event-IsBacked dev uinput lua (λ name ev h b1. Calls-IsBacked (scripts name ev h) b1)
          _ fd readable b

    -- After any history of calls and kernel events from the empty dispatcher, in which no source is
    -- registered over an existing one and each Lua callback makes such calls only, each real id
    -- that a sink remembers for an effect of a source, one-shots apart, belongs to an effect that
    -- the source still defines.
    pub Reach-IsBacked : {w : W} {h : DispatcherHaptics W} → Reach w h → IsBacked h
    Reach-IsBacked {w} here = start-IsBacked w
    Reach-IsBacked (next r st) = Step-IsBacked st (Reach-IsBacked r)
