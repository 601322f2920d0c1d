-- ===== src/Tick/Tests.antt =====
-- Runs of the tick scheduler. A function of Lua is a number; the world counts the timerfds.
use aelkey.Base.{
  is_zero, ℕ, ℤ, pos, suc, ◌+◌, true, false, eqb, String, [], ◌∷◌, none, some, find, ◌≡◌, All, ◌*◌,
  ◌<◌, ◌==◌, int_key,
}
use aelkey.Dispatcher.{Epoll, EpollPayload, get_payload}
use aelkey.Dispatcher.Payloads.{IsDead, HasPayload}
use aelkey.Tick.Defs.{
  nil, TickCb, Timerfd, TickScheduler, Callbacks, matches, cancel_matching, core_tick, str, spec_of,
}
use aelkey.Tick.Spec.{spec_of_exact}
use aelkey.Tick.Cancel.{Cancelled, OnlyAt, cancel_matching_lem, core_tick-OnlyAt, core_tick-nil}

abbrev kernel : Epoll ℕ
kernel = record { add = λ w fd events. (w, pos 0); del = λ w fd. w }

abbrev timers : Timerfd ℕ
timers = record {
  create = λ w. (suc w, pos w);
  settime = λ w fd spec. (w, pos 0);
  read = λ w fd. (w, pos 8);
  close = λ w fd. w;
}

abbrev calls : Callbacks ℕ ℕ ℕ
calls = record {
  valid = λ f. true;
  same = eqb;
  lookup = λ s name. none;
  call = λ f s. s;
  call_native = λ n s. s;
}

abbrev named : String → TickCb ℕ ℕ
named n = record { fn = none; name = n; native = none; oneshot = false }

abbrev two_timers : TickScheduler ℕ ℕ ℕ
two_timers = record {
  world = 6;
  base = record {
    pollfds =
        (pos 4, record { fd = pos 4; dead = false })
        ∷ (pos 5, record { fd = pos 5; dead = false })
        ∷ [];
    odd = false;
    deferred_even = [];
    deferred_odd = [];
  };
  callbacks = (pos 4, named "tick") ∷ (pos 5, named "tock") ∷ [];
}

spec_of_exact_example :
    (sec : ℕ) × (nsec : ℕ) × ((spec_of (pos 1500) false).value_sec ≡ pos sec)
    × ((spec_of (pos 1500) false).value_nsec ≡ pos nsec)
    × (sec * 1000000000 + nsec ≡ 1500 * 1000000)
    × (nsec < 1000000000)
    × ((spec_of (pos 1500) false).interval_sec ≡ pos sec)
    × ((spec_of (pos 1500) false).interval_nsec ≡ pos nsec)
spec_of_exact_example = spec_of_exact 1500 false

cancel_matching_lem_example :
    All
      (Cancelled kernel timers calls (named "tick"))
      (cancel_matching kernel timers calls two_timers (named "tick")).callbacks
    × ((fd : ℤ) (cb : TickCb ℕ ℕ)
        → find fd two_timers.callbacks ≡ some cb
        → matches kernel timers calls (named "tick") cb ≡ false
        → find fd (cancel_matching kernel timers calls two_timers (named "tick")).callbacks
          ≡ some cb)
    × ((fd : ℤ) (cb : TickCb ℕ ℕ)
        → find fd two_timers.callbacks ≡ some cb
        → matches kernel timers calls (named "tick") cb ≡ true
        → HasPayload two_timers.base fd
        → IsDead (cancel_matching kernel timers calls two_timers (named "tick")).base fd)
    × ((fd : ℤ) (p : EpollPayload)
        → All
            (λ e. (e.0 == fd) ≡ true → Cancelled kernel timers calls (named "tick") e)
            two_timers.callbacks
        → get_payload two_timers.base fd ≡ some p
        → get_payload (cancel_matching kernel timers calls two_timers (named "tick")).base fd
          ≡ some p)
cancel_matching_lem_example = cancel_matching_lem kernel timers calls (named "tick") two_timers

core_tick-OnlyAt_example :
    (fd : ℤ) × OnlyAt kernel timers calls
      (named "tick")
      fd
      (core_tick kernel timers calls two_timers (pos 250) (str "tick")).callbacks
core_tick-OnlyAt_example =
    core_tick-OnlyAt kernel timers calls two_timers (pos 250) (str "tick") (λ e. cc)

core_tick-nil_example :
    let t = core_tick kernel timers calls two_timers (pos 0) nil in
    (is_zero (pos 0) ≡ true
      → (t.callbacks ≡ [])
        × ((fd : ℤ) (cb : TickCb ℕ ℕ)
            → find fd two_timers.callbacks ≡ some cb
            → HasPayload two_timers.base fd
            → IsDead t.base fd))
    × (is_zero (pos 0) ≡ false → t ≡ two_timers)
core_tick-nil_example = core_tick-nil kernel timers calls two_timers (pos 0)
