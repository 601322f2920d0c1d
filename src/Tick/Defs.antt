-- ===== src/Tick/Defs.antt =====
-- The state of `TickScheduler`, its operations, and the Lua entry `core_tick`.
-- A Lua function is a value of `F`, a native callback one of `N`; both are parameters, and so are
-- the timerfd calls and what a callback does. A callback may call the scheduler again, so it acts
-- on the whole state. Error messages are not modelled.
use aelkey.Base.{
  ℕ, ℤ, zero, suc, pos, negsuc, ◌*◌, ◌/◌, ◌%◌, Bool, false, [], ◌∷◌, Option, none, some, Map, find,
  insert, is_negative, is_zero, if◌then◌else◌, int_key, string_key, String, is_empty, ◌==◌,
  minus_one,
}
use aelkey.Dispatcher.{Epoll, DispatcherBase, register_fd, unregister_fd}

pub record TickCb (F N : Type 0) : Type 0 where
  pub fn : Option F  -- `is_function` and `fn`: none when `is_function` is false
  pub name : String
  pub native : Option N
  pub oneshot : Bool

-- `struct itimerspec`
pub record Itimerspec : Type 0 where
  pub value_sec : ℤ
  pub value_nsec : ℤ
  pub interval_sec : ℤ
  pub interval_nsec : ℤ

-- The calls on timerfds; `create`, `settime` and `read` return the C return code.
pub record Timerfd (W : Type 0) : Type 0 where
  pub create : W → W × ℤ
  pub settime : W → ℤ → Itimerspec → W × ℤ
  pub read : W → ℤ → W × ℤ
  pub close : W → ℤ → W

pub record TickScheduler (W F N : Type 0) : Type 0 where
  pub world : W
  pub base : DispatcherBase
  pub callbacks : Map ℤ (TickCb F N)

-- What the scheduler needs of Lua and of native callbacks. `valid` is `sol::function::valid`,
-- `same` the identity test of `sol::function`, `lookup` a read of a global that is a function.
pub record Callbacks (W F N : Type 0) : Type 0 where
  pub valid : F → Bool
  pub same : F → F → Bool
  pub lookup : TickScheduler W F N → String → Option F
  pub call : F → TickScheduler W F N → TickScheduler W F N
  pub call_native : N → TickScheduler W F N → TickScheduler W F N

abbrev pub neg : ℕ → ℤ
neg zero = pos 0
neg (suc n) = negsuc n

-- C's `/` and `%` by a positive number: they round towards zero.
abbrev pub div_c : ℤ → ℕ → ℤ
div_c (pos a) k = pos (a / k)
div_c (negsuc a) k = neg (suc a / k)

abbrev pub mod_c : ℤ → ℕ → ℤ
mod_c (pos a) k = pos (a % k)
mod_c (negsuc a) k = neg (suc a % k)

abbrev pub times : ℤ → ℕ → ℤ
times (pos a) k = pos (a * k)
times (negsuc a) k = neg (suc a * k)

unfoldable pub spec_of : ℤ → Bool → Itimerspec
spec_of ms oneshot =
    let sec = div_c ms 1000 in
    let nsec = times (mod_c ms 1000) 1000000 in
    if oneshot
    then record { value_sec = sec; value_nsec = nsec; interval_sec = pos 0; interval_nsec = pos 0 }
    else record { value_sec = sec; value_nsec = nsec; interval_sec = sec; interval_nsec = nsec }

-- The argument of `tick(ms, callback)`.
pub data LuaArg (F : Type 0) : Type 0 where
  nil : LuaArg F
  str : String → LuaArg F
  func : F → LuaArg F
  other : LuaArg F

abbrev pub epollin : ℕ
epollin = 1

module _ {W F N : Type 0} (epoll : Epoll W) (timer : Timerfd W) (cbs : Callbacks W F N) where
  -- The rule of `cancel_matching`: the first argument is the key.
  unfoldable pub matches : TickCb F N → TickCb F N → Bool
  matches key existing = elim key.fn [
    | some f ↦ elim existing.fn [ some g ↦ cbs.same g f | none ↦ false ]
    | none ↦ elim existing.fn [ some g ↦ false | none ↦ existing.name == key.name ]
  ]

  -- What a flush of the deferred descriptors does with each.
  unfoldable pub on_unregister : W → ℤ → W
  on_unregister w fd = timer.close w fd

  -- `unregister_fd` on the scheduler's state.
  abbrev pub unregister : TickScheduler W F N → ℤ → TickScheduler W F N
  unregister s fd =
      let (w, b) = unregister_fd epoll s.world s.base fd in record s { world = w; base = b }

  -- `cb.is_function && cb.fn.valid()`
  abbrev pub valid_fn : TickCb F N → Option F
  valid_fn cb = elim cb.fn [ some f ↦ if cbs.valid f then some f else none | none ↦ none ]

  unfoldable pub run_callback : TickCb F N → TickScheduler W F N → TickScheduler W F N
  run_callback cb s = elim cb.native [
    | some n ↦ cbs.call_native n s
    | none ↦ elim (valid_fn cb) [
      | some f ↦ cbs.call f s
      | none ↦
          if is_empty cb.name
          then s
          else elim (cbs.lookup s cb.name) [ some g ↦ cbs.call g s | none ↦ s ]
    ]
  ]

  unfoldable pub handle_event : TickScheduler W F N → ℤ → TickScheduler W F N
  unfolding run_callback
  handle_event s fd =
      let (w, rc) = timer.read s.world fd in
      let s' = record s { world = w } in
      if is_negative rc then s' else elim (find fd s.callbacks) [
        | none ↦ s'
        | some cb ↦ let t = run_callback cb s' in if cb.oneshot then unregister t fd else t
      ]

  -- The timerfd, or -1.
  unfoldable pub schedule : TickScheduler W F N → ℤ → TickCb F N → TickScheduler W F N × ℤ
  schedule s ms cb =
      let (w, fd) = timer.create s.world in
      if is_negative fd
      then (record s { world = w }, minus_one)
      else let (w', rc) = timer.settime w fd (spec_of ms cb.oneshot) in
        if is_negative rc
        then (record s { world = timer.close w' fd }, minus_one)
        else let (w'', b) = register_fd epoll w' s.base fd epollin in
          (record s { world = w''; base = b; callbacks = insert fd cb s.callbacks }, fd)

  -- The loop of `cancel_matching` over the entries that are left; it returns those that it keeps.
  unfoldable pub cancel_entries :
      TickCb F N
      → W × DispatcherBase
      → Map ℤ (TickCb F N)
      → (W × DispatcherBase) × Map ℤ (TickCb F N)
  cancel_entries key s [] = (s, [])
  cancel_entries key s ((fd, cb) ∷ m) =
      let rest =
        cancel_entries key (if matches key cb then unregister_fd epoll s.0 s.1 fd else s) m in
      if matches key cb then rest else (rest.0, (fd, cb) ∷ rest.1)

  unfoldable pub cancel_matching : TickScheduler W F N → TickCb F N → TickScheduler W F N
  cancel_matching s key =
      let ((w, b), m) = cancel_entries key (s.world, s.base) s.callbacks in
      record { world = w; base = b; callbacks = m }

  unfoldable pub unregister_all : W × DispatcherBase → Map ℤ (TickCb F N) → W × DispatcherBase
  unregister_all s [] = s
  unregister_all s ((fd, cb) ∷ m) = unregister_all (unregister_fd epoll s.0 s.1 fd) m

  unfoldable pub cancel_all : TickScheduler W F N → TickScheduler W F N
  unfolding unregister_all
  cancel_all s =
      let (w, b) = unregister_all (s.world, s.base) s.callbacks in
      record { world = w; base = b; callbacks = [] }

  abbrev pub key_of : LuaArg F → TickCb F N
  key_of (str n) = record { fn = none; name = n; native = none; oneshot = false }
  key_of (func f) = record { fn = some f; name = ""; native = none; oneshot = false }
  key_of _ = record { fn = none; name = ""; native = none; oneshot = false }

  -- `core_tick` past the test for a nil callback.
  unfoldable pub tick_key : TickScheduler W F N → ℤ → TickCb F N → TickScheduler W F N
  tick_key s ms key =
      let t = cancel_matching s key in if is_zero ms then t else (schedule t ms key).0

  unfoldable pub core_tick : TickScheduler W F N → ℤ → LuaArg F → TickScheduler W F N
  unfolding tick_key
  core_tick s ms nil = if is_zero ms then cancel_all s else s
  core_tick s ms (str n) = tick_key s ms (key_of (str n))
  core_tick s ms (func f) = tick_key s ms (key_of (func f))
  core_tick s ms other = tick_key s ms (key_of other)
