-- ===== src/Dispatcher/Defs.antt =====
-- The state of a `DispatcherBase` and its operations. The kernel is the interface `Epoll`.
use aelkey.Base.{
  ℕ, ℤ, Bool, true, false, List, [], ◌∷◌, ◌++◌, Option, none, some, Map, find, insert, erase,
  is_negative, if◌then◌else◌, int_key,
}

-- `epoll_ctl` on the process's epoll descriptor. `W` is the state of the world outside the
-- program; `add` registers the payload that the dispatcher keeps for the descriptor.
pub record Epoll (W : Type 0) : Type 0 where
  pub add : W → ℤ → ℕ → W × ℤ
  pub del : W → ℤ → W

-- The payload's dispatcher is the one whose `pollfds` holds it.
pub record EpollPayload : Type 0 where
  pub fd : ℤ
  pub dead : Bool

-- `deferred_even` and `deferred_odd` are `deferred_unregs_[0]` and `deferred_unregs_[1]`; `odd` is
-- `cycle_ == 1`.
pub record DispatcherBase : Type 0 where
  pub pollfds : Map ℤ EpollPayload
  pub odd : Bool
  pub deferred_even : List ℤ
  pub deferred_odd : List ℤ

abbrev pub empty_base : DispatcherBase
empty_base = record { pollfds = []; odd = false; deferred_even = []; deferred_odd = [] }

-- The pointer into the map is the payload that it points to.
unfoldable pub get_payload : DispatcherBase → ℤ → Option EpollPayload
get_payload b fd = find fd b.pollfds

-- `std::map::emplace` keeps an entry that is there.
abbrev pub emplace : ℤ → EpollPayload → Map ℤ EpollPayload → Map ℤ EpollPayload
emplace fd p m = elim (find fd m) [ none ↦ insert fd p m | some q ↦ m ]

-- `deferred_unregs_[cycle_].push_back(fd)`
abbrev pub defer : ℤ → DispatcherBase → DispatcherBase
defer fd b =
    if b.odd
    then record b { deferred_odd = b.deferred_odd ++ fd ∷ [] }
    else record b { deferred_even = b.deferred_even ++ fd ∷ [] }

module _ {W : Type 0} (epoll : Epoll W) where
  unfoldable pub register_fd : W → DispatcherBase → ℤ → ℕ → W × DispatcherBase
  register_fd w b fd events =
      let m = emplace fd (record { fd = fd; dead = false }) b.pollfds in
      let (w', rc) = epoll.add w fd events in
      if is_negative rc
      then (w', record b { pollfds = erase fd m })
      else (w', record b { pollfds = m })

  unfoldable pub unregister_fd : W → DispatcherBase → ℤ → W × DispatcherBase
  unregister_fd w b fd =
      let w' = epoll.del w fd in
      elim (find fd b.pollfds) [
        | none ↦ (w', b)
        | some p ↦
            (w', defer fd (record b { pollfds = insert fd (record p { dead = true }) b.pollfds }))
      ]

  delete_all : W → Map ℤ EpollPayload → W
  delete_all w [] = w
  delete_all w ((fd, p) ∷ m) = delete_all (epoll.del w fd) m

  unfoldable pub cleanup_fds : W → DispatcherBase → W × DispatcherBase
  unfolding delete_all
  cleanup_fds w b = (delete_all w b.pollfds, record b { pollfds = [] })

module _ {W : Type 0} where
  -- The loop of `flush_deferred`; `on_unregister` is the virtual method.
  unfoldable pub notify_unregistered : (W → ℤ → W) → Map ℤ EpollPayload → W → List ℤ → W
  notify_unregistered on_unregister m w [] = w
  notify_unregistered on_unregister m w (fd ∷ fds) =
      notify_unregistered on_unregister m
        (elim (find fd m) [ none ↦ w | some p ↦ on_unregister w fd ]) fds

  unfoldable pub flush_deferred : (W → ℤ → W) → W → DispatcherBase → W × DispatcherBase
  flush_deferred on_unregister w b =
      if b.odd
      then (
        notify_unregistered on_unregister b.pollfds w b.deferred_even,
        record b { deferred_even = []; odd = false },
      )
      else (
        notify_unregistered on_unregister b.pollfds w b.deferred_odd,
        record b { deferred_odd = []; odd = true },
      )

-- A history of calls, for statements about what survives one.
pub data Op : Type 0 where
  register : ℤ → ℕ → Op
  unregister : ℤ → Op
  flush : Op

module _ {W : Type 0} (epoll : Epoll W) (on_unregister : W → ℤ → W) where
  unfoldable pub step : W × DispatcherBase → Op → W × DispatcherBase
  step s (register fd events) = register_fd epoll s.0 s.1 fd events
  step s (unregister fd) = unregister_fd epoll s.0 s.1 fd
  step s flush = flush_deferred on_unregister s.0 s.1

  unfoldable pub run : W × DispatcherBase → List Op → W × DispatcherBase
  unfolding step
  run s [] = s
  run s (o ∷ os) = run (step s o) os
