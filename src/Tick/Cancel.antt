-- ===== src/Tick/Cancel.antt =====
-- Which timers are left after a cancellation, and what becomes of their payloads.
use aelkey.Base.{
  find_first, find_next, ℤ, pos, ◌≡◌, ◌≢◌, refl, ◌∙◌, Bool, true, false, [], ◌∷◌, some, Map, find,
  find-cons, int_key, ◌==◌, All, All-insert, Bool-cases, inl, inr, is_zero, is_negative,
}
use aelkey.Dispatcher.{Epoll, EpollPayload, DispatcherBase, get_payload}
use aelkey.Dispatcher.Payloads.{
  IsDead, get_payload-unregister_fd_ne, unregister_fd-IsDead, HasPayload, unregister_fd-HasPayload,
  unregister_fd_kills,
}
use aelkey.Tick.Defs.{
  TickCb, Timerfd, TickScheduler, Callbacks, matches, cancel_entries, cancel_matching,
  unregister_all, cancel_all, schedule, core_tick, tick_key, LuaArg, nil, str, func, other, key_of,
  spec_of,
}

module _ {W F N : Type 0} (epoll : Epoll W) (timer : Timerfd W) (cbs : Callbacks W F N) where
  module _ (key : TickCb F N) where
    abbrev pub Cancelled : ℤ × TickCb F N → Type 0
    Cancelled e = matches epoll timer cbs key e.1 ≡ false

    cancel_entries_none_left :
        (m : Map ℤ (TickCb F N)) (s : W × DispatcherBase)
        → All Cancelled (cancel_entries epoll timer cbs key s m).1
    unfolding cancel_entries
    cancel_entries_none_left [] s = tt
    cancel_entries_none_left ((fd, cb) ∷ m) s = elim (Bool-cases (matches epoll timer cbs key cb)) [
      | inl e ↦ rw e (cancel_entries_none_left m _)
      | inr e ↦ rw e (e, cancel_entries_none_left m s)
    ]

    cancel_entries-IsDead :
        (m : Map ℤ (TickCb F N)) (s : W × DispatcherBase) (fd : ℤ)
        → IsDead s.1 fd
        → IsDead (cancel_entries epoll timer cbs key s m).0.1 fd
    unfolding cancel_entries
    cancel_entries-IsDead [] s fd d = d
    cancel_entries-IsDead ((j, cb) ∷ m) s fd d =
        elim (Bool-cases (matches epoll timer cbs key cb)) [
          | inl e ↦ rw e (cancel_entries-IsDead m _ fd (unregister_fd-IsDead epoll s.0 s.1 j fd d))
          | inr e ↦ rw e (cancel_entries-IsDead m s fd d)
        ]

    cancel_entries_kills :
        (m : Map ℤ (TickCb F N)) (s : W × DispatcherBase) (fd : ℤ) {cb : TickCb F N}
        → find fd m ≡ some cb
        → matches epoll timer cbs key cb ≡ true
        → HasPayload s.1 fd
        → IsDead (cancel_entries epoll timer cbs key s m).0.1 fd
    unfolding cancel_entries find
    cancel_entries_kills [] s fd h k p = cc
    cancel_entries_kills ((j, c) ∷ m) s fd {cb} h k p = elim (find-cons fd j c m h) [
      | inl (e, f) ↦
          rw (e, f, k) (cancel_entries-IsDead m _ fd (unregister_fd_kills epoll s.0 s.1 fd p))
      | inr (e, f) ↦ elim (Bool-cases (matches epoll timer cbs key c)) [
        | inl g ↦
            rw g (cancel_entries_kills m _ fd f k (unregister_fd-HasPayload epoll s.0 s.1 j fd p))
        | inr g ↦ rw g (cancel_entries_kills m s fd f k p)
      ]
    ]

    cancel_entries_stays :
        (m : Map ℤ (TickCb F N)) (s : W × DispatcherBase) (fd : ℤ) {cb : TickCb F N}
        → find fd m ≡ some cb
        → matches epoll timer cbs key cb ≡ false
        → find fd (cancel_entries epoll timer cbs key s m).1 ≡ some cb
    unfolding cancel_entries find
    cancel_entries_stays [] s fd h k = cc
    cancel_entries_stays ((j, c) ∷ m) s fd {cb} h k = elim (find-cons fd j c m h) [
      | inl (e, f) ↦ rw (e, f, k) (find_first fd cb _)
      | inr (e, f) ↦ elim (Bool-cases (matches epoll timer cbs key c)) [
        | inl g ↦ rw g (cancel_entries_stays m _ fd f k)
        | inr g ↦ rw g (find_next fd j c _ e ∙ cancel_entries_stays m s fd f k)
      ]
    ]

    other_fd :
        (c : TickCb F N) (b : Bool)
        → matches epoll timer cbs key c ≡ true
        → (b ≡ true → matches epoll timer cbs key c ≡ false)
        → b ≡ false
    other_fd c true e h = cc (h refl)
    other_fd c false e h = refl

    cancel_entries_keeps :
        (m : Map ℤ (TickCb F N)) (s : W × DispatcherBase) (fd : ℤ) {p : EpollPayload}
        → All (λ e. (e.0 == fd) ≡ true → Cancelled e) m
        → get_payload s.1 fd ≡ some p
        → get_payload (cancel_entries epoll timer cbs key s m).0.1 fd ≡ some p
    unfolding cancel_entries
    cancel_entries_keeps [] s fd a h = h
    cancel_entries_keeps ((j, c) ∷ m) s fd a h = elim (Bool-cases (matches epoll timer cbs key c)) [
      | inl e ↦ rw e (
          cancel_entries_keeps m _ fd a.1
            (get_payload-unregister_fd_ne epoll s.0 s.1 j fd (other_fd c (j == fd) e a.0) ∙ h))
      | inr e ↦ rw e (cancel_entries_keeps m s fd a.1 h)
    ]

    -- After `cancel_matching(key)` no timer that matches the key is in the table, each other timer
    -- is still there, the payload of each timer in the table that did match is dead, and the payload
    -- of a descriptor under which the table has no timer that matches is untouched.
    pub cancel_matching_lem :
        (s : TickScheduler W F N)
        → All Cancelled (cancel_matching epoll timer cbs s key).callbacks
          × ((fd : ℤ) (cb : TickCb F N)
              → find fd s.callbacks ≡ some cb
              → matches epoll timer cbs key cb ≡ false
              → find fd (cancel_matching epoll timer cbs s key).callbacks ≡ some cb)
          × ((fd : ℤ) (cb : TickCb F N)
              → find fd s.callbacks ≡ some cb
              → matches epoll timer cbs key cb ≡ true
              → HasPayload s.base fd
              → IsDead (cancel_matching epoll timer cbs s key).base fd)
          × ((fd : ℤ) (p : EpollPayload)
              → All (λ e. (e.0 == fd) ≡ true → Cancelled e) s.callbacks
              → get_payload s.base fd ≡ some p
              → get_payload (cancel_matching epoll timer cbs s key).base fd ≡ some p)
    unfolding cancel_matching
    cancel_matching_lem s = (
      cancel_entries_none_left s.callbacks (s.world, s.base),
      λ fd cb h k. cancel_entries_stays s.callbacks (s.world, s.base) fd h k,
      λ fd cb h k p. cancel_entries_kills s.callbacks (s.world, s.base) fd h k p,
      λ fd p a h. cancel_entries_keeps s.callbacks (s.world, s.base) fd a h,
    )

    -- Every timer that matches the key stands under the descriptor `fd`.
    abbrev pub OnlyAt : ℤ → Map ℤ (TickCb F N) → Type 0
    OnlyAt fd = All (λ e. matches epoll timer cbs key e.1 ≡ true → e.0 ≡ fd)

    Cancelled-OnlyAt : (fd : ℤ) (m : Map ℤ (TickCb F N)) → All Cancelled m → OnlyAt fd m
    Cancelled-OnlyAt fd [] a = tt
    Cancelled-OnlyAt fd (e ∷ m) a = (λ h. cc, Cancelled-OnlyAt fd m a.1)

    abbrev settime : TickScheduler W F N → ℤ → W × ℤ
    settime s ms = let (w, fd) = timer.create s.world in timer.settime w fd (spec_of ms key.oneshot)

    schedule-OnlyAt :
        (s : TickScheduler W F N) (ms : ℤ)
        → All Cancelled s.callbacks
        → (fd : ℤ) × OnlyAt fd (schedule epoll timer cbs s ms key).0.callbacks
    unfolding schedule
    schedule-OnlyAt s ms a = elim (Bool-cases (is_negative (timer.create s.world).1)) [
      | inl e ↦ (pos 0, rw e (Cancelled-OnlyAt _ _ a))
      | inr e ↦ elim (Bool-cases (is_negative (settime s ms).1)) [
        | inl f ↦ (pos 0, rw (e, f) (Cancelled-OnlyAt _ _ a))
        | inr f ↦ (
          (timer.create s.world).1,
          rw (e, f) (All-insert _ _ key s.callbacks (λ h. refl) (Cancelled-OnlyAt _ _ a)),
        )
      ]
    ]

    tick_key-OnlyAt :
        (s : TickScheduler W F N) (ms : ℤ)
        → (fd : ℤ) × OnlyAt fd (tick_key epoll timer cbs s ms key).callbacks
    unfolding tick_key
    tick_key-OnlyAt s ms = elim (Bool-cases (is_zero ms)) [
      | inl e ↦ (pos 0, rw e (Cancelled-OnlyAt _ _ (cancel_matching_lem s).0))
      | inr e ↦ rw e (schedule-OnlyAt _ ms (cancel_matching_lem s).0)
    ]

  -- `tick(ms, callback)` leaves at most one timer for its callback: some descriptor is the one
  -- under which every timer of the table that matches the callback stands. This holds for any
  -- state, any `ms` and any callback but nil, whether or not the kernel grants the timer.
  pub core_tick-OnlyAt :
      (s : TickScheduler W F N) (ms : ℤ) (arg : LuaArg F)
      → arg ≢ nil
      → (fd : ℤ) × OnlyAt
          (key_of epoll timer cbs arg)
          fd
          (core_tick epoll timer cbs s ms arg).callbacks
  unfolding core_tick
  core_tick-OnlyAt s ms nil h = absurd (h refl)
  core_tick-OnlyAt s ms (str n) h = tick_key-OnlyAt _ s ms
  core_tick-OnlyAt s ms (func f) h = tick_key-OnlyAt _ s ms
  core_tick-OnlyAt s ms other h = tick_key-OnlyAt _ s ms

  unregister_all-IsDead :
      (m : Map ℤ (TickCb F N)) (s : W × DispatcherBase) (fd : ℤ)
      → IsDead s.1 fd
      → IsDead (unregister_all epoll timer cbs s m).1 fd
  unfolding unregister_all
  unregister_all-IsDead [] s fd d = d
  unregister_all-IsDead ((j, cb) ∷ m) s fd d =
      unregister_all-IsDead m _ fd (unregister_fd-IsDead epoll s.0 s.1 j fd d)

  unregister_all_kills :
      (m : Map ℤ (TickCb F N)) (s : W × DispatcherBase) (fd : ℤ) {cb : TickCb F N}
      → find fd m ≡ some cb
      → HasPayload s.1 fd
      → IsDead (unregister_all epoll timer cbs s m).1 fd
  unfolding unregister_all find
  unregister_all_kills [] s fd h p = cc
  unregister_all_kills ((j, c) ∷ m) s fd h p = elim (find-cons fd j c m h) [
    | inl (e, f) ↦ rw e (unregister_all-IsDead m _ fd (unregister_fd_kills epoll s.0 s.1 fd p))
    | inr (e, f) ↦ unregister_all_kills m _ fd f (unregister_fd-HasPayload epoll s.0 s.1 j fd p)
  ]

  -- `tick(0, nil)` empties the table and kills the payload of every timer that was in it; with
  -- another time `tick(ms, nil)` changes nothing.
  pub core_tick-nil :
      (s : TickScheduler W F N) (ms : ℤ)
      → let t = core_tick epoll timer cbs s ms nil in
        (is_zero ms ≡ true
          → (t.callbacks ≡ [])
            × ((fd : ℤ) (cb : TickCb F N)
                → find fd s.callbacks ≡ some cb
                → HasPayload s.base fd
                → IsDead t.base fd))
        × (is_zero ms ≡ false → t ≡ s)
  unfolding core_tick cancel_all
  core_tick-nil s ms = (
    λ z. rw z (refl, λ fd cb h p. unregister_all_kills s.callbacks (s.world, s.base) fd h p),
    λ z. rw z,
  )
