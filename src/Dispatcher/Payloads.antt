-- ===== src/Dispatcher/Payloads.antt =====
-- What the operations do to the payload of a descriptor.
use aelkey.Base.{
  Bool, not, ◌&&◌, ◌||◌, ℕ, ℤ, true, false, List, [], ◌∷◌, none, some, find, insert, is_negative,
  if◌then◌else◌, ◌≡◌, ◌==◌, ==_iff, Option-cases, inl, inr, find-insert, find-erase, arith, int_key,
}
use aelkey.Dispatcher.Defs.{
  Epoll, EpollPayload, DispatcherBase, get_payload, register_fd, unregister_fd, flush_deferred, Op,
  register, unregister, flush, step, run,
}

abbrev pub IsDead : DispatcherBase → ℤ → Type 0
IsDead b fd = elim (get_payload b fd) [ none ↦ false | some p ↦ p.dead ] ≡ true

abbrev pub HasPayload : DispatcherBase → ℤ → Type 0
HasPayload b fd = elim (get_payload b fd) [ none ↦ false | some p ↦ true ] ≡ true

module _ {W : Type 0} (epoll : Epoll W) where
  -- Registering a new descriptor gives it a live payload, exactly when the kernel accepts it, and
  -- touches no other payload.
  pub get_payload-register_fd :
      (w : W) (b : DispatcherBase) (fd j : ℤ) (events : ℕ)
      → get_payload b fd ≡ none
      → get_payload (register_fd epoll w b fd events).1 j ≡ (
          if fd == j
          then if is_negative (epoll.add w fd events).1
            then none
            else some (record { fd = fd; dead = false })
          else get_payload b j)
  unfolding get_payload register_fd
  get_payload-register_fd w b fd j events h = ground (
    arith,
    find-insert fd j (record { fd = fd; dead = false }) b.pollfds,
    find-erase fd j (insert fd (record { fd = fd; dead = false }) b.pollfds),
  )

  pub get_payload-unregister_fd :
      (w : W) (b : DispatcherBase) (fd j : ℤ) {p : EpollPayload}
      → get_payload b fd ≡ some p
      → get_payload (unregister_fd epoll w b fd).1 j
        ≡ (if fd == j then some (record p { dead = true }) else get_payload b j)
  unfolding get_payload unregister_fd
  get_payload-unregister_fd w b fd j {p} h =
      ground (arith, find-insert fd j (record p { dead = true }) b.pollfds)

  pub get_payload-unregister_fd_ne :
      (w : W) (b : DispatcherBase) (fd j : ℤ)
      → (fd == j) ≡ false
      → get_payload (unregister_fd epoll w b fd).1 j ≡ get_payload b j
  unfolding get_payload unregister_fd
  get_payload-unregister_fd_ne w b fd j h = elim (Option-cases (find fd b.pollfds)) [
    | inl e ↦ ground arith
    | inr (p, e) ↦ ground (arith, find-insert fd j (record p { dead = true }) b.pollfds)
  ]

  -- A registration that the kernel accepts, or that is of another number, leaves a dead payload dead.
  register_fd-IsDead :
      (w : W) (b : DispatcherBase) (fd j : ℤ) (events : ℕ)
      → (not (fd == j) || not (is_negative (epoll.add w fd events).1)) ≡ true
      → IsDead b j
      → IsDead (register_fd epoll w b fd events).1 j
  unfolding get_payload register_fd
  register_fd-IsDead w b fd j events ok d = ground (
    arith,
    find-insert fd j (record { fd = fd; dead = false }) b.pollfds,
    find-erase fd j b.pollfds,
    find-erase fd j (insert fd (record { fd = fd; dead = false }) b.pollfds),
    ==_iff fd j,
  )

  pub unregister_fd-IsDead :
      (w : W) (b : DispatcherBase) (fd j : ℤ) → IsDead b j → IsDead (unregister_fd epoll w b fd).1 j
  unfolding get_payload unregister_fd
  unregister_fd-IsDead w b fd j d = elim (Option-cases (find fd b.pollfds)) [
    | inl e ↦ ground arith
    | inr (p, e) ↦ ground (arith, find-insert fd j (record p { dead = true }) b.pollfds)
  ]

  -- After `unregister_fd` the payload of a descriptor that had one is dead.
  pub unregister_fd_kills :
      (w : W) (b : DispatcherBase) (fd : ℤ)
      → HasPayload b fd
      → IsDead (unregister_fd epoll w b fd).1 fd
  unfolding get_payload unregister_fd
  unregister_fd_kills w b fd h = elim (Option-cases (find fd b.pollfds)) [
    | inl e ↦ ground arith
    | inr (p, e) ↦
        ground (arith, find-insert fd fd (record p { dead = true }) b.pollfds, ==_iff fd fd)
  ]

  pub unregister_fd-HasPayload :
      (w : W) (b : DispatcherBase) (fd j : ℤ)
      → HasPayload b j
      → HasPayload (unregister_fd epoll w b fd).1 j
  unfolding get_payload unregister_fd
  unregister_fd-HasPayload w b fd j h = elim (Option-cases (find fd b.pollfds)) [
    | inl e ↦ ground arith
    | inr (p, e) ↦ ground (arith, find-insert fd j (record p { dead = true }) b.pollfds)
  ]

  module _ (on_unregister : W → ℤ → W) where
    -- Where the operation registers `fd`, the kernel takes it.
    abbrev takes : W → ℤ → Op → Bool
    takes w fd (register j events) = not (j == fd) || not (is_negative (epoll.add w j events).1)
    takes w fd (unregister j) = true
    takes w fd flush = true

    -- No registration of `fd` among the operations fails when it is made.
    unfoldable pub accepted : W × DispatcherBase → ℤ → List Op → Bool
    accepted s fd [] = true
    accepted s fd (o ∷ os) =
        let rest = accepted (step epoll on_unregister s o) fd os in takes s.0 fd o && rest

    step-IsDead :
        (w : W) (b : DispatcherBase) (o : Op) (fd : ℤ)
        → takes w fd o ≡ true
        → IsDead b fd
        → IsDead (step epoll on_unregister (w, b) o).1 fd
    unfolding step flush_deferred get_payload
    step-IsDead w b (register j events) fd t d = register_fd-IsDead w b j fd events t d
    step-IsDead w b (unregister j) fd t d = unregister_fd-IsDead w b j fd d
    step-IsDead w b flush fd t d = ground arith

    run-IsDead :
        (w : W) (b : DispatcherBase) (os : List Op) (fd : ℤ)
        → accepted (w, b) fd os ≡ true
        → IsDead b fd
        → IsDead (run epoll on_unregister (w, b) os).1 fd
    unfolding run accepted
    run-IsDead w b [] fd t d = d
    run-IsDead w b (o ∷ os) fd t d =
        let s = step epoll on_unregister (w, b) o in
        let now : takes w fd o ≡ true = ground arith in
        let later : accepted s fd os ≡ true = ground arith in
        run-IsDead s.0 s.1 os fd later (step-IsDead w b o fd now d)

    -- The payload of a descriptor that had one is dead after its unregistration, and stays dead
    -- through any registrations (of the same number too), unregistrations and flushes that follow,
    -- as long as the kernel takes each registration of that number.
    pub IsDead-after_unregister :
        (w : W) (b : DispatcherBase) (fd : ℤ) (os : List Op)
        → HasPayload b fd
        → accepted (unregister_fd epoll w b fd) fd os ≡ true
        → IsDead (run epoll on_unregister (unregister_fd epoll w b fd) os).1 fd
    IsDead-after_unregister w b fd os h t =
        let s = unregister_fd epoll w b fd in
        run-IsDead s.0 s.1 os fd t (unregister_fd_kills w b fd h)
