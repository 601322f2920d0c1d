-- ===== src/Dispatcher/Tests.antt =====
-- Runs of the dispatcher base. The state of the first kernel counts the calls.
use aelkey.Base.{
  List, Bool, ◌||◌, ◌==◌, if◌then◌else◌, minus_one, int_key, ℕ, ℤ, pos, suc, ◌+◌, true, false, [],
  ◌∷◌, none, some, find, ◌≡◌, refl,
}
use aelkey.Dispatcher.Defs.{
  Epoll, EpollPayload, DispatcherBase, empty_base, get_payload, unregister_fd, flush_deferred,
  notify_unregistered, register, flush, run, step, register_fd, Op,
}
use aelkey.Dispatcher.Payloads.{
  IsDead, HasPayload, get_payload-unregister_fd, IsDead-after_unregister, accepted,
}

abbrev kernel : Epoll ℕ
kernel = record { add = λ w fd events. (suc w, pos 0); del = λ w fd. suc w }

abbrev closed : ℕ → ℤ → ℕ
closed w (pos n) = w + n
closed w fd = w

abbrev live : ℤ → EpollPayload
live fd = record { fd = fd; dead = false }

abbrev one_fd : DispatcherBase
one_fd = record {
  pollfds = (pos 7, live (pos 7)) ∷ [];
  odd = false;
  deferred_even = [];
  deferred_odd = [];
}

abbrev two_queues : DispatcherBase
two_queues = record {
  pollfds = (pos 7, live (pos 7)) ∷ (pos 8, live (pos 8)) ∷ [];
  odd = true;
  deferred_even = pos 7 ∷ [];
  deferred_odd = pos 8 ∷ pos 9 ∷ [];
}

one_payload : get_payload one_fd (pos 7) ≡ some (live (pos 7))
unfolding get_payload find
one_payload = refl

no_payload : get_payload empty_base (pos 7) ≡ none
unfolding get_payload find
no_payload = refl

has_payload : HasPayload one_fd (pos 7)
unfolding get_payload find
has_payload = refl

get_payload-unregister_fd_example :
    get_payload (unregister_fd kernel 0 one_fd (pos 7)).1 (pos 7)
    ≡ some (record (live (pos 7)) { dead = true })
get_payload-unregister_fd_example =
    get_payload-unregister_fd kernel 0 one_fd (pos 7) (pos 7) one_payload

-- A kernel that keeps the numbers that are registered, and refuses one that is registered already.
abbrev has : ℤ → List ℤ → Bool
has fd [] = false
has fd (x ∷ xs) = x == fd || has fd xs

abbrev less : ℤ → List ℤ → List ℤ
less fd [] = []
less fd (x ∷ xs) = let rest = less fd xs in if x == fd then rest else x ∷ rest

abbrev strict : Epoll (List ℤ)
strict = record {
  add = λ w fd events. if has fd w then (w, minus_one) else (fd ∷ w, pos 0);
  del = λ w fd. less fd w;
}

abbrev ignored : List ℤ → ℤ → List ℤ
ignored w fd = w

-- The number 7 is registered again, and its payload is still dead.
abbrev history : List Op
history = flush ∷ register (pos 8) 1 ∷ register (pos 8) 1 ∷ register (pos 7) 1 ∷ []

taken :
    accepted strict ignored (unregister_fd strict (pos 7 ∷ []) one_fd (pos 7)) (pos 7) history
    ≡ true
unfolding accepted step register_fd unregister_fd flush_deferred find notify_unregistered
taken = refl

IsDead-after_unregister_example :
    IsDead (run strict ignored (unregister_fd strict (pos 7 ∷ []) one_fd (pos 7)) history).1 (pos 7)
IsDead-after_unregister_example =
    IsDead-after_unregister strict ignored (pos 7 ∷ []) one_fd (pos 7) history has_payload taken
