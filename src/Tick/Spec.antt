-- ===== src/Tick/Spec.antt =====
-- The time that a timer is set to.
use aelkey.Base.{ℕ, pos, ◌*◌, ◌/◌, ◌%◌, ◌+◌, ◌<◌, ◌≡◌, Bool, if◌then◌else◌, arith}
use aelkey.Tick.Defs.{spec_of}

-- For a delay of `ms` milliseconds, at least 0, the kernel is given whole seconds and nanoseconds
-- that make up exactly that time, with the nanoseconds below a second, as the kernel requires; the
-- interval is the same time for a repeating timer and 0 for a one-shot timer.
pub spec_of_exact :
    (ms : ℕ) (oneshot : Bool)
    → (sec : ℕ) × (nsec : ℕ) × ((spec_of (pos ms) oneshot).value_sec ≡ pos sec)
      × ((spec_of (pos ms) oneshot).value_nsec ≡ pos nsec)
      × (sec * 1000000000 + nsec ≡ ms * 1000000)
      × (nsec < 1000000000)
      × ((spec_of (pos ms) oneshot).interval_sec ≡ (if oneshot then pos 0 else pos sec))
      × ((spec_of (pos ms) oneshot).interval_nsec ≡ (if oneshot then pos 0 else pos nsec))
unfolding spec_of
spec_of_exact ms oneshot = (
  ms / 1000,
  ms % 1000 * 1000000,
  ground arith,
  ground arith,
  omega arith,
  omega arith,
  ground arith,
  ground arith,
)
