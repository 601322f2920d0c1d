-- ===== src/Device/Udev.antt =====
-- `DispatcherUdev::on_init` of source/dispatcher_udev.cc, and its destructor. Pointers are numbers.
use aelkey.Base.{
  ℕ, ℤ, String, Bool, true, false, Option, none, some, is_negative, minus_one, if◌then◌else◌, ◌≡◌,
  arith, is_some,
}
use aelkey.Dispatcher.{Epoll, DispatcherBase, register_fd}

pub record UdevState (W : Type 0) : Type 0 where
  pub world : W
  pub base : DispatcherBase
  pub ctx : Option ℕ
  pub mon : Option ℕ
  pub mon_fd : ℤ

-- libudev.
pub record Libudev (W : Type 0) : Type 0 where
  pub new_ctx : W → W × Option ℕ
  pub new_monitor : W → ℕ → W × Option ℕ
  pub add_filter : W → ℕ → String → W
  pub enable_receiving : W → ℕ → W
  pub get_fd : W → ℕ → W × ℤ
  pub unref_monitor : W → ℕ → W
  pub unref_ctx : W → ℕ → W

module _ {W : Type 0} (epoll : Epoll W) (udev : Libudev W) where
  -- Past the creation of the monitor.
  unfoldable pub start_monitor : UdevState W → ℕ → UdevState W × Bool
  start_monitor d m =
      let w1 = udev.add_filter d.world m "input" in
      let w2 = udev.add_filter w1 m "hidraw" in
      let w3 = udev.enable_receiving (udev.add_filter w2 m "usb") m in
      let (w4, fd) = udev.get_fd w3 m in
      let (w5, b) = register_fd epoll w4 d.base fd 1 in
      if is_negative fd
      then (
        record d { world = udev.unref_monitor w4 m; ctx = none; mon = some m; mon_fd = fd },
        false,
      )
      else (record d { world = w5; base = b; mon = some m; mon_fd = fd }, true)

  unfoldable pub on_init : UdevState W → UdevState W × Bool
  unfolding start_monitor
  on_init d = elim d.ctx [
    | some c ↦ (d, true)
    | none ↦
        let (w, ctx) = udev.new_ctx d.world in
        elim ctx [
          | none ↦ (record d { world = w }, false)
          | some c ↦
              let (w1, mon) = udev.new_monitor w c in
              elim mon [
                | none ↦ (record d { world = udev.unref_ctx w1 c; mon = none }, false)
                | some m ↦ start_monitor (record d { world = w1; ctx = some c }) m
              ]
        ]
  ]

  -- `~DispatcherUdev`
  unfoldable pub destroy : UdevState W → UdevState W
  destroy d =
      let w : W = elim d.mon [ none ↦ d.world | some m ↦ udev.unref_monitor d.world m ] in
      let w1 : W = elim d.ctx [ none ↦ w | some c ↦ udev.unref_ctx w c ] in
      record d { world = w1; ctx = none; mon = none; mon_fd = minus_one }

  -- The initialisation succeeds exactly when it leaves a context behind; a failed one can be tried
  -- again.
  pub on_init-ctx : (d : UdevState W) → is_some (on_init d).0.ctx ≡ (on_init d).1
  unfolding on_init
  on_init-ctx d = ground arith
