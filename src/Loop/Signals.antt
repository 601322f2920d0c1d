-- ===== src/Loop/Signals.antt =====
-- The descriptor of epoll and the signals: `AelkeyState::on_init` of source/aelkey_state.cc, and
-- `handle_signal` and the frame of `loop_start` in source/aelkey_loop.cc.
use aelkey.Base.{
  ℕ, ℤ, pos, Bool, true, false, List, is_negative, is_zero, minus_one, if◌then◌else◌, ◌≡◌, arith,
}
use aelkey.Device.App.{App}
use aelkey.Device.Manager.{Backends}
use aelkey.Loop.Defs.{loop_start}

-- `set_handlers` installs `handle_signal` for three signals, `default_handlers` takes it away.
pub record Kernel (W : Type 0) : Type 0 where
  pub epoll_create : W → W × ℤ
  pub close : W → ℤ → W
  pub set_handlers : W → W
  pub default_handlers : W → W
  pub raise : W → ℤ → W

pub record Process (W : Type 0) : Type 0 where
  pub world : W
  pub epfd : ℤ
  pub sigint : ℤ

module _ {W : Type 0} (kernel : Kernel W) where
  unfoldable pub on_init : Process W → Process W × Bool
  on_init p =
      let (w, fd) = kernel.epoll_create p.world in
      if is_negative p.epfd
      then (if is_negative fd
          then (record p { world = w; epfd = fd }, false)
          else (record p { world = w; epfd = fd }, true))
      else (p, true)

  unfoldable pub handle_signal : {D : Type 0} → ℤ → App D → Process W → App D × Process W
  handle_signal sig app p = (record app { loop_should_stop = true }, record p { sigint = sig })

  -- The end of `loop_start`.
  unfoldable pub teardown : Process W → Process W
  teardown p =
      let p1 =
        if is_negative p.epfd
        then p
        else record p { world = kernel.close p.world p.epfd; epfd = minus_one } in
      if is_zero p1.sigint
      then p1
      else record p1 { world = kernel.raise (kernel.default_handlers p1.world) p1.sigint }

  -- `signals` is what the signals of the run leave in the process; that they stop the loop is among
  -- the effects of `handle`.
  unfoldable pub run_process :
      {D P : Type 0}
      → Backends D
      → (App D → P → Bool)
      → (P → App D → App D)
      → (App D → App D)
      → (ℕ → App D → App D)
      → (Process W → Process W)
      → List (List P)
      → App D
      → Process W
      → App D × Process W × Bool
  unfolding loop_start teardown
  run_process backends is_dead handle open_all destroy signals batches app p =
      let p1 = signals (record p { world = kernel.set_handlers p.world }) in
      let (app1, ended) = loop_start backends is_dead handle open_all destroy batches app in
      if ended then (app1, teardown p1, true) else (app1, p1, false)

  -- After the end the descriptor is closed, and a second end would not close it again.
  pub teardown_once :
      (p : Process W)
      → (is_negative (teardown p).epfd ≡ true)
        × ((teardown (record (teardown p) { sigint = pos 0 })).world ≡ (teardown p).world)
  unfolding teardown
  teardown_once p = ground arith
