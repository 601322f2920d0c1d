-- ===== src/Loop/Defs.antt =====
-- The loop over the batches that epoll_wait returns, and the cleanup after it. A payload and its
-- events are a value of `P`; the dispatchers and the uinput calls are parameters. The signals and
-- the epoll descriptor itself are not modelled.
use aelkey.Base.{ℕ, String, Bool, true, false, List, [], ◌∷◌, Map, if◌then◌else◌}
use aelkey.Device.Decl.{InputDecl}
use aelkey.Device.App.{App}
use aelkey.Device.Manager.{Backends, detach}

module _ {D P : Type 0} (is_dead : App D → P → Bool) (handle : P → App D → App D) where
  -- One batch. The flag to stop is not looked at within it.
  unfoldable pub run_batch : List P → App D → App D
  run_batch [] app = app
  run_batch (p ∷ ps) app = run_batch ps (if is_dead app p then app else handle p app)

  -- The state, and whether the loop has ended; otherwise it waits for the next batch.
  unfoldable pub run_loop : List (List P) → App D → App D × Bool
  unfolding run_batch
  run_loop [] app = (app, app.loop_should_stop)
  run_loop (batch ∷ batches) app =
      let rest = run_loop batches (run_batch batch app) in
      if app.loop_should_stop then (app, true) else rest

unfoldable pub loop_stop : {D : Type 0} → App D → App D
loop_stop app = record app { loop_should_stop = true }

unfoldable pub ids_of : Map String InputDecl → List String
ids_of [] = []
ids_of ((id, decl) ∷ m) = id ∷ ids_of m

module _ {D : Type 0} (backends : Backends D) where
  unfoldable pub detach_all : List String → App D → App D
  detach_all [] app = app
  detach_all (id ∷ ids) app = detach_all ids (detach backends app id).0

  -- `libevdev_uinput_destroy` for each output device.
  unfoldable pub destroy_all : (ℕ → App D → App D) → Map String ℕ → App D → App D
  destroy_all destroy [] app = app
  destroy_all destroy ((id, u) ∷ m) app = destroy_all destroy m (destroy u app)

  unfoldable pub cleanup : (ℕ → App D → App D) → App D → App D
  unfolding detach_all destroy_all ids_of
  cleanup destroy app =
      let app1 = detach_all (ids_of app.input_map) app in
      let app2 = destroy_all destroy app1.uinput_devices app1 in record app2 { uinput_devices = [] }

  -- The whole of `loop_start`; `open_all` is `device_open` without a device.
  unfoldable pub loop_start :
      {P : Type 0}
      → (App D → P → Bool)
      → (P → App D → App D)
      → (App D → App D)
      → (ℕ → App D → App D)
      → List (List P)
      → App D
      → App D × Bool
  unfolding run_loop cleanup
  loop_start is_dead handle open_all destroy batches app =
      let (app1, ended) = run_loop is_dead handle batches (open_all app) in
      if ended then (cleanup destroy app1, true) else (app1, false)
