-- ===== src/Evdev/Close.antt =====
-- What is left of a device once it is closed.
use aelkey.Base.{
  ℤ, false, none, find, find-erase, int_key, ◌==◌, is_negative, minus_one, if◌then◌else◌, ◌≡◌, refl,
  Option-cases, inl, inr,
}
use aelkey.Dispatcher.{Epoll}
use aelkey.Dispatcher.Payloads.{HasPayload, IsDead, unregister_fd_kills}
use aelkey.Device.Decl.{InputDecl}
use aelkey.Evdev.Defs.{DispatcherEvdev, Libevdev, forget_fd, free_idev, close_device}

module _ {W : Type 0} (epoll : Epoll W) (lib : Libevdev W) where
  free_idev_lem :
      (d : DispatcherEvdev W) (fd j : ℤ)
      → let d1 = free_idev epoll lib d fd in
        (find j d1.idev_map ≡ (if fd == j then none else find j d.idev_map))
        × (d1.devices ≡ d.devices)
        × (d1.grab_needed ≡ d.grab_needed)
        × (d1.base ≡ d.base)
  unfolding free_idev
  free_idev_lem d fd j = elim (Option-cases (find fd d.idev_map)) [
    | inl e ↦ rw (e, free_idev) (find-erase fd j d.idev_map, refl, refl, refl)
    | inr (i, e) ↦ rw (e, free_idev) (find-erase fd j d.idev_map, refl, refl, refl)
  ]

  -- Closing a device with an open descriptor takes the descriptor out of the tables of devices, of
  -- libevdev handles and of pending grabs, changes no entry of another descriptor, kills the
  -- descriptor's payload if it has one, and returns the declaration with its descriptor cleared.
  pub close_device_lem :
      (d : DispatcherEvdev W) (decl : InputDecl) (j : ℤ)
      → is_negative decl.fd ≡ false
      → let (d1, decl1) = close_device epoll lib d decl in
        (find j d1.devices ≡ (if decl.fd == j then none else find j d.devices))
        × (find j d1.idev_map ≡ (if decl.fd == j then none else find j d.idev_map))
        × (find j d1.grab_needed ≡ (if decl.fd == j then none else find j d.grab_needed))
        × (HasPayload d.base decl.fd → IsDead d1.base decl.fd)
        × (decl1 ≡ record decl { fd = minus_one })
  unfolding close_device forget_fd
  close_device_lem d decl j o =
      let d1 = forget_fd epoll lib d decl.fd in
      let freed = free_idev_lem d1 decl.fd j in
      rw (o, close_device)
        (
          rw freed.1 (find-erase decl.fd j d.devices),
          freed.0,
          rw freed.2 (find-erase decl.fd j d.grab_needed),
          λ h. rw freed.3 (unregister_fd_kills epoll d.world d.base decl.fd h),
          refl,
        )
