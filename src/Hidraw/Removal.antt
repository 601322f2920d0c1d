-- ===== src/Hidraw/Removal.antt =====
-- What `remove_device` of the hidraw dispatcher undoes.
use aelkey.Base.{
  ℤ, String, false, [], ◌∷◌, none, some, Map, find, insert, erase, is_negative, find-insert,
  find-erase, ==_iff, int_key, string_key, ◌≡◌, refl, arith,
}
use aelkey.Dispatcher.{Epoll}
use aelkey.Dispatcher.Payloads.{HasPayload, IsDead, unregister_fd_kills}
use aelkey.Device.Decl.{InputDecl}
use aelkey.Hidraw.Defs.{HidrawState, Files, fd_of, add_device, open_device, remove_device}

fd_of-insert :
    (id : String) (fd : ℤ) (decl : InputDecl) (m : Map ℤ InputDecl)
    → fd_of id m ≡ none
    → decl.id ≡ id
    → fd_of id (insert fd decl m) ≡ some fd
unfolding fd_of insert
fd_of-insert id fd decl [] h e = ground (arith, ==_iff decl.id id)
fd_of-insert id fd decl ((j, d) ∷ m) h e =
    ground (arith, ==_iff decl.id id, ==_iff d.id id, fd_of-insert id fd decl m)

module _ {W : Type 0} (epoll : Epoll W) (files : Files W) where
  remove_device-add_device :
      (d : HidrawState W) (decl : InputDecl) (fd k : ℤ)
      → fd_of decl.id d.devices ≡ none
      → find fd d.devices ≡ none
      → let d1 = add_device epoll files d fd decl in
        let d2 = remove_device epoll files d1 decl.id in
        (find fd d1.devices ≡ some decl)
        × (find k d2.devices ≡ find k d.devices)
        × (HasPayload d1.base fd → IsDead d2.base fd)
  unfolding add_device remove_device
  remove_device-add_device d decl fd k f g =
      let d1 = add_device epoll files d fd decl in
      let first : fd_of decl.id (insert fd decl d.devices) ≡ some fd =
        fd_of-insert decl.id fd decl d.devices f refl in
      let gone : find k (erase fd (insert fd decl d.devices)) ≡ find k d.devices = ground (
        arith,
        find-erase fd k (insert fd decl d.devices),
        find-insert fd k decl d.devices,
        ==_iff fd k,
      ) in
      let there : find fd (insert fd decl d.devices) ≡ some decl =
        ground (arith, find-insert fd fd decl d.devices, ==_iff fd fd) in
      rw (first, remove_device) (there, gone, λ h. unregister_fd_kills epoll d1.world d1.base fd h)

  -- Removing a device that was just opened, under an identifier and a descriptor that were not in
  -- use, takes its descriptor out again and leaves every other device as it was; if the kernel took
  -- the descriptor, its payload is dead then.
  pub remove_device-open_device :
      (d : HidrawState W) (node : String) (decl : InputDecl) (fd k : ℤ)
      → (files.open_node d.world node).1 ≡ fd
      → is_negative fd ≡ false
      → fd_of decl.id d.devices ≡ none
      → find fd d.devices ≡ none
      → let (d1, opened) = open_device epoll files d node decl in
        let d2 = remove_device epoll files d1 decl.id in
        (opened ≡ fd)
        × (find fd d1.devices ≡ some decl)
        × (find k d2.devices ≡ find k d.devices)
        × (HasPayload d1.base fd → IsDead d2.base fd)
  unfolding open_device
  remove_device-open_device d node decl fd k o n f g =
      let d0 = record d { world = (files.open_node d.world node).0 } in
      let opens : open_device epoll files d node decl ≡ (add_device epoll files d0 fd decl, fd) =
        rw (o, n, open_device) refl in
      let (there, gone, dead) = remove_device-add_device d0 decl fd k f g in
      rw opens (refl, there, gone, dead)
