-- ===== src/Gatt/Notify.antt =====
-- Which characteristics attach starts the notifications of.
mod Tests
use aelkey.Base.{
  String, Bool, true, false, not, ◌&&◌, ◌||◌, List, [], ◌∷◌, Option, none, some, is_empty,
  if◌then◌else◌, string_key, ◌==◌, ◌≡◌, refl, arith, ap, ==_iff, find, find-insert, insert, ◌∙◌,
}
use aelkey.Dispatcher.{Epoll}
use aelkey.Device.Decl.{InputDecl}
use aelkey.Device.Helpers.{Match}
use aelkey.Device.App.{App}
use aelkey.Gatt.Bus.{Bus, GattState, GattObject}
use aelkey.Gatt.Paths.{characteristic_path, classify_gatt_path}
use aelkey.Gatt.Tree.{resolve_gatt_paths, has_string}
use aelkey.Gatt.Backend.{
  lazy_init, is_characteristic, inspect, characteristic_supports_notify, subscribe_all,
  subscribe_one, subscribe, on_init, gatt_attach, gatt_detach, match_rule,
}

abbrev pub has_notify : Option (List String) → Bool
has_notify none = false
has_notify (some ss) = has_string "notify" ss

-- What a declaration that attaches to `devnode` is to be told of.
abbrev pub wanted :
    (String → Option (String → Match))
    → Option (List GattObject)
    → (String → Option (List String))
    → InputDecl
    → String
    → String
    → Bool
wanted regex tree flags decl devnode p =
    if is_characteristic (classify_gatt_path devnode)
    then devnode == p
    else has_string p (resolve_gatt_paths regex decl true tree).1 && has_notify (flags p)

module _ {W : Type 0} (bus : Bus W) where
  -- What the bus does with subscriptions: the objects and the flags do not change, StartNotify
  -- subscribes to its path alone, StopNotify takes that back, and the other calls change nothing.
  pub record Subscribes (tree : Option (List GattObject)) (flags : String → Option (List String))
      (notifying : W → String → Bool) : Type 0 where
    pub same_tree : (w : W) → (bus.objects w).1 ≡ tree
    pub same_flags : (w : W) (path : String) → (bus.flags w path).1 ≡ flags path
    pub by_objects : (w : W) (p : String) → notifying (bus.objects w).0 p ≡ notifying w p
    pub by_flags : (w : W) (path p : String) → notifying (bus.flags w path).0 p ≡ notifying w p
    pub by_match : (w : W) (rule p : String) → notifying (bus.add_match w rule) p ≡ notifying w p
    pub by_flush : (w : W) (p : String) → notifying (bus.flush w) p ≡ notifying w p
    pub by_start :
        (w : W) (path p : String)
        → notifying (bus.start_notify w path) p ≡ (path == p || notifying w p)
    pub by_stop :
        (w : W) (path p : String)
        → notifying (bus.stop_notify w path) p ≡ (not (path == p) && notifying w p)

module _ {W : Type 0} (epoll : Epoll W) (bus : Bus W) (tree : Option (List GattObject))
    (flags : String → Option (List String)) (notifying : W → String → Bool)
    (laws : Subscribes bus tree flags notifying) where
  inspect-notifying :
      (w : W) (path p : String) → notifying (inspect epoll bus w path).0 p ≡ notifying w p
  unfolding inspect
  inspect-notifying w path p = laws.by_objects (bus.objects w).0 p ∙ laws.by_objects w p

  supports-flags :
      (w : W) (path : String)
      → (characteristic_supports_notify epoll bus w path).1 ≡ has_notify (flags path)
  unfolding characteristic_supports_notify
  supports-flags w path = rw (laws.same_flags w path) refl

  supports-notifying :
      (w : W) (path p : String)
      → notifying (characteristic_supports_notify epoll bus w path).0 p ≡ notifying w p
  unfolding characteristic_supports_notify
  supports-notifying w path p = laws.by_flags w path p

  subscribe_all-notifying :
      (chs : List String) (w : W) (p : String)
      → notifying (subscribe_all epoll bus w chs) p
        ≡ ((has_string p chs && has_notify (flags p)) || notifying w p)
  unfolding subscribe_all has_string
  subscribe_all-notifying [] w p = refl
  subscribe_all-notifying (ch ∷ chs) w p =
      let (w1, line) = inspect epoll bus w ch in
      let (w2, supports) = characteristic_supports_notify epoll bus w1 ch in
      let seen = inspect-notifying w ch p in
      let asked = supports-notifying w1 ch p in
      let rule = laws.by_match w2 (match_rule epoll bus ch) p in
      let start = laws.by_start (bus.add_match w2 (match_rule epoll bus ch)) ch p in
      let can = supports-flags w1 ch in
      let same : (ch == p) ≡ true → has_notify (flags ch) ≡ has_notify (flags p) =
        λ e. ap (λ (c : String). has_notify (flags c)) ((==_iff ch p).0 e) in
      subscribe_all-notifying chs
        (if supports then bus.start_notify (bus.add_match w2 (match_rule epoll bus ch)) ch else w2)
        p
      ∙ ground arith

  subscribe_one-notifying :
      (w : W) (ch p : String)
      → notifying (subscribe_one epoll bus w ch) p ≡ (ch == p || notifying w p)
  unfolding subscribe_one
  subscribe_one-notifying w ch p =
      let (w1, line) = inspect epoll bus w ch in
      let w2 = bus.add_match w1 (match_rule epoll bus ch) in
      let seen = inspect-notifying w ch p in
      let rule = laws.by_match w1 (match_rule epoll bus ch) p in
      let flushed = laws.by_flush w2 p in
      let start = laws.by_start (bus.flush w2) ch p in ground arith

  subscribe-notifying :
      (regex : String → Option (String → Match)) (w : W) (decl : InputDecl) (devnode p : String)
      → notifying (subscribe epoll bus regex w decl devnode) p
        ≡ (wanted regex tree flags decl devnode p || notifying w p)
  unfolding subscribe
  subscribe-notifying regex w decl devnode p =
      let w1 = (bus.objects w).0 in
      let found = (resolve_gatt_paths regex decl true tree).1 in
      let one = subscribe_one-notifying w devnode p in
      let all = subscribe_all-notifying found w1 p in
      let flushed = laws.by_flush (subscribe_all epoll bus w1 found) p in
      let seen = laws.by_objects w p in rw (laws.same_tree w) (ground arith)

  -- Attach starts the notifications of the characteristic that a declaration attaches to, or, where
  -- it attaches to another object, of exactly the characteristics that the declaration resolves to
  -- and that have the flag notify; a declaration that does not attach starts none; where calls of
  -- the bus change neither its objects nor their flags, and only StartNotify and StopNotify change
  -- what is subscribed to.
  pub gatt_attach-notifying :
      (regex : String → Option (String → Match)) (app : App (GattState W)) (devnode : String)
      (decl : InputDecl) (p : String)
      → let (app1, decl1, ok) = gatt_attach epoll bus regex app devnode decl in
        notifying app1.devices.world p ≡ (
          (ok && wanted regex tree flags decl devnode p)
          || notifying (lazy_init epoll bus app.devices).world p)
  unfolding gatt_attach
  gatt_attach-notifying regex app devnode decl p =
      let d = lazy_init epoll bus app.devices in
      let told = subscribe-notifying regex d.world decl devnode p in ground arith

  lazy_init-connected :
      (d : GattState W)
      → d.conn ≡ true
      → ((lazy_init epoll bus d).world ≡ d.world) × ((lazy_init epoll bus d).conn ≡ true)
  unfolding lazy_init on_init
  lazy_init-connected d c = ground arith

  gatt_detach-notifying :
      (app : App (GattState W)) (id p : String) (decl : InputDecl)
      → app.devices.conn ≡ true
      → find id app.input_map ≡ some decl
      → is_empty decl.devnode ≡ false
      → notifying (gatt_detach epoll bus app id).0.devices.world p
        ≡ (not (decl.devnode == p) && notifying app.devices.world p)
  unfolding gatt_detach
  gatt_detach-notifying app id p decl c f e =
      let (w, c1) = lazy_init-connected app.devices c in
      let stop = laws.by_stop app.devices.world decl.devnode p in ground arith

  gatt_attach-connected :
      (regex : String → Option (String → Match)) (app : App (GattState W)) (devnode : String)
      (decl : InputDecl)
      → let (app1, decl1, ok) = gatt_attach epoll bus regex app devnode decl in
        ok ≡ true
        → (app1.devices.conn ≡ true) × (is_empty devnode ≡ false) × (decl1.devnode ≡ devnode)
  unfolding gatt_attach
  gatt_attach-connected regex app devnode decl h = ground arith

  -- Where a declaration attaches and is detached again, the notifications that are on then are those
  -- that were on when the backend was connected and those that attach started, all but those of the
  -- path that the declaration was attached to; where calls of the bus change neither its objects nor
  -- their flags, and only StartNotify and StopNotify change what is subscribed to.
  pub gatt_detach-gatt_attach :
      (regex : String → Option (String → Match)) (app : App (GattState W)) (devnode : String)
      (decl : InputDecl) (p : String)
      → let (app1, decl1, ok) = gatt_attach epoll bus regex app devnode decl in
        let app2 = record app1 { input_map = insert decl.id decl1 app1.input_map } in
        ok ≡ true
        → notifying (gatt_detach epoll bus app2 decl.id).0.devices.world p ≡ (
            not (devnode == p)
            && (wanted regex tree flags decl devnode p
                || notifying (lazy_init epoll bus app.devices).world p))
  gatt_detach-gatt_attach regex app devnode decl p h =
      let (app1, decl1, ok) = gatt_attach epoll bus regex app devnode decl in
      let app2 = record app1 { input_map = insert decl.id decl1 app1.input_map } in
      let (c, e, n) = gatt_attach-connected regex app devnode decl h in
      let before = gatt_attach-notifying regex app devnode decl p in
      let there : find decl.id app2.input_map ≡ some decl1 =
        find-insert decl.id decl.id decl1 app1.input_map ∙ ground (arith, ==_iff decl.id decl.id) in
      let full : is_empty decl1.devnode ≡ false = ap is_empty n ∙ e in
      let after = gatt_detach-notifying app2 decl.id p decl1 c there full in
      let same : (decl1.devnode == p) ≡ (devnode == p) = ap (λ (s : String). s == p) n in
      ground arith
