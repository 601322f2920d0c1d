-- ===== src/Gatt/Pump.antt =====
-- `pump_messages` and `process_one_message`: the signals of the bus, handed to the scripts.
use aelkey.Base.{
  ℕ, zero, suc, pos, ◌≤◌, ◌<◌, ◌%◌, String, Bool, false, is_some, ◌&&◌, not, List, [], ◌∷◌, Option,
  none, some, Map, is_empty, size, eqb, if◌then◌else◌, string_key, ◌==◌, ◌<>◌, ◌≡◌, refl, sym, ap,
  ◌∙◌, arith, Option-cases, Bool-cases, inl, inr,
}
use aelkey.Lua.{Table, str, int, empty, field}
use aelkey.Dispatcher.{Epoll}
use aelkey.Device.Decl.{InputDecl}
use aelkey.Device.App.{App, AppLua}
use aelkey.Gatt.Bus.{Bus, GattState, Message, Change}
use aelkey.Gatt.Backend.{lazy_init}

-- The bytes of the entries with the key `Value`, one after the other.
unfoldable pub value_bytes : List Change → String
value_bytes [] = ""
value_bytes (c ∷ cs) =
    let rest = value_bytes cs in
    elim c.key [
      | none ↦ rest
      | some key ↦
          if key == "Value" then elim c.bytes [ none ↦ rest | some b ↦ b <> rest ] else rest
    ]

abbrev pub signal_event : InputDecl → String → String → Table
signal_event decl path bytes = field "device" (str decl.id) (
    field "path" (str path) (
      field "data" (str bytes)
        (field "size" (int (pos (size bytes))) (field "status" (str "ok") empty))))

module _ {W : Type 0} (lua : AppLua (GattState W)) where
  -- The loop over the devices, as they were when it began: it ends at the first GATT device that
  -- has no callback, or one that is a function.
  unfoldable pub notify_first :
      String → String → Map String InputDecl → App (GattState W) → App (GattState W)
  notify_first path bytes [] app = app
  notify_first path bytes ((id, decl) ∷ m) app =
      let rest = notify_first path bytes m app in
      if not (decl.type == "gatt")
      then rest
      else if is_empty decl.on_event
      then app
      else if lua.is_function app decl.on_event
      then lua.call decl.on_event (signal_event decl path bytes) app
      else rest

  unfoldable pub process_one_message : App (GattState W) → Message → App (GattState W)
  unfolding notify_first value_bytes
  process_one_message app msg = elim msg.path [
    | none ↦ app
    | some path ↦ elim msg.interface [
      | none ↦ app
      | some iface ↦
          if iface == "org.bluez.GattCharacteristic1"
          then notify_first path (value_bytes msg.changes) app.input_map app
          else app
    ]
  ]

  module _ (epoll : Epoll W) (bus : Bus W) where
    -- dbus_connection_pop_message
    unfoldable pub pop : App (GattState W) → App (GattState W) × Option Message
    pop app =
        let (w, msg) = bus.pop app.devices.world in
        (record app { devices = record app.devices { world = w } }, msg)

    -- The loop, on fuel; none where the fuel does not suffice.
    unfoldable pub process_all : ℕ → App (GattState W) → Option (App (GattState W))
    unfolding pop process_one_message
    process_all zero app = none
    process_all (suc fuel) app =
        let (app1, popped) = pop app in
        elim popped [
          | none ↦ some app1
          | some msg ↦ process_all fuel (process_one_message app1 msg)
        ]

    unfoldable pub pump_messages : ℕ → App (GattState W) → Option (App (GattState W))
    unfolding process_all lazy_init
    pump_messages fuel app =
        let d = lazy_init epoll bus app.devices in
        let app1 = record app { devices = d } in
        let app2 = record app { devices = record d { world = bus.read_write d.world } } in
        let looped = process_all fuel app2 in if not d.conn then some app1 else looped

    -- `DispatcherGATT::handle_event`, with `events & EPOLLIN`
    unfoldable pub handle_event : ℕ → App (GattState W) → ℕ → Option (App (GattState W))
    unfolding pump_messages
    handle_event fuel app events =
        let pumped = pump_messages fuel app in if eqb (events % 2) 1 then pumped else some app

    -- What ends the loop: `pending` counts the messages that wait. Taking one makes them fewer, none
    -- is taken only where none waits, and a script does not make them more.
    pub record Drains (pending : W → ℕ) : Type 0 where
      pub taken :
          (w : W) (msg : Message) → (bus.pop w).1 ≡ some msg → pending (bus.pop w).0 < pending w
      pub empty : (w : W) → (bus.pop w).1 ≡ none → pending (bus.pop w).0 ≡ 0
      pub quiet :
          (f : String) (t : Table) (app : App (GattState W))
          → pending (lua.call f t app).devices.world ≤ pending app.devices.world

    module _ (pending : W → ℕ) (drains : Drains pending) where
      quiet-notify_first :
          (path bytes : String) (m : Map String InputDecl) (app : App (GattState W))
          → pending (notify_first path bytes m app).devices.world ≤ pending app.devices.world
      unfolding notify_first
      quiet-notify_first path bytes [] app = omega arith
      quiet-notify_first path bytes ((id, decl) ∷ m) app = ground (
        arith,
        quiet-notify_first path bytes m app,
        drains.quiet decl.on_event (signal_event decl path bytes) app,
      )

      quiet-process_one_message :
          (app : App (GattState W)) (msg : Message)
          → pending (process_one_message app msg).devices.world ≤ pending app.devices.world
      unfolding process_one_message
      quiet-process_one_message app msg = elim (Option-cases msg.path) [
        | inl e ↦ rw (e, process_one_message) (omega arith)
        | inr (path, e) ↦
            let rest = quiet-notify_first path (value_bytes msg.changes) app.input_map app in
            ground (arith, rest)
      ]

      -- One turn of the loop.
      process_all-none :
          (fuel : ℕ) (app : App (GattState W))
          → (bus.pop app.devices.world).1 ≡ none
          → process_all (suc fuel) app ≡ some (pop app).0
      unfolding process_all pop
      process_all-none fuel app e = rw (e, process_all) refl

      process_all-some :
          (fuel : ℕ) (app : App (GattState W)) {msg : Message}
          → (bus.pop app.devices.world).1 ≡ some msg
          → process_all (suc fuel) app ≡ process_all fuel (process_one_message (pop app).0 msg)
      unfolding process_all pop
      process_all-some fuel app e = rw (e, process_all) refl

      process_all-ends :
          (fuel : ℕ) (app : App (GattState W))
          → pending app.devices.world < fuel
          → (app1 : App (GattState W)) × (process_all fuel app ≡ some app1)
            × (pending app1.devices.world ≡ 0)
      unfolding process_all pop
      process_all-ends zero app h = absurd (omega arith)
      process_all-ends (suc fuel) app h = elim (Option-cases (bus.pop app.devices.world).1) [
        | inl e ↦ rw (e, process_all) (_, refl, drains.empty app.devices.world e)
        | inr (msg, e) ↦
            let app1 = (pop app).0 in
            let fewer = drains.taken app.devices.world msg e in
            let less = quiet-process_one_message app1 msg in
            rw (e, process_all) (process_all-ends fuel (process_one_message app1 msg) (omega arith))
      ]

      process_all-more :
          (fuel more : ℕ) (app app1 : App (GattState W))
          → fuel ≤ more
          → process_all fuel app ≡ some app1
          → process_all more app ≡ some app1
      unfolding process_all pop
      process_all-more zero more app app1 l h = cc
      process_all-more (suc fuel) zero app app1 l h = absurd (omega arith)
      process_all-more (suc fuel) (suc more) app app1 l h =
          elim (Option-cases (bus.pop app.devices.world).1) [
            | inl e ↦ process_all-none more app e ∙ sym (process_all-none fuel app e) ∙ h
            | inr (msg, e) ↦
                process_all-some more app e
                ∙ process_all-more fuel more (process_one_message (pop app).0 msg) app1
                    (omega arith) (sym (process_all-some fuel app e) ∙ h)
          ]

      no_more : (w : W) → pending w ≡ 0 → (bus.pop w).1 ≡ none
      no_more w h = elim (Option-cases (bus.pop w).1) [
        | inl e ↦ e
        | inr (msg, e) ↦ let fewer = drains.taken w msg e in absurd (omega arith)
      ]

      -- How many turns the loop takes at most.
      abbrev pub turns : App (GattState W) → ℕ
      turns app = suc (pending (bus.read_write (lazy_init epoll bus app.devices).world))

      -- The pump ends: with as much fuel as messages wait, and one more, it returns, and more fuel
      -- changes nothing. If there is a connection, no message waits then. This needs that taking a
      -- message leaves fewer, and that the scripts do not add any.
      pub pump_messages-ends :
          (app : App (GattState W)) (fuel : ℕ)
          → turns app ≤ fuel
          → (app1 : App (GattState W)) × (pump_messages (turns app) app ≡ some app1)
            × (pump_messages fuel app ≡ some app1)
            × (((lazy_init epoll bus app.devices).conn && is_some (bus.pop app1.devices.world).1)
                ≡ false)
      unfolding pump_messages
      pump_messages-ends app fuel l =
          let d = lazy_init epoll bus app.devices in
          let app0 = record app { devices = record d { world = bus.read_write d.world } } in
          elim (Bool-cases d.conn) [
            | inl c ↦
                let (app1, e, z) = process_all-ends (turns app) app0 (omega arith) in
                let connected : (n : ℕ) → pump_messages n app ≡ process_all n app0 = λ n.
                  ap
                    (λ (b : Bool).
                      if not b then some (record app { devices = d }) else process_all n app0)
                    c in
                let drained : is_some (bus.pop app1.devices.world).1 ≡ false =
                  ap is_some (no_more app1.devices.world z) in
                (
                  app1,
                  connected (turns app) ∙ e,
                  connected fuel ∙ process_all-more (turns app) fuel app0 app1 l e,
                  ground arith,
                )
            | inr c ↦ (
              record app { devices = d },
              rw (c, pump_messages) refl,
              rw (c, pump_messages) refl,
              ground arith,
            )
          ]
