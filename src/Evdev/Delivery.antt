-- ===== src/Evdev/Delivery.antt =====
-- Which frames a script is given.
use aelkey.Base.{
  String, true, false, List, [], ◌∷◌, ◌++◌, some, find, find-insert, ==_refl, if◌then◌else◌,
  string_key, is_empty, ◌≡◌, refl, ◌∙◌, ap, Bool-cases, inl, inr,
}
use aelkey.Lua.{Table}
use aelkey.Device.Decl.{InputDecl}
use aelkey.Device.App.{App, AppLua, InputEvent}
use aelkey.Evdev.Frames.{Names, is_report, frame_table, deliver, set_frame, take_event, take_events}

-- The stream of events, cut after each report: what is complete, in order, and what is left over.
-- `frame` is what was collected before.
unfoldable pub complete : List InputEvent → List InputEvent → List (List InputEvent)
complete frame [] = []
complete frame (ev ∷ evs) =
    let longer = frame ++ ev ∷ [] in
    let rest = complete (if is_report ev then [] else longer) evs in
    if is_report ev then longer ∷ rest else rest

unfoldable pub left_over : List InputEvent → List InputEvent → List InputEvent
left_over frame [] = frame
left_over frame (ev ∷ evs) = left_over (if is_report ev then [] else frame ++ ev ∷ []) evs

module _ {D : Type 0} (lua : AppLua D) (names : Names) (script : String → Table → D → D)
    (calls : (name : String) (t : Table) (app : App D)
      → lua.call name t app ≡ record app { devices = script name t app.devices }) where
  -- The script is called with one frame after another.
  pub run_script : InputDecl → List (List InputEvent) → D → D
  run_script decl [] d = d
  run_script decl (frame ∷ frames) d =
      run_script decl frames (script decl.on_event (frame_table names decl frame) d)

  module _ (decl : InputDecl) (named : is_empty decl.on_event ≡ false)
      (defined : (app : App D) → lua.is_function app decl.on_event ≡ true) where
    deliver_lem :
        (frame : List InputEvent) (app : App D)
        → deliver lua names decl frame app
          ≡ record app { devices = script decl.on_event (frame_table names decl frame) app.devices }
    unfolding deliver
    deliver_lem frame app =
        rw (named, defined app, deliver) (calls decl.on_event (frame_table names decl frame) app)

    take_event_lem :
        (ev : InputEvent) (frame : List InputEvent) (app : App D)
        → find decl.id app.frames ≡ some frame
        → let app1 = take_event lua names decl ev app in
          let longer = frame ++ ev ∷ [] in
          (find decl.id app1.frames ≡ some (if is_report ev then [] else longer))
          × (app1.devices ≡ (
              if is_report ev
              then script decl.on_event (frame_table names decl longer) app.devices
              else app.devices))
    unfolding take_event deliver
    take_event_lem ev frame app h =
        let longer = frame ++ ev ∷ [] in
        let app1 = set_frame lua names decl.id longer app in
        let app2 = deliver lua names decl longer app1 in
        elim (Bool-cases (is_report ev)) [
          | inl e ↦
              rw (h, e, take_event)
                (
                  rw (find-insert decl.id decl.id [] app2.frames, ==_refl decl.id) refl,
                  ap (λ (a : App D). a.devices) (deliver_lem longer app1),
                )
          | inr e ↦
              rw (h, e, take_event)
                (rw (find-insert decl.id decl.id longer app.frames, ==_refl decl.id) refl, refl)
        ]

    -- For a device with a callback that is a function, and a script that touches nothing of the
    -- shared state: reading any events calls the script once for each frame that a report
    -- completes, in order, with the events since the report before; the events after the last
    -- report stay in the device's frame.
    pub take_events-complete :
        (evs frame : List InputEvent) (app : App D)
        → find decl.id app.frames ≡ some frame
        → let app1 = take_events lua names decl evs app in
          (find decl.id app1.frames ≡ some (left_over frame evs))
          × (app1.devices ≡ run_script decl (complete frame evs) app.devices)
    unfolding take_events complete left_over run_script
    take_events-complete [] frame app h = (h, refl)
    take_events-complete (ev ∷ evs) frame app h =
        let app1 = take_event lua names decl ev app in
        let longer = frame ++ ev ∷ [] in
        let next = if is_report ev then [] else longer in
        let one = take_event_lem ev frame app h in
        let rest = take_events-complete evs next app1 one.0 in
        (
          rest.0,
          rest.1
              ∙ rw one.1
                  (elim (Bool-cases (is_report ev)) [ inl e ↦ rw e refl | inr e ↦ rw e refl ]),
        )
