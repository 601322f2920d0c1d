-- ===== src/Evdev/Tests.antt =====
-- Runs of the evdev dispatcher. The world is the number of calls; scripts only count what they get.
use aelkey.Device.Enumerate.{IsFirstFit}
use aelkey.Evdev.Match.{Fits}
use aelkey.Base.{
  ℕ, pos, suc, String, true, false, List, [], ◌∷◌, Option, none, some, find, int_key, string_key,
  ◌≡◌, refl, minus_one,
}
use aelkey.Lua.{Table}
use aelkey.Dispatcher.{Epoll, empty_base}
use aelkey.Dispatcher.Payloads.{HasPayload, IsDead}
use aelkey.Device.Decl.{InputDecl, default_input}
use aelkey.Device.App.{App, AppLua, InputEvent}
use aelkey.Device.History.{start}
use aelkey.Evdev.Defs.{DispatcherEvdev, Libevdev, close_device}
use aelkey.Evdev.Frames.{Names, take_events}
use aelkey.Evdev.Delivery.{complete, left_over, run_script, take_events-complete}
use aelkey.Evdev.Close.{close_device_lem}
use aelkey.Device.Helpers.{Match}
use aelkey.Evdev.Match.{Evdev, UdevNode, evdev_match, evdev_match-IsDescribed}

abbrev kernel : Epoll ℕ
kernel = record { add = λ w fd events. (suc w, pos 0); del = λ w fd. suc w }

abbrev one_node : Libevdev ℕ
one_node = record {
  open_node = λ w node. (suc w, pos 3);
  close = λ w fd. suc w;
  new_from_fd = λ w fd. (suc w, some 1);
  has_ff = λ w idev. true;
  key_bits = λ w fd. none;
  fetch_value = λ w idev code. none;
  grab = λ w idev. (suc w, pos 0);
  ungrab = λ w idev. suc w;
  free = λ w idev. suc w;
}

abbrev keyboard : InputDecl
keyboard = record default_input { id = "keyboard"; type = "evdev"; on_event = "on_key"; fd = pos 3 }

abbrev opened_keyboard : DispatcherEvdev ℕ
opened_keyboard = record {
  world = 0;
  base = record empty_base { pollfds = (pos 3, record { fd = pos 3; dead = false }) ∷ [] };
  devices = (pos 3, "keyboard") ∷ (pos 4, "mouse") ∷ [];
  idev_map = (pos 3, 1) ∷ (pos 4, 2) ∷ [];
  grab_needed = (pos 3, true) ∷ [];
}

close_device_lem_example :
    let (d1, decl1) = close_device kernel one_node opened_keyboard keyboard in
    (find (pos 3) d1.devices ≡ none)
    × (find (pos 3) d1.idev_map ≡ none)
    × (find (pos 3) d1.grab_needed ≡ none)
    × (HasPayload opened_keyboard.base (pos 3) → IsDead d1.base (pos 3))
    × (decl1 ≡ record keyboard { fd = minus_one })
close_device_lem_example = close_device_lem kernel one_node opened_keyboard keyboard (pos 3) refl

abbrev press : InputEvent
press = record { type = 1; code = 30; value = pos 1; sec = pos 0; usec = pos 0 }

abbrev report : InputEvent
report = record { type = 0; code = 0; value = pos 0; sec = pos 0; usec = pos 0 }

abbrev count_calls : String → Table → ℕ → ℕ
count_calls name t n = suc n

abbrev scripts : AppLua ℕ
scripts = record {
  is_function = λ app name. true;
  call = λ name t app. record app { devices = count_calls name t app.devices };
  inputs = λ app. [];
  outputs = λ app. [];
}

abbrev names : Names
names = record { type_name = λ t. "EV_KEY"; code_name = λ t c. "KEY_A" }

abbrev reading : App ℕ
reading = record (start 0) { frames = ("keyboard", []) ∷ [] }

frame_found : find "keyboard" reading.frames ≡ some []
unfolding find
frame_found = refl

abbrev three_events : List InputEvent
three_events = press ∷ report ∷ press ∷ []

-- One frame is complete, and one event is left over.
cut :
    (complete [] three_events ≡ (press ∷ report ∷ []) ∷ [])
    × (left_over [] three_events ≡ press ∷ [])
unfolding complete left_over
cut = (refl, refl)

take_events-complete_example :
    let app1 = take_events scripts names keyboard three_events reading in
    (find "keyboard" app1.frames ≡ some (left_over [] three_events))
    × (app1.devices
        ≡ run_script scripts names count_calls
            (λ name t app. refl)
            keyboard
            (complete [] three_events)
            0)
take_events-complete_example =
    take_events-complete scripts names count_calls (λ name t app. refl) keyboard refl (λ app. refl)
      three_events [] reading frame_found

abbrev no_patterns : String → Option (String → Match)
no_patterns s = none

abbrev logitech : Evdev
logitech = record {
  bustype = pos 3;
  vendor = pos 0x46d;
  product = pos 1;
  name = "Mouse";
  phys = "";
  uniq = "";
  has_event_code = λ t c. true;
}

abbrev connected : List UdevNode
connected =
    record { devnode = none; evdev = none }
    ∷ record { devnode = some "/dev/input/event5"; evdev = some logitech }
    ∷ []

abbrev any_logitech : InputDecl
any_logitech = record default_input { id = "mouse"; type = "evdev"; vendor = pos 0x46d }

abbrev event5 : String
event5 = "/dev/input/event5"

matched : evdev_match no_patterns any_logitech connected ≡ some event5
unfolding evdev_match
matched = refl

evdev_match-IsDescribed_example :
    (any_logitech.type ≡ "evdev") × IsFirstFit (Fits no_patterns any_logitech) connected event5
evdev_match-IsDescribed_example =
    evdev_match-IsDescribed no_patterns any_logitech connected event5 matched
