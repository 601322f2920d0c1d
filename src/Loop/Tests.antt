-- ===== src/Loop/Tests.antt =====
-- Runs of the loop and of the cleanup.
use aelkey.Base.{
  not, ◌==◌, ◌⊎◌, ℕ, zero, suc, List, Bool, false, true, [], ◌∷◌, Option, none, some, find,
  string_key, ◌≡◌, refl, ap, inl,
}
use aelkey.Lua.{or_else}
use aelkey.Device.Decl.{default_input}
use aelkey.Device.App.{App}
use aelkey.Device.Manager.{Backend, Backends}
use aelkey.Device.Attach.{IsLawful}
use aelkey.Device.History.{start}
use aelkey.Loop.Defs.{ids_of, cleanup, loop_stop}
use aelkey.Loop.Cleanup.{IsRefused, cleanup_lem}

-- The mouse cannot be detached.
abbrev backend : Backend ℕ
backend = record {
  match = λ app decl. (app, none);
  attach = λ app node decl. (app, decl, true);
  detach = λ app id. (app, not (id == "mouse"));
}

abbrev backends : Backends ℕ
backends = record { for_type = λ type. some backend; init_dispatcher = λ app type. app }

same_backend : (b : Backend ℕ) → some backend ≡ some b → backend ≡ b
same_backend b e = ap (λ (o : Option (Backend ℕ)). or_else o backend) e

lawful : IsLawful backends
lawful = record {
  match_map = λ type b app decl e. rw (← same_backend b e) refl;
  attach_map = λ type b app node decl e. rw (← same_backend b e) refl;
  attach_id = λ type b app node decl e. rw (← same_backend b e) refl;
  detach_map = λ type b app id e. inl (rw (← same_backend b e) refl);
  init_map = λ app type. refl;
}

abbrev busy : App ℕ
busy = record (start 0) {
  uinput_devices = ("out", 1) ∷ [];
  input_map =
      ("keyboard", record default_input { id = "keyboard" })
      ∷ ("mouse", record default_input { id = "mouse" })
      ∷ [];
}

abbrev destroy : ℕ → App ℕ → App ℕ
destroy u app = app

cleanup_lem_example :
    ((find "mouse" (cleanup backends destroy busy).input_map ≡ none)
      ⊎ IsRefused backends lawful (ids_of busy.input_map) busy "mouse")
    × ((cleanup backends destroy busy).uinput_devices ≡ [])
cleanup_lem_example = cleanup_lem backends lawful destroy busy "mouse" (λ u a. refl)

-- An event that tells the loop to stop, after one that does nothing.
abbrev quits : ℕ → App ℕ → App ℕ
quits zero app = app
quits (suc n) app = loop_stop app

abbrev alive : App ℕ → ℕ → Bool
alive app p = false

abbrev open_nothing : App ℕ → App ℕ
open_nothing app = app

-- The second batch stops the loop; its last event is still handled, and the third batch is not.
abbrev later : List (List ℕ)
later = (0 ∷ []) ∷ []
