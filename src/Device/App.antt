-- ===== src/Device/App.antt =====
-- source/aelkey_state.h: the state that every part shares, and the calls into Lua.
use aelkey.Base.{
  ℕ, ℤ, String, Bool, List, Map, string_key, is_empty, if◌then◌else◌, zero, suc, [], ◌∷◌,
}
use aelkey.Lua.{Table, str, empty, field}
use aelkey.Device.Decl.{InputDecl, OutputDecl}

-- `struct input_event`
pub record InputEvent : Type 0 where
  pub type : ℕ
  pub code : ℕ
  pub value : ℤ
  pub sec : ℤ
  pub usec : ℤ

-- `D` is the state of the backends, of the dispatchers and of the world outside. A pointer to a
-- uinput device is a number.
pub record App (D : Type 0) : Type 0 where
  pub devices : D
  pub uinput_devices : Map String ℕ
  pub input_map : Map String InputDecl
  pub frames : Map String (List InputEvent)
  pub loop_should_stop : Bool
  pub input_decls : List InputDecl
  pub output_decls : List OutputDecl
  pub watch_map : Map String (List InputDecl)
  pub on_watchlist : String

-- Whether a global is a function, a call of it with one table (which may use the whole program),
-- and the declarations that the globals `inputs` and `outputs` hold.
pub record AppLua (D : Type 0) : Type 0 where
  pub is_function : App D → String → Bool
  pub call : String → Table → App D → App D
  pub inputs : App D → List Table
  pub outputs : App D → List Table

-- `vector[i] = x`
abbrev pub set {ℓ} : {A : Type ℓ} → List A → ℕ → A → List A
set [] i v = []
set (x ∷ xs) zero v = v ∷ xs
set (x ∷ xs) (suc i) v = x ∷ set xs i v

module _ {D : Type 0} (lua : AppLua D) where
  abbrev pub state_event : InputDecl → String → Table
  state_event decl state = field "state" (str state) (field "device" (str decl.id) empty)

  -- `DispatcherUdev::notify_state_change`
  unfoldable pub notify_state_change : App D → InputDecl → String → App D
  notify_state_change app decl state =
      if is_empty decl.on_state
      then app
      else if lua.is_function app decl.on_state
      then lua.call decl.on_state (state_event decl state) app
      else app
