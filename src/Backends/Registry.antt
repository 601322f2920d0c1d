-- ===== src/Backends/Registry.antt =====
-- Singletons that are initialised when they are first needed, and the registry of dispatchers.
use aelkey.Base.{
  String, Bool, true, false, Option, none, some, Map, find, insert, if◌then◌else◌, string_key, ◌≡◌,
  arith,
}

-- `Singleton<T>`, with the state of the `T`.
pub record Singleton (S : Type 0) : Type 0 where
  pub state : S
  pub initialized : Bool

module _ {S : Type 0} (on_init : S → S × Bool) where
  unfoldable pub lazy_init : Singleton S → Singleton S × Bool
  lazy_init s =
      let (state, ok) = on_init s.state in
      if s.initialized then (s, true) else (record { state = state; initialized = ok }, ok)

  -- `instance()`, past the construction; `auto_init` is `auto_init_`.
  unfoldable pub instance_of : Bool → Singleton S → Singleton S
  unfolding lazy_init
  instance_of auto_init s = if auto_init then (lazy_init s).0 else s

  -- Once a singleton is initialised, no use of it initialises it again.
  pub lazy_init-once :
      (s : Singleton S) (auto_init : Bool)
      → (lazy_init s).1 ≡ true
      → let s1 = (lazy_init s).0 in (instance_of auto_init s1 ≡ s1) × (lazy_init s1 ≡ (s1, true))
  unfolding instance_of lazy_init
  lazy_init-once s auto_init h = ground arith

-- A dispatcher is known by its `lazy_init`; `A` is the state of the program.
abbrev pub Registry : Type 0 → Type 0
Registry A = Map String (A → A × Bool)

module _ {A : Type 0} where
  -- `reg[type] = dispatcher`
  unfoldable pub register_self : String → (A → A × Bool) → Registry A → Registry A
  register_self type init reg = insert type init reg

  unfoldable pub get_dispatcher_for_type : Registry A → String → Option (A → A × Bool)
  get_dispatcher_for_type reg type = find type reg

  unfoldable pub init_dispatcher_for_type : Registry A → A → String → A × Bool
  unfolding get_dispatcher_for_type
  init_dispatcher_for_type reg a type = elim (get_dispatcher_for_type reg type) [
    | none ↦ (a, false)
    | some init ↦ init a
  ]
