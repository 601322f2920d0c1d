-- ===== src/Load.antt =====
-- source/aelkey.cc: the Lua module that the program is, put together when Lua opens it.
use aelkey.Base.{
  ℕ, String, Bool, true, false, ◌&&◌, List, [], ◌∷◌, ◌++◌, Option, none, some, is_empty, eqb, ◌<>◌,
  if◌then◌else◌, string_key, ◌==◌, ==_iff, ==_refl, ◌≡◌, ◌⊎◌, refl, sym, subst, ap, ◌∙◌, arith,
  IsIn, inl, inr, Bool-cases,
}
use aelkey.Lua.{Value, Table, table, func, empty, field, get}
mod Tests

-- A module, or the text of the error that stopped it.
pub data Loaded : Type 0 where
  failed : String → Loaded
  loaded : Table → Loaded

abbrev pub script_modules : List String
script_modules =
    "click" ∷ "edge" ∷ "filter" ∷ "keyboard" ∷ "log" ∷ "mouse" ∷ "sequence" ∷ "ticker" ∷ "tracker"
    ∷ "touchpad" ∷ []

abbrev pub c_modules : List String
c_modules = "daemon" ∷ "gatt" ∷ "haptics" ∷ "hid" ∷ "usb" ∷ "util" ∷ []

-- The functions of the module itself.
abbrev pub core_functions : Table
core_functions = field "get_device_info" (func 7) (
    field "close_device" (func 6) (
      field "open_device" (func 5) (
        field "stop" (func 4) (
          field "start" (func 3)
            (field "tick" (func 2) (field "syn_report" (func 1) (field "emit" (func 0) empty)))))))

-- Root is let in only where AELKEY_ALLOW_ROOT is set and not empty.
unfoldable pub is_blocked : ℕ → Option String → Bool
is_blocked euid allow = eqb euid 0 && (elim allow [ none ↦ true | some s ↦ is_empty s ])

-- A name that the table has as a module.
abbrev IsModule : Table → String → Type 0
IsModule t name = (m : Table) × (get t name ≡ table m)

IsModule-field :
    (t m : Table) (n name : String) → IsModule t name → IsModule (field n (table m) t) name
unfolding get
IsModule-field t m n name i = elim (Bool-cases (n == name)) [
  | inl e ↦ (m, rw e refl)
  | inr e ↦ let (m', g) = i in (m', rw e g)
]

-- To split on a result and keep the equation.
Loaded-cases : (r : Loaded) → ((e : String) × (r ≡ failed e)) ⊎ ((m : Table) × (r ≡ loaded m))
Loaded-cases (failed e) = inl (e, refl)
Loaded-cases (loaded m) = inr (m, refl)

not_loaded : {e : String} {t : Table} → failed e ≡ loaded t → ⊥
not_loaded p = cc

table_of : Loaded → Table
table_of (failed e) = empty
table_of (loaded t) = t

-- `W` is the state of Lua and of the program. `run_script` runs the script of a name, `open_module`
-- the C function of a name.
module _ {W : Type 0} where
  -- One of the two loops; `kind` is the word of its message. An exception that is no error of sol,
  -- which ends the second loop with a message of its own, is not modelled.
  unfoldable pub load_modules :
      String → (W → String → W × Loaded) → List String → W → Table → W × Loaded
  load_modules kind run [] w t = (w, loaded t)
  load_modules kind run (name ∷ names) w t =
      let (w1, result) = run w name in
      elim result [
        | failed err ↦
            (w1, failed ("aelkey: " <> kind <> " module '" <> name <> "' failed: " <> err))
        | loaded m ↦ load_modules kind run names w1 (field name (table m) t)
      ]

  unfoldable pub load_aelkey :
      (W → String → W × Loaded) → (W → String → W × Loaded) → W → W × Loaded
  unfolding load_modules
  load_aelkey run_script open_module w =
      let (w1, scripts) = load_modules "script" run_script script_modules w core_functions in
      elim scripts [
        | failed err ↦ (w1, failed err)
        | loaded t ↦ load_modules "C" open_module c_modules w1 t
      ]

  unfoldable pub luaopen_aelkey :
      ℕ → Option String → (W → String → W × Loaded) → (W → String → W × Loaded) → W → W × Loaded
  unfolding load_aelkey is_blocked
  luaopen_aelkey euid allow run_script open_module w =
      let opened = load_aelkey run_script open_module w in
      if is_blocked euid allow then (w, failed "aelkey: do not run as root.") else opened

  load_modules-failed :
      (kind : String) (run : W → String → W × Loaded) (n : String) (names : List String) (w : W)
      (t : Table) (e : String)
      → (run w n).1 ≡ failed e
      → (load_modules kind run (n ∷ names) w t).1
        ≡ failed ("aelkey: " <> kind <> " module '" <> n <> "' failed: " <> e)
  unfolding load_modules
  load_modules-failed kind run n names w t e f = rw (f, load_modules) refl

  load_modules-loaded :
      (kind : String) (run : W → String → W × Loaded) (n : String) (names : List String) (w : W)
      (t m : Table)
      → (run w n).1 ≡ loaded m
      → load_modules kind run (n ∷ names) w t
        ≡ load_modules kind run names (run w n).0 (field n (table m) t)
  unfolding load_modules
  load_modules-loaded kind run n names w t m f = rw (f, load_modules) refl

  load_modules-keeps :
      (kind : String) (run : W → String → W × Loaded) (names : List String) (w : W) (t t1 : Table)
      (name : String)
      → (load_modules kind run names w t).1 ≡ loaded t1
      → IsModule t name
      → IsModule t1 name
  unfolding load_modules table_of
  load_modules-keeps kind run [] w t t1 name h i =
      subst (λ (u : Table). IsModule u name) (ap table_of h) i
  load_modules-keeps kind run (n ∷ names) w t t1 name h i = elim (Loaded-cases (run w n).1) [
    | inl (e, f) ↦
        let no = load_modules-failed kind run n names w t e f in absurd (not_loaded (sym no ∙ h))
    | inr (m, f) ↦
        load_modules-keeps kind run names (run w n).0 (field n (table m) t) t1 name
          (sym (ap (λ (r : W × Loaded). r.1) (load_modules-loaded kind run n names w t m f)) ∙ h)
          (IsModule-field t m n name i)
  ]

  -- Each module of the list is in the table, if none fails.
  load_modules-all :
      (kind : String) (run : W → String → W × Loaded) (names : List String) (w : W) (t t1 : Table)
      (name : String)
      → (load_modules kind run names w t).1 ≡ loaded t1
      → IsIn name names
      → IsModule t1 name
  unfolding get
  load_modules-all kind run [] w t t1 name h i = absurd i
  load_modules-all kind run (n ∷ names) w t t1 name h i = elim (Loaded-cases (run w n).1) [
    | inl (e, f) ↦
        let no = load_modules-failed kind run n names w t e f in absurd (not_loaded (sym no ∙ h))
    | inr (m, f) ↦
        let t2 = field n (table m) t in
        let rest =
          sym (ap (λ (r : W × Loaded). r.1) (load_modules-loaded kind run n names w t m f)) ∙ h in
        elim i [
          | inl e ↦
              let here : IsModule t2 name = (m, rw ((==_iff n name).1 e) refl) in
              load_modules-keeps kind run names (run w n).0 t2 t1 name rest here
          | inr j ↦ load_modules-all kind run names (run w n).0 t2 t1 name rest j
        ]
  ]

  load_aelkey-all :
      (run_script open_module : W → String → W × Loaded) (w : W) (t : Table) (name : String)
      → (load_aelkey run_script open_module w).1 ≡ loaded t
      → IsIn name script_modules ⊎ IsIn name c_modules
      → IsModule t name
  unfolding load_aelkey
  load_aelkey-all run_script open_module w t name h i =
      let (w1, scripts) = load_modules "script" run_script script_modules w core_functions in
      elim (Loaded-cases scripts) [
        | inl (e, f) ↦
            let no : (load_aelkey run_script open_module w).1 ≡ failed e =
              rw (f, load_aelkey) refl in
            absurd (not_loaded (sym no ∙ h))
        | inr (u, f) ↦
            let go : (load_aelkey run_script open_module w).1
                ≡ (load_modules "C" open_module c_modules w1 u).1 =
              rw (f, load_aelkey) refl in
            elim i [
              | inl j ↦
                  load_modules-keeps "C" open_module c_modules w1 u t name (sym go ∙ h) (
                    load_modules-all "script" run_script script_modules w core_functions u name f j)
              | inr j ↦ load_modules-all "C" open_module c_modules w1 u t name (sym go ∙ h) j
            ]
      ]

  -- The module opens only for a user that is let in, and then has every script and every C module.
  pub luaopen_aelkey-all :
      (euid : ℕ) (allow : Option String) (run_script open_module : W → String → W × Loaded) (w : W)
      (t : Table) (name : String)
      → (luaopen_aelkey euid allow run_script open_module w).1 ≡ loaded t
      → IsIn name script_modules ⊎ IsIn name c_modules
      → (is_blocked euid allow ≡ false) × IsModule t name
  unfolding luaopen_aelkey
  luaopen_aelkey-all euid allow run_script open_module w t name h i =
      elim (Bool-cases (is_blocked euid allow)) [
        | inl b ↦
            let no : (luaopen_aelkey euid allow run_script open_module w).1
                ≡ failed "aelkey: do not run as root." =
              rw (b, luaopen_aelkey) refl in
            absurd (not_loaded (sym no ∙ h))
        | inr b ↦
            let go : (luaopen_aelkey euid allow run_script open_module w).1
                ≡ (load_aelkey run_script open_module w).1 =
              rw (b, luaopen_aelkey) refl in
            (b, load_aelkey-all run_script open_module w t name (sym go ∙ h) i)
      ]
