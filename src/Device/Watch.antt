-- ===== src/Device/Watch.antt =====
-- What the Lua entries of the watchlist change.
use aelkey.Base.{
  false, String, true, ◌&&◌, ltb, List, [], ◌∷◌, none, some, find, string_key, ◌==◌, find-insert,
  if◌then◌else◌, ◌≡◌, refl, arith, Option-cases, Bool-cases, inl, inr,
}
use aelkey.Lua.{Value, Table, nil, bool, int, str, func, table, items, as_table}
use aelkey.Device.Decl.{InputDecl}
use aelkey.Device.App.{App}
use aelkey.Device.Parser.{EventNames, parse_input}
use aelkey.Device.Daemon.{
  is_watchable, valid_decl, valid_decls, count, daemon_set_callback, daemon_watch,
}

module _ {D : Type 0} where
  pub input_map-daemon_set_callback :
      (app : App D) (v : Value) → (daemon_set_callback app v).0.input_map ≡ app.input_map
  unfolding daemon_set_callback
  input_map-daemon_set_callback app nil = refl
  input_map-daemon_set_callback app (bool b) = refl
  input_map-daemon_set_callback app (int z) = refl
  input_map-daemon_set_callback app (str s) = refl
  input_map-daemon_set_callback app (func n) = refl
  input_map-daemon_set_callback app (table t) = refl

  pub input_map-daemon_watch :
      (names : EventNames) (app : App D) (ref : String) (t : Table)
      → (daemon_watch names app ref t).0.input_map ≡ app.input_map
  unfolding daemon_watch
  input_map-daemon_watch names app ref t = ground arith

-- The declarations that a watch keeps of a list of values, in their order: those of the tables whose
-- type udev reports, without callbacks.
pub data Selects (names : EventNames) : List Value → List InputDecl → Type 0 where
  ends : Selects names [] []
  no_table :
      {v : Value} {vs : List Value} {ds : List InputDecl}
      → as_table v ≡ none
      → Selects names vs ds
      → Selects names (v ∷ vs) ds
  not_reported :
      {v : Value} {vs : List Value} {ds : List InputDecl} (t : Table)
      → as_table v ≡ some t
      → is_watchable (parse_input names t).type ≡ false
      → Selects names vs ds
      → Selects names (v ∷ vs) ds
  kept :
      {v : Value} {vs : List Value} {ds : List InputDecl} (t : Table)
      → as_table v ≡ some t
      → is_watchable (parse_input names t).type ≡ true
      → Selects names vs ds
      → Selects names (v ∷ vs) (record (parse_input names t) { on_event = ""; on_state = "" } ∷ ds)

valid_decls-Selects :
    (names : EventNames) (vs : List Value) → Selects names vs (valid_decls names vs)
unfolding valid_decls valid_decl
valid_decls-Selects names [] = ends
valid_decls-Selects names (v ∷ vs) =
    let rest = valid_decls-Selects names vs in
    elim (Option-cases (as_table v)) [
      | inl e ↦ rw (e, valid_decls, valid_decl) (no_table e rest)
      | inr (t, e) ↦ elim (Bool-cases (is_watchable (parse_input names t).type)) [
        | inl f ↦ rw (e, f, valid_decls, valid_decl) (kept t e f rest)
        | inr f ↦ rw (e, f, valid_decls, valid_decl) (not_reported t e f rest)
      ]
    ]

-- `daemon_watch` keeps the declarations of exactly those tables whose type udev reports, in their
-- order and without their callbacks, and returns how many there are. It puts them under the
-- reference; where there are none, it changes nothing, and what was under the reference stays. No
-- other reference changes.
pub daemon_watch_lem :
    {D : Type 0} (names : EventNames) (app : App D) (ref r : String) (t : Table)
    → let (app1, n) = daemon_watch names app ref t in
      (valid : List InputDecl) × Selects names (items t) valid
      × (n ≡ count valid)
      × (find r app1.watch_map
          ≡ (if ltb 0 n && (ref == r) then some valid else find r app.watch_map))
unfolding daemon_watch
daemon_watch_lem names app ref r t =
    let valid = valid_decls names (items t) in
    (
      valid,
      valid_decls-Selects names (items t),
      ground arith,
      ground (arith, find-insert ref r valid app.watch_map),
    )
