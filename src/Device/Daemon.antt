-- ===== src/Device/Daemon.antt =====
-- source/aelkey_daemon.cc: the watchlist.
use aelkey.Base.{
  no_items, String, Bool, true, false, ◌||◌, List, [], ◌∷◌, ◌++◌, none, some, Map, insert, erase,
  string_key, ◌==◌, if◌then◌else◌, ℕ, suc,
}
use aelkey.Lua.{Value, Table, nil, str, items, as_table}
use aelkey.Device.Decl.{InputDecl}
use aelkey.Device.App.{App}
use aelkey.Device.Parser.{EventNames, parse_input}

-- The types that udev shows.
unfoldable pub is_watchable : String → Bool
is_watchable type = (type == "evdev") || (type == "hidraw") || (type == "libusb")

unfoldable pub valid_decl : EventNames → Value → List InputDecl
valid_decl names v = elim (as_table v) [
  | none ↦ []
  | some t ↦
      let decl = parse_input names t in
      if is_watchable decl.type then record decl { on_event = ""; on_state = "" } ∷ [] else []
]

unfoldable pub valid_decls : EventNames → List Value → List InputDecl
unfolding valid_decl
valid_decls names [] = []
valid_decls names (v ∷ vs) = valid_decl names v ++ valid_decls names vs

abbrev pub count : List InputDecl → ℕ
count [] = 0
count (d ∷ ds) = suc (count ds)

unfoldable pub keys : Map String (List InputDecl) → List String
keys [] = []
keys ((ref, decls) ∷ m) = ref ∷ keys m

module _ {D : Type 0} where
  unfoldable pub daemon_set_callback : App D → Value → App D × Bool
  daemon_set_callback app (str s) = (record app { on_watchlist = s }, true)
  daemon_set_callback app nil = (record app { on_watchlist = "" }, true)
  daemon_set_callback app _ = (app, false)

  unfoldable pub daemon_watch : EventNames → App D → String → Table → App D × ℕ
  unfolding valid_decls
  daemon_watch names app ref decls =
      let valid = valid_decls names (items decls) in
      if no_items valid
      then (app, 0)
      else (record app { watch_map = insert ref valid app.watch_map }, count valid)

  unfoldable pub daemon_unwatch : App D → String → App D
  daemon_unwatch app ref = record app { watch_map = erase ref app.watch_map }

  unfoldable pub daemon_watchlist : App D → List String
  unfolding keys
  daemon_watchlist app = keys app.watch_map
