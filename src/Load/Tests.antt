-- ===== src/Load/Tests.antt =====
-- Runs of the opening of the module.
use aelkey.Base.{ℕ, suc, String, true, some, none, ◌<>◌, string_key, ◌≡◌, refl}
use aelkey.Lua.{empty}
use aelkey.Load.{Loaded, failed, loaded, luaopen_aelkey, is_blocked}

abbrev runs : ℕ → String → ℕ × Loaded
runs n name = (suc n, loaded empty)

abbrev fails : ℕ → String → ℕ × Loaded
fails n name = (suc n, failed "no such file")

-- An empty variable lets nobody in.
blocked : is_blocked 0 (some "") ≡ true
unfolding is_blocked
blocked = refl

-- Ten scripts and six C modules.
counted : (luaopen_aelkey 1000 none runs runs 0).0 ≡ 16
unfolding luaopen_aelkey
counted = refl

stopped :
    luaopen_aelkey 0 (some "1") runs fails 0
    ≡ (11, failed "aelkey: C module 'daemon' failed: no such file")
unfolding luaopen_aelkey ◌<>◌
stopped = refl
