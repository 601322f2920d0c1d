-- ===== src/Lua.antt =====
-- The Lua values that the program reads and builds through sol2. A number is an integer (the
-- program reads no others); a function is its identity. A table is its entries: the named fields,
-- and the items of its array part in order.
use aelkey.Base.{
  ℕ, ℤ, String, Bool, Option, none, some, ◌==◌, if◌then◌else◌, List, [], ◌∷◌, string_key,
}

mutual
  pub data Value : Type 0 where
    nil : Value
    bool : Bool → Value
    int : ℤ → Value
    str : String → Value
    func : ℕ → Value
    table : Table → Value

  pub data Table : Type 0 where
    empty : Table
    field : String → Value → Table → Table
    item : Value → Table → Table

-- t[key]
unfoldable pub get : Table → String → Value
get empty k = nil
get (field j v t) k = if j == k then v else get t k
get (item v t) k = get t k

-- The items at 1, 2, …, as far as the array part goes.
unfoldable pub items : Table → List Value
items empty = []
items (field j v t) = items t
items (item v t) = v ∷ items t

-- The values that `for_each` visits.
unfoldable pub values : Table → List Value
values empty = []
values (field j v t) = v ∷ values t
values (item v t) = v ∷ values t

-- v.is<int>(), v.is<std::string>(), v.is<bool>(), v.is<sol::table>(), each with `as`
abbrev pub as_int : Value → Option ℤ
as_int (int z) = some z
as_int _ = none

abbrev pub as_str : Value → Option String
as_str (str s) = some s
as_str _ = none

abbrev pub as_bool : Value → Option Bool
as_bool (bool b) = some b
as_bool _ = none

abbrev pub as_table : Value → Option Table
as_table (table t) = some t
as_table _ = none

abbrev pub or_else {ℓ} : {A : Type ℓ} → Option A → A → A
or_else none d = d
or_else (some a) d = a

-- t.get_or(key, default)
abbrev pub get_int : Table → String → ℤ → ℤ
get_int t k d = or_else (as_int (get t k)) d

abbrev pub get_str : Table → String → String → String
get_str t k d = or_else (as_str (get t k)) d
