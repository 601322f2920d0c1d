-- ===== src/Device/Single.antt =====
-- A table of backends with one entry, and what its backend has to keep.
use aelkey.Base.{true, ◌⊎◌, insert, String, Option, some, find, string_key, ◌≡◌, ap}
use aelkey.Lua.{or_else}
use aelkey.Device.Decl.{InputDecl}
use aelkey.Device.App.{App}
use aelkey.Device.Manager.{Backend, Backends}
use aelkey.Device.Attach.{IsLawful}

module _ {D : Type 0} where
  -- What `IsLawful` asks of each backend.
  pub record KeepsTable (b : Backend D) : Type 0 where
    pub match_map :
        (app : App D) (decl : InputDecl) → (b.match app decl).0.input_map ≡ app.input_map
    pub attach_map :
        (app : App D) (node : String) (decl : InputDecl)
        → (b.attach app node decl).0.input_map ≡ app.input_map
    pub attach_id :
        (app : App D) (node : String) (decl : InputDecl) → (b.attach app node decl).1.id ≡ decl.id
    pub detach_map :
        (app : App D) (id : String)
        → ((b.detach app id).0.input_map ≡ app.input_map)
          ⊎ ((decl decl' : InputDecl) × ((b.detach app id).1 ≡ true)
              × (find id app.input_map ≡ some decl)
              × (decl'.id ≡ decl.id)
              × ((b.detach app id).0.input_map ≡ insert id decl' app.input_map))

  abbrev pub single : Backend D → (App D → String → App D) → Backends D
  single b init = record { for_type = λ type. some b; init_dispatcher = init }

  pub single-IsLawful :
      (b : Backend D)
      → KeepsTable b
      → (init : App D → String → App D)
      → ((app : App D) (type : String) → (init app type).input_map ≡ app.input_map)
      → IsLawful (single b init)
  single-IsLawful b keeps init starts = record {
    match_map = λ type c app decl e. rw (← same e) (keeps.match_map app decl);
    attach_map = λ type c app node decl e. rw (← same e) (keeps.attach_map app node decl);
    attach_id = λ type c app node decl e. rw (← same e) (keeps.attach_id app node decl);
    detach_map = λ type c app id e. rw (← same e) (keeps.detach_map app id);
    init_map = starts;
  }
    where
      same : {c : Backend D} → some b ≡ some c → b ≡ c
      same e = ap (λ (o : Option (Backend D)). or_else o b) e
