-- ===== src/Loop/Cleanup.antt =====
-- What the cleanup leaves.
use aelkey.Base.{
  ◌⊎◌, ◌++◌, ap, sym, ℕ, String, Bool, true, false, ◌||◌, List, [], ◌∷◌, none, some, Map, find,
  string_key, ◌==◌, ==_iff, ◌≡◌, refl, ◌∙◌, arith, Option-cases, Bool-cases, inl, inr, find-cons,
}
use aelkey.Device.Decl.{InputDecl}
use aelkey.Device.App.{App}
use aelkey.Device.Manager.{Backends, detach}
use aelkey.Device.Attach.{IsLawful, find-detach}
use aelkey.Loop.Defs.{ids_of, detach_all, destroy_all, cleanup}

unfoldable pub among : String → List String → Bool
among j [] = false
among j (i ∷ is) = (i == j) || among j is

among-ids_of :
    (j : String) (m : Map String InputDecl) {decl : InputDecl}
    → find j m ≡ some decl
    → among j (ids_of m) ≡ true
unfolding among ids_of find
among-ids_of j [] h = cc
among-ids_of j ((i, d) ∷ m) h = elim (find-cons j i d m h) [
  | inl (e, f) ↦ ground (arith, ==_iff i j)
  | inr (e, f) ↦ ground (arith, among-ids_of j m f)
]

module _ {D : Type 0} (backends : Backends D) (laws : IsLawful backends) where
  gone_stays :
      (ids : List String) (app : App D) (j : String)
      → find j app.input_map ≡ none
      → find j (detach_all backends ids app).input_map ≡ none
  unfolding detach_all
  gone_stays [] app j h = h
  gone_stays (id ∷ ids) app j h =
      let app1 = (detach backends app id).0 in
      let one : find j app1.input_map ≡ none =
        ground (arith, (find-detach backends laws app id j).0) in
      gone_stays ids app1 j one

  -- The turn of `j` came, and its detach gave nothing back.
  pub record IsRefused (ids : List String) (app : App D) (j : String) : Type 0 where
    pub before : List String
    pub after : List String
    pub split : ids ≡ before ++ j ∷ after
    pub refused : (detach backends (detach_all backends before app) j).1 ≡ none

  IsRefused-later :
      (id : String) (ids : List String) (app : App D) (j : String)
      → IsRefused ids (detach backends app id).0 j
      → IsRefused (id ∷ ids) app j
  unfolding detach_all
  IsRefused-later id ids app j r = record {
    before = id ∷ r.before;
    after = r.after;
    split = ap (λ (l : List String). id ∷ l) r.split;
    refused = r.refused;
  }

  IsRefused-now :
      (id : String) (ids : List String) (app : App D) (j : String)
      → id ≡ j
      → (detach backends app id).1 ≡ none
      → IsRefused (id ∷ ids) app j
  unfolding detach_all
  IsRefused-now id ids app j e n = record {
    before = [];
    after = ids;
    split = ap (λ (i : String). i ∷ ids) e;
    refused = ap (λ (i : String). (detach backends app i).1) (sym e) ∙ n;
  }

  detach_all_gone :
      (ids : List String) (app : App D) (j : String)
      → among j ids ≡ true
      → (find j (detach_all backends ids app).input_map ≡ none) ⊎ IsRefused ids app j
  unfolding detach_all among
  detach_all_gone [] app j h = cc
  detach_all_gone (id ∷ ids) app j h =
      let app1 = (detach backends app id).0 in
      elim (Bool-cases (id == j)) [
        | inl e ↦
            let same : id ≡ j = (==_iff id j).0 e in
            elim (Option-cases (detach backends app id).1) [
              | inl n ↦ inr (IsRefused-now id ids app j same n)
              | inr (d, s) ↦
                  let gone : find j app1.input_map ≡ none =
                    ground (arith, (find-detach backends laws app id j).0) in
                  inl (gone_stays ids app1 j gone)
            ]
        | inr e ↦
            let later : among j ids ≡ true = ground arith in
            elim (detach_all_gone ids app1 j later) [
              | inl g ↦ inl g
              | inr r ↦ inr (IsRefused-later id ids app j r)
            ]
      ]

  destroyed :
      (destroy : ℕ → App D → App D)
      → ((u : ℕ) (a : App D) → (destroy u a).input_map ≡ a.input_map)
      → (m : Map String ℕ) (a : App D) → (destroy_all backends destroy m a).input_map ≡ a.input_map
  unfolding destroy_all
  destroyed destroy keeps [] a = refl
  destroyed destroy keeps ((id, u) ∷ m) a = destroyed destroy keeps m (destroy u a) ∙ keeps u a

  -- After the cleanup there is no output device, and no device is attached but one whose detach gave
  -- nothing back when its turn came. Here the backends are lawful, and the destruction of an output
  -- device leaves the table of devices alone.
  pub cleanup_lem :
      (destroy : ℕ → App D → App D) (app : App D) (j : String)
      → ((u : ℕ) (a : App D) → (destroy u a).input_map ≡ a.input_map)
      → ((find j (cleanup backends destroy app).input_map ≡ none)
          ⊎ IsRefused (ids_of app.input_map) app j)
        × ((cleanup backends destroy app).uinput_devices ≡ [])
  unfolding cleanup
  cleanup_lem destroy app j keeps =
      let app1 = detach_all backends (ids_of app.input_map) app in
      let left : (find j app1.input_map ≡ none) ⊎ IsRefused (ids_of app.input_map) app j =
        elim (Option-cases (find j app.input_map)) [
          | inl e ↦ inl (gone_stays (ids_of app.input_map) app j e)
          | inr (d, e) ↦
              detach_all_gone (ids_of app.input_map) app j (among-ids_of j app.input_map e)
        ] in
      (rw (destroyed destroy keeps app1.uinput_devices app1) left, refl)
