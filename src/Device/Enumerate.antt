-- ===== src/Device/Enumerate.antt =====
-- `DispatcherUdev::enumerate_and_match`: the first device of an enumeration that a backend accepts.
-- `N` is what the backend reads of a device.
use aelkey.Base.{
  subst, false, All-weaken, String, true, false, List, [], ◌∷◌, ◌++◌, is_empty, if◌then◌else◌, ◌≡◌,
  refl, ap, ◌∙◌, arith, All, Bool-cases, inl, inr,
}

module _ {N : Type 0} where
  -- The loop over the enumeration: the first result that is not empty, or "".
  unfoldable pub enumerate_and_match : (N → String) → List N → String
  enumerate_and_match matcher [] = ""
  enumerate_and_match matcher (dev ∷ devs) =
      let rest = enumerate_and_match matcher devs in
      if is_empty (matcher dev) then rest else matcher dev

  -- The device of the enumeration that a node comes from.
  pub record IsFirst (matcher : N → String) (devs : List N) (node : String) : Type 0 where
    pub before : List N
    pub after : List N
    pub dev : N
    pub split : devs ≡ before ++ dev ∷ after
    pub none_before : All (λ d. is_empty (matcher d) ≡ true) before
    pub found : matcher dev ≡ node

  pub enumerate_and_match-IsFirst :
      (matcher : N → String) (devs : List N)
      → is_empty (enumerate_and_match matcher devs) ≡ false
      → IsFirst matcher devs (enumerate_and_match matcher devs)
  unfolding enumerate_and_match
  enumerate_and_match-IsFirst matcher [] h = cc
  enumerate_and_match-IsFirst matcher (dev ∷ devs) h = elim (Bool-cases (is_empty (matcher dev))) [
    | inl e ↦
        let tail : is_empty (enumerate_and_match matcher devs) ≡ false = ground arith in
        let f = enumerate_and_match-IsFirst matcher devs tail in
        rw (e, enumerate_and_match)
          (record {
            before = dev ∷ f.before;
            after = f.after;
            dev = f.dev;
            split = ap (λ (l : List N). dev ∷ l) f.split;
            none_before = (e, f.none_before);
            found = f.found;
          })
    | inr e ↦
        rw (e, enumerate_and_match)
          (record {
            before = [];
            after = devs;
            dev = dev;
            split = refl;
            none_before = tt;
            found = refl;
          })
  ]

  -- What is known of a node that a backend returns.
  pub some-IsFirst :
      (matcher : N → String) (devs : List N) (node : String)
      → is_empty (enumerate_and_match matcher devs) ≡ false
      → enumerate_and_match matcher devs ≡ node
      → (f : IsFirst matcher devs node) × (is_empty (matcher f.dev) ≡ false)
  some-IsFirst matcher devs node kept same =
      let f = enumerate_and_match-IsFirst matcher devs kept in
      let g : IsFirst matcher devs node = record {
        before = f.before;
        after = f.after;
        dev = f.dev;
        split = f.split;
        none_before = f.none_before;
        found = f.found ∙ same;
      } in
      (g, rw f.found kept)

  -- The first device of an enumeration that fits, where `Fits d node` says that `d` fits and is
  -- found at `node`.
  pub record IsFirstFit (Fits : N → String → Type 0) (devs : List N) (node : String) : Type 0 where
    pub before : List N
    pub after : List N
    pub dev : N
    pub split : devs ≡ before ++ dev ∷ after
    pub none_before : All (λ d. (n : String) → ¬ Fits d n) before
    pub fits : Fits dev node

  -- A matcher that accepts exactly the devices that fit finds the first of them.
  pub first-IsFirstFit :
      (matcher : N → String) (Fits : N → String → Type 0) (devs : List N) (node : String)
      → ((d : N) → is_empty (matcher d) ≡ false → Fits d (matcher d))
      → ((d : N) (n : String) → Fits d n → is_empty (matcher d) ≡ false)
      → is_empty (enumerate_and_match matcher devs) ≡ false
      → enumerate_and_match matcher devs ≡ node
      → IsFirstFit Fits devs node
  first-IsFirstFit matcher Fits devs node sound complete kept same =
      let (f, full) = some-IsFirst matcher devs node kept same in
      record {
        before = f.before;
        after = f.after;
        dev = f.dev;
        split = f.split;
        none_before =
            All-weaken (λ d. is_empty (matcher d) ≡ true) (λ d. (n : String) → ¬ Fits d n) f.before
              (λ d empty n fit. let full : is_empty (matcher d) ≡ false = complete d n fit in cc)
              f.none_before;
        fits = subst (Fits f.dev) f.found (sound f.dev full);
      }
