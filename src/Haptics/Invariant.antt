-- ===== src/Haptics/Invariant.antt =====
-- Every operation keeps the slots of persistent effects backed.
use aelkey.Base.{
  is_some, ℤ, pos, ◌+◌, ◌≡◌, refl, String, Bool, true, false, [], Option, none, some, find,
  is_negative, is_positive, if◌then◌else◌, int_key, string_key, pair_key, ==_iff, minus_one,
  find-insert, Option-cases, Bool-cases, inl, inr, arith,
}
use aelkey.Dispatcher.{Epoll}
use aelkey.Lua.{Table}
use aelkey.Haptics.Effect.{FfEffect}
use aelkey.Haptics.Defs.{
  HapticsSourceCtx, HapticsSinkCtx, FfDevice, DispatcherHaptics, register_source, set_effect,
  source_oneshot,
}
use aelkey.Haptics.View.{effect_of, slot_of-sinks}
use aelkey.Haptics.Play.{
  ensure_source, assign_id, create_persistent_effect, persistent_slot, oneshot_slot, slot_for,
  play_effect, stop_effect,
}
use aelkey.Haptics.Events.{
  Uinput, HapticsLua, handle_upload, handle_erase, handle_play, handle_stop, handle_request,
  handle_event, Request, ff_upload, ff_erase, ff, ignored, source_of_fd, callable,
}
use aelkey.Haptics.Backed.{
  IsBacked, IsBacked-congr, set_effect-IsBacked, propagate-IsBacked, propagate-drop-IsBacked,
  upload_slot-IsBacked,
}

module _ {W : Type 0} (epoll : Epoll W) (dev : FfDevice W) where
  pub sinks-register_source :
      (h : DispatcherHaptics W) (s cb : String) (fd : ℤ)
      → (register_source epoll h s fd cb).sinks ≡ h.sinks
  unfolding register_source
  sinks-register_source h s cb fd = ground arith

  pub effect_of-ensure_source :
      (h : DispatcherHaptics W) (s t : String) (i : ℤ)
      → effect_of (ensure_source epoll dev h s) t i ≡ effect_of h t i
  unfolding ensure_source register_source effect_of find
  effect_of-ensure_source h s t i = elim (Option-cases (find s h.sources)) [
    | inr (src, e) ↦ ground arith
    | inl e ↦ ground (arith, ==_iff s t, find-insert s t (empty_source s) h.sources)
  ]
    where
      empty_source : String → HapticsSourceCtx
      empty_source id = record { id = id; fd = minus_one; callback = ""; effects = [] }

  pub sinks-ensure_source :
      (h : DispatcherHaptics W) (s : String) → (ensure_source epoll dev h s).sinks ≡ h.sinks
  unfolding ensure_source
  sinks-ensure_source h s = ground (arith, sinks-register_source h s "" minus_one)

  -- A source that did not exist had no effects.
  ensure_source-IsBacked :
      (h : DispatcherHaptics W) (s : String) → IsBacked h → IsBacked (ensure_source epoll dev h s)
  ensure_source-IsBacked h s b = record {
    at = λ k t j p q. rw (effect_of-ensure_source h s t j) (
        b.at k t j
          (rw (← slot_of-sinks (ensure_source epoll dev h s) h k (t, j) (sinks-ensure_source h s))
            p)
          q);
  }

  pub ensure_source-found :
      (h : DispatcherHaptics W) (s : String)
      → is_some (find s (ensure_source epoll dev h s).sources) ≡ true
  unfolding ensure_source register_source
  ensure_source-found h s = elim (Option-cases (find s h.sources)) [
    | inr (src, e) ↦ ground arith
    | inl e ↦ ground (arith, ==_iff s s, find-insert s s (empty_source s) h.sources)
  ]
    where
      empty_source : String → HapticsSourceCtx
      empty_source id = record { id = id; fd = minus_one; callback = ""; effects = [] }

module _ {W : Type 0} (dev : FfDevice W) where
  persistent_slot-IsBacked :
      (h : DispatcherHaptics W) (sink : String) (c : HapticsSinkCtx) (s : String) (i : ℤ)
      → IsBacked h
      → IsBacked (persistent_slot dev h sink c (s, i)).0
  unfolding persistent_slot effect_of
  persistent_slot-IsBacked h sink c s i b = elim (Option-cases (find (s, i) c.slots)) [
    | inr (r, e) ↦ rw (e, persistent_slot) b
    | inl e ↦ elim (Option-cases (find s h.sources)) [
      | inl f ↦ rw (e, f, persistent_slot) b
      | inr (src, f) ↦ elim (Option-cases (find i src.effects)) [
        | inl g ↦ rw (e, f, g, persistent_slot) b
        | inr (eff, g) ↦
            rw (e, f, g, persistent_slot)
              (upload_slot-IsBacked dev h sink s i eff (λ n. ground arith) b)
      ]
    ]
  ]

  oneshot_slot-IsBacked :
      (h : DispatcherHaptics W) (sink : String) (eff : FfEffect)
      → IsBacked h
      → IsBacked (oneshot_slot dev h sink eff).0
  unfolding oneshot_slot
  oneshot_slot-IsBacked h sink eff b =
      let g = record h { oneshot_counter = h.oneshot_counter + 1 } in
      upload_slot-IsBacked dev g sink source_oneshot (pos h.oneshot_counter) eff (λ n. cc)
        (IsBacked-congr g h refl refl b)

  slot_for-IsBacked :
      (h : DispatcherHaptics W) (sink : String) (c : HapticsSinkCtx) (s : String) (i : ℤ)
      (eff : Option FfEffect)
      → IsBacked h
      → IsBacked (slot_for dev h sink c (s, i) eff).0
  unfolding slot_for
  slot_for-IsBacked h sink c s i none b = persistent_slot-IsBacked h sink c s i b
  slot_for-IsBacked h sink c s i (some eff) b = oneshot_slot-IsBacked h sink eff b

  pub play_effect-IsBacked :
      (h : DispatcherHaptics W) (sink s : String) (i m : ℤ) (eff : Option FfEffect)
      → IsBacked h
      → IsBacked (play_effect dev h sink s i m eff).0
  unfolding play_effect
  play_effect-IsBacked h sink s i m eff b = elim (Option-cases (find sink h.sinks)) [
    | inl e ↦ rw (e, play_effect) b
    | inr (c, e) ↦ elim (Bool-cases (is_negative c.fd)) [
      | inl f ↦ rw (e, f, play_effect) b
      | inr f ↦
          let kept : IsBacked (slot_for dev h sink c (s, i) eff).0 =
            slot_for-IsBacked h sink c s i eff b in
          elim (Option-cases (slot_for dev h sink c (s, i) eff).1) [
            | inl g ↦ rw (e, f, g, play_effect) kept
            | inr (n, g) ↦ rw (e, f, g, play_effect) (IsBacked-congr _ _ refl refl kept)
          ]
    ]
  ]

  pub stop_effect-IsBacked :
      (h : DispatcherHaptics W) (sink s : String) (i : ℤ)
      → IsBacked h
      → IsBacked (stop_effect dev h sink s i).0
  unfolding stop_effect
  stop_effect-IsBacked h sink s i b =
      let g = (stop_effect dev h sink s i).0 in IsBacked-congr g h (ground arith) (ground arith) b

  define-IsBacked :
      (h : DispatcherHaptics W) (s : String) (i : ℤ) (eff : FfEffect)
      → IsBacked h
      → IsBacked (set_effect h s i eff)
  unfolding set_effect
  define-IsBacked h s i eff b = elim (Option-cases (find s h.sources)) [
    | inl e ↦ rw (e, set_effect) b
    | inr (src, e) ↦ set_effect-IsBacked h s i eff e b
  ]

  module _ (uinput : Uinput W) (lua : HapticsLua W) where
    handle_upload-IsBacked :
        (h : DispatcherHaptics W) (src : HapticsSourceCtx) (r : ℤ)
        → IsBacked h
        → IsBacked (handle_upload dev uinput lua h src r).0
    unfolding handle_upload
    handle_upload-IsBacked h src r b =
        elim (Option-cases (uinput.begin_upload h.world src.fd r).1) [
          | inl e ↦ rw (e, handle_upload) (IsBacked-congr _ h refl refl b)
          | inr (eff, e) ↦
              elim (Bool-cases
                (uinput.end_upload (uinput.begin_upload h.world src.fd r).0 src.fd r).1) [
                  | inr f ↦ rw (e, f, handle_upload) (IsBacked-congr _ h refl refl b)
                  | inl f ↦
                      rw (e, f, handle_upload)
                        (propagate-IsBacked dev _ src.id eff.id
                          (define-IsBacked _ src.id eff.id _ (IsBacked-congr _ h refl refl b)))
                ]
        ]

    handle_erase-IsBacked :
        (h : DispatcherHaptics W) (src : HapticsSourceCtx) (r : ℤ)
        → IsBacked h
        → IsBacked (handle_erase dev uinput lua h src r).0
    unfolding handle_erase
    handle_erase-IsBacked h src r b = elim (Option-cases (uinput.begin_erase h.world src.fd r).1) [
      | inl e ↦ rw (e, handle_erase) (IsBacked-congr _ h refl refl b)
      | inr (v, e) ↦
          rw (e, handle_erase)
            (IsBacked-congr _ _ refl refl
              (propagate-drop-IsBacked dev _ src.id v (IsBacked-congr _ h refl refl b)))
    ]

    -- The Lua callbacks may use the dispatcher too; what they do keeps the invariant.
    module _
        (calls : (name : String) (ev : Table) (h : DispatcherHaptics W)
          → IsBacked h
          → IsBacked (lua.call name ev h)) where
      callback-IsBacked :
          (h : DispatcherHaptics W) (src : HapticsSourceCtx) (ev : Table)
          → IsBacked h
          → IsBacked (if callable dev uinput lua h src then lua.call src.callback ev h else h)
      callback-IsBacked h src ev b = elim (Bool-cases (callable dev uinput lua h src)) [
        | inl e ↦ rw e (calls src.callback ev h b)
        | inr e ↦ rw e b
      ]

      handle_request-IsBacked :
          (h : DispatcherHaptics W) (src : HapticsSourceCtx) (r : Request)
          → IsBacked h
          → IsBacked (handle_request dev uinput lua h src r)
      unfolding handle_request handle_play handle_stop
      handle_request-IsBacked h src (ff_upload r) b = handle_upload-IsBacked h src r b
      handle_request-IsBacked h src (ff_erase r) b = handle_erase-IsBacked h src r b
      handle_request-IsBacked h src (ff v m) b = elim (Bool-cases (is_positive m)) [
        | inl e ↦ rw e (callback-IsBacked h src _ b)
        | inr e ↦ rw e (callback-IsBacked h src _ b)
      ]
      handle_request-IsBacked h src ignored b = b

      pub handle_event-IsBacked :
          (h : DispatcherHaptics W) (fd : ℤ) (readable : Bool)
          → IsBacked h
          → IsBacked (handle_event dev uinput lua h fd readable)
      unfolding handle_event
      handle_event-IsBacked h fd false b = b
      handle_event-IsBacked h fd true b = elim (Option-cases (source_of_fd fd h.sources)) [
        | inl e ↦ rw (e, handle_event) b
        | inr (src, e) ↦ elim (Option-cases (uinput.read h.world fd).1) [
          | inl f ↦ rw (e, f, handle_event) (IsBacked-congr _ h refl refl b)
          | inr (r, f) ↦
              rw (e, f, handle_event)
                (handle_request-IsBacked _ src r (IsBacked-congr _ h refl refl b))
        ]
      ]

module _ {W : Type 0} (epoll : Epoll W) (dev : FfDevice W) where
  pub create-IsBacked :
      (h : DispatcherHaptics W) (s : String) (eff : FfEffect)
      → IsBacked h
      → IsBacked (create_persistent_effect epoll dev h s eff).0
  unfolding create_persistent_effect assign_id
  create-IsBacked h s eff b = define-IsBacked dev _ s _ _ (propagate-IsBacked dev _ s _ assigned)
    where
      assigned : IsBacked (assign_id epoll dev (ensure_source epoll dev h s) eff).0
      assigned =
          IsBacked-congr _ _ (ground arith) (ground arith) (ensure_source-IsBacked epoll dev h s b)
