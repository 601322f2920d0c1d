-- ===== src/Usb/History.antt =====
-- The asynchronous transfers over any history of calls and completions.
use aelkey.Base.{
  ℕ, String, Bool, true, false, not, ◌&&◌, ◌||◌, [], Option, none, some, find, is_some, ==_iff,
  ◌==◌, string_key, nat_key, ◌≡◌, refl, sym, ap, subst, Bool-cases, ◌∙◌, arith, inl, inr,
}
use aelkey.Lua.{Table, or_else}
use aelkey.Device.Decl.{InputDecl}
use aelkey.Device.App.{App, AppLua}
use aelkey.Device.Single.{single}
use aelkey.Usb.Defs.{UsbState, Transfer, LibUsb, usb_backend}
use aelkey.Usb.Async.{
  Completion, Submitted, refused, submitted, usb_submit_transfer, dispatch_libusb,
}
use aelkey.Usb.Lifecycle.{Accounts, usb_submit_transfer-Accounts}
use aelkey.Usb.Outcome.{Outcome, pending, freed, detached, IsSettled, IsQuiet, outcome}
use aelkey.Usb.Complete.{dispatch_libusb-Settles}

-- The transfers that libusb works on, and those whose device went away under them.
pub record Known : Type 0 where
  pub in_flight : ℕ → Bool
  pub orphaned : ℕ → Bool

abbrev pub nobody : Known
nobody = record { in_flight = λ k. false; orphaned = λ k. false }

abbrev pub after_submit : Submitted → Known → Known
after_submit (refused t) n = n
after_submit (submitted x) n = record n { in_flight = λ k. (x == k) || n.in_flight k }

abbrev pub after_completion : Outcome → ℕ → Known → Known
after_completion pending x n = n
after_completion freed x n = record {
  in_flight = λ k. not (x == k) && n.in_flight k;
  orphaned = λ k. not (x == k) && n.orphaned k;
}
after_completion detached x n = record {
  in_flight = λ k. not (x == k) && n.in_flight k;
  orphaned = λ k. (x == k) || n.orphaned k;
}

module _ {W : Type 0} (usb : LibUsb W) (lua : AppLua (UsbState W)) (quiet : IsQuiet lua)
    (init : App (UsbState W) → String → App (UsbState W)) where
  -- A history: a script submits a transfer, where libusb hands out one that is not in use, or one
  -- that is in flight ends, while its device is attached and open.
  pub data Reach : App (UsbState W) → Known → Type 0 where
    here : (app : App (UsbState W)) → app.devices.transfers ≡ [] → Reach app nobody
    submits :
        {app : App (UsbState W)} {n : Known} (opts : Table)
        → Reach app n
        → ((x : ℕ) → (usb.alloc app.devices.world).1 ≡ some x → find x app.devices.transfers ≡ none)
        → Reach
            (usb_submit_transfer usb app opts).0
            (after_submit (usb_submit_transfer usb app opts).1 n)
    ends :
        {app app1 : App (UsbState W)} {n : Known} (x : ℕ) (t : Transfer) (c : Completion)
        (decl : InputDecl) (handle : ℕ)
        → Reach app n
        → n.in_flight x ≡ true
        → find x app.devices.transfers ≡ some t
        → find t.owner app.input_map ≡ some decl
        → decl.id ≡ t.owner
        → find t.owner app.devices.devices ≡ some handle
        → dispatch_libusb usb lua (single (usb_backend usb) init) app x t c ≡ some app1
        → Reach app1 (after_completion (outcome usb app.devices x t handle c.status) x n)

  abbrev Balanced : App (UsbState W) → Known → Type 0
  Balanced app n =
      (k : ℕ) → is_some (find k app.devices.transfers) ≡ (n.in_flight k || n.orphaned k)

  submit-Balanced :
      (app app1 : App (UsbState W)) (opts : Table) (s : Submitted) (n : Known)
      → Balanced app n
      → Accounts usb app app1 opts s
      → Balanced app1 (after_submit s n)
  submit-Balanced app app1 opts (refused t) n b a k = ap is_some (a k) ∙ b k
  submit-Balanced app app1 opts (submitted x) n b a k =
      let (t, o, f, g) = a in ap is_some (g k) ∙ ground (arith, b k, ==_iff x k)

  completion-Balanced :
      (app app1 : App (UsbState W)) (x : ℕ) (id : String) (o : Outcome) (n : Known)
      → Balanced app n
      → n.in_flight x ≡ true
      → IsSettled app app1 x id o
      → Balanced app1 (after_completion o x n)
  completion-Balanced app app1 x id pending n b l s k = ap is_some (s.transfers k) ∙ b k
  completion-Balanced app app1 x id freed n b l s k =
      ap is_some (s.transfers k) ∙ ground (arith, b k, ==_iff x k)
  completion-Balanced app app1 x id detached n b l s k =
      ap is_some (s.transfers k) ∙ elim (Bool-cases (x == k)) [
        | inl e ↦
            let same : x ≡ k = (==_iff x k).0 e in
            let flies : n.in_flight k ≡ true = ap n.in_flight (sym same) ∙ l in
            let known = b k in ground arith
        | inr e ↦ let known = b k in ground arith
      ]

  -- Over any history of submissions and completions in which scripts touch neither the devices, their
  -- frames, nor the transfers, exactly the transfers that are in flight are allocated, and those whose device
  -- went away under them; where libusb hands out transfers that are not in use, and the device of a
  -- transfer that ends is attached and open. A history ends where a completion reads what is gone.
  pub Reach-Balanced :
      {app : App (UsbState W)} {n : Known}
      → Reach app n
      → (k : ℕ) → is_some (find k app.devices.transfers) ≡ (n.in_flight k || n.orphaned k)
  unfolding find
  Reach-Balanced (here app none_yet) k = rw none_yet refl
  Reach-Balanced (submits {app} {n} opts r fresh) k =
      let (app1, s) = usb_submit_transfer usb app opts in
      submit-Balanced app app1 opts s n (Reach-Balanced r)
        (usb_submit_transfer-Accounts usb app opts fresh) k
  Reach-Balanced (ends {app} {app1} {n} x t c decl handle r l f e i o d) k =
      elim (dispatch_libusb-Settles usb lua quiet init app x t c decl handle e i o) [
        | inl (reads, undefined) ↦ let gone : none ≡ some app1 = sym undefined ∙ d in cc
        | inr (reads, (app2, d2, s)) ↦
            let same : app2 ≡ app1 =
              ap (λ (r : Option (App (UsbState W))). or_else r app1) (sym d2 ∙ d) in
            completion-Balanced app app1 x t.owner (outcome usb app.devices x t handle c.status) n
              (Reach-Balanced r) l
              (subst
                (λ (a : App (UsbState W)).
                  IsSettled app a x t.owner (outcome usb app.devices x t handle c.status))
                same s)
              k
      ]
