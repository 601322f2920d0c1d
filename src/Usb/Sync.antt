-- ===== src/Usb/Sync.antt =====
-- The synchronous transfers of source/aelkey_usb.cc. Byte strings are texts.
use aelkey.Base.{
  u32, ℕ, ℤ, pos, negsuc, u8, u16, ◌/◌, ◌%◌, String, Bool, false, Option, none, some, is_negative,
  eqb, ltb, size, prefix, min, prefix-prefix, prefix_all, if◌then◌else◌, string_key, ◌≡◌, refl, sym,
  Bool-cases, inl, inr, ap,
}
use aelkey.Lua.{Table, str, int, empty, field, get, get_int, get_str}
use aelkey.Usb.Defs.{UsbState, Reply, LibUsb, get_handle}

-- `x & LIBUSB_ENDPOINT_IN`, which is bit 7 of a C integer
unfoldable pub is_in : ℤ → Bool
is_in (pos n) = eqb ((n / 128) % 2) 1
is_in (negsuc n) = eqb ((n / 128) % 2) 0

-- Cut to `n` bytes; as `size_t`, a negative size is larger than any data.
unfoldable pub clamp : ℤ → String → String
clamp (pos n) s = if ltb n (size s) then prefix n s else s
clamp (negsuc n) s = s

-- LIBUSB_ERROR_NO_DEVICE and LIBUSB_ERROR_NO_MEM
abbrev pub no_device_code : ℤ
no_device_code = negsuc 3

abbrev pub no_mem_code : ℤ
no_mem_code = negsuc 10

abbrev pub report : String → String → ℕ → ℤ → Table
report dev_id bytes transferred status = field "data" (str bytes) (
    field "device" (str dev_id)
      (field "size" (int (pos transferred)) (field "status" (int status) empty)))

module _ {W : Type 0} (usb : LibUsb W) where
  abbrev pub not_open : String → Table
  not_open dev_id = field "device" (str dev_id) (
      field "data" (str "")
        (field "size" (int (pos 0)) (field "status" (str (usb.error_name no_device_code)) empty)))

  abbrev pub open_with :
      (ℕ → UsbState W × Option Table) → UsbState W → String → UsbState W × Option Table
  open_with go d dev_id = elim (get_handle d dev_id) [
    | none ↦ (d, some (not_open dev_id))
    | some handle ↦ go handle
  ]

  -- The bodies of `usb_bulk_transfer` and `usb_interrupt_transfer`, which differ in the function of
  -- libusb that they call. The table is none where a negative size makes `std::vector` throw. A
  -- field of the options that is missing reads as 0 or "".
  unfoldable pub pipe_transfer :
      (W → ℕ → ℕ → String → ℤ → ℕ → W × Reply) → UsbState W → Table → UsbState W × Option Table
  pipe_transfer call d opts =
      let dev_id = get_str opts "device" "" in
      let endpoint = get_int opts "endpoint" (pos 0) in
      let wanted = get_int opts "size" (pos 0) in
      let timeout = u32 (get_int opts "timeout" (pos 0)) in
      let bytes = clamp wanted (get_str opts "data" "") in
      open_with
        (λ handle.
          if is_in endpoint
          then (if is_negative wanted
              then (d, none)
              else let (w, r) = call d.world handle (u8 endpoint) "" wanted timeout in
                (
                  record d { world = w },
                  some (report dev_id (prefix r.transferred r.buffer) r.transferred r.status),
                ))
          else let (w, r) = call d.world handle (u8 endpoint) bytes (pos (size bytes)) timeout in
            (
              record d { world = w },
              some (report dev_id (prefix r.transferred bytes) r.transferred r.status),
            ))
        d dev_id

  unfoldable pub usb_bulk_transfer : UsbState W → Table → UsbState W × Option Table
  unfolding pipe_transfer
  usb_bulk_transfer = pipe_transfer usb.bulk

  unfoldable pub usb_interrupt_transfer : UsbState W → Table → UsbState W × Option Table
  unfolding pipe_transfer
  usb_interrupt_transfer = pipe_transfer usb.interrupt

  -- `transferred` of a control transfer
  abbrev pub count_of : ℤ → ℕ
  count_of (pos n) = n
  count_of (negsuc n) = 0

  unfoldable pub usb_control_transfer : UsbState W → Table → UsbState W × Option Table
  usb_control_transfer d opts =
      let dev_id = get_str opts "device" "" in
      let request_type = get_int opts "request_type" (pos 0) in
      let setup : ℕ × ℕ × ℕ × ℕ = (
        u8 request_type,
        u8 (get_int opts "request" (pos 0)),
        u16 (get_int opts "value" (pos 0)),
        u16 (get_int opts "index" (pos 0)),
      ) in
      let length = get_int opts "length" (pos 0) in
      let timeout = u32 (get_int opts "timeout" (pos 0)) in
      let bytes = get_str opts "data" "" in
      let out_len = size (clamp length bytes) in
      open_with
        (λ handle.
          if is_in request_type
          then (if is_negative length
              then (d, none)
              else let (w, status, buffer) =
                  usb.control d.world handle setup "" (u16 length) timeout in
                (
                  record d { world = w },
                  some (report dev_id (prefix (count_of status) buffer) (count_of status) status),
                ))
          else let (w, status, buffer) =
              usb.control d.world handle setup bytes (u16 (pos out_len)) timeout in
            (record d { world = w }, some (report dev_id "" (count_of status) status)))
        d dev_id

clamp_lem : (n : ℕ) (s : String) → clamp (pos n) s ≡ prefix n s
unfolding clamp
clamp_lem n s = elim (Bool-cases (ltb n (size s))) [
  | inl e ↦ rw (e, clamp) refl
  | inr e ↦ rw (e, clamp) (sym (prefix_all n s e))
]

-- A transfer to the device is called with the first `size` bytes of the script's data and their
-- number, and the script gets back those of them that were transferred, with their number and the
-- status. Here the device is open, the endpoint is not one to the host, and the size is not
-- negative.
pub pipe_transfer_sent :
    {W : Type 0} (usb : LibUsb W) (call : W → ℕ → ℕ → String → ℤ → ℕ → W × Reply) (d : UsbState W)
    (opts : Table) (handle n : ℕ)
    → get_handle d (get_str opts "device" "") ≡ some handle
    → is_in (get_int opts "endpoint" (pos 0)) ≡ false
    → get_int opts "size" (pos 0) ≡ pos n
    → let bytes = get_str opts "data" "" in
      let sent = prefix n bytes in
      let (w, r) =
        call d.world handle
          (u8 (get_int opts "endpoint" (pos 0)))
          sent
          (pos (size sent))
          (u32 (get_int opts "timeout" (pos 0))) in
      (t : Table) × (pipe_transfer usb call d opts ≡ (record d { world = w }, some t))
      × (get t "data" ≡ str (prefix (min r.transferred n) bytes))
      × (get t "size" ≡ int (pos r.transferred))
      × (get t "status" ≡ int r.status)
unfolding pipe_transfer get
pipe_transfer_sent usb call d opts handle n has_handle is_out wanted =
    let bytes = get_str opts "data" "" in
    let endpoint = get_int opts "endpoint" (pos 0) in
    let timeout = u32 (get_int opts "timeout" (pos 0)) in
    let cut : clamp (get_int opts "size" (pos 0)) bytes ≡ prefix n bytes =
      rw wanted (clamp_lem n bytes) in
    let (w, r) =
      call d.world handle (u8 endpoint) (prefix n bytes) (pos (size (prefix n bytes))) timeout in
    (
      report (get_str opts "device" "") (prefix r.transferred (prefix n bytes)) r.transferred
          r.status,
      rw (has_handle, is_out, cut, pipe_transfer, open_with) refl,
      ap str (prefix-prefix r.transferred n bytes),
      refl,
      refl,
    )
