-- ===== src/Hidraw/Reports.antt =====
-- source/aelkey_hid.cc: the reports that a script reads and writes. Byte strings are texts.
use aelkey.Base.{
  ℕ, ℤ, pos, u8, String, Bool, false, not, Option, none, some, find, is_negative, is_positive,
  eqb_ℤ, size, prefix, if◌then◌else◌, string_key,
}
use aelkey.Device.App.{App}

-- The ioctls of a hidraw descriptor, `read` and `write`, each with its code and the bytes that it
-- leaves in the buffer.
pub record HidIo (W : Type 0) : Type 0 where
  pub get_feature : W → ℤ → ℕ → ℕ → W × ℤ × String
  pub desc_size : W → ℤ → W × ℤ × ℤ
  pub desc : W → ℤ → ℤ → W × ℤ × String
  pub read : W → ℤ → ℕ → W × ℤ × String
  pub set_feature : W → ℤ → String → W × ℤ
  pub write : W → ℤ → String → W × ℤ

-- An open descriptor of an attached device; the first tests of each function.
unfoldable pub open_fd : {D : Type 0} → App D → String → Option ℤ
open_fd app id = elim (find id app.input_map) [
  | none ↦ none
  | some decl ↦ if is_negative decl.fd then none else some decl.fd
]

-- The number of bytes of a count that is not negative.
abbrev pub count : ℤ → ℕ
count (pos n) = n
count _ = 0

module _ {W : Type 0} (io : HidIo W) where
  -- The buffer of 256 bytes begins with the number of the report, and is returned as a whole.
  unfoldable pub hid_get_feature_report : App W → String → ℤ → App W × String
  hid_get_feature_report app id report_id = elim (open_fd app id) [
    | none ↦ (app, "")
    | some fd ↦
        let (w, rc, buf) = io.get_feature app.devices fd 256 (u8 report_id) in
        let app1 = record app { devices = w } in
        if is_negative rc then (app1, "") else (app1, prefix 256 buf)
  ]

  unfoldable pub hid_get_report_descriptor : App W → String → App W × String
  hid_get_report_descriptor app id = elim (open_fd app id) [
    | none ↦ (app, "")
    | some fd ↦
        let (w, rc, n) = io.desc_size app.devices fd in
        let (w1, rc1, value) = io.desc w fd n in
        if is_negative rc
        then (record app { devices = w }, "")
        else if is_negative rc1
        then (record app { devices = w1 }, "")
        else (record app { devices = w1 }, prefix (count n) value)
  ]

  unfoldable pub hid_read_input_report : App W → String → App W × String
  hid_read_input_report app id = elim (open_fd app id) [
    | none ↦ (app, "")
    | some fd ↦
        let (w, n, buf) = io.read app.devices fd 256 in
        let app1 = record app { devices = w } in
        if is_positive n then (app1, prefix (count n) buf) else (app1, "")
  ]

  unfoldable pub hid_send_feature_report : App W → String → String → App W × Bool
  hid_send_feature_report app id bytes = elim (open_fd app id) [
    | none ↦ (app, false)
    | some fd ↦
        let (w, rc) = io.set_feature app.devices fd bytes in
        (record app { devices = w }, not (is_negative rc))
  ]

  unfoldable pub hid_send_output_report : App W → String → String → App W × Bool
  hid_send_output_report app id bytes = elim (open_fd app id) [
    | none ↦ (app, false)
    | some fd ↦
        let (w, n) = io.write app.devices fd bytes in
        (record app { devices = w }, eqb_ℤ n (pos (size bytes)))
  ]
