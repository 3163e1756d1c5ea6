-- ===== src/Dps/Mutators.antt =====
-- The `dp102_bytes_with_*`, `dp103_with_*` and `dp104_bytes_with_*` functions: one field of a payload.
pub mod Frame
use pypopur.Prelude.{Bool, bit_and, none, ℕ, false, bit_or, set, length, ltb, if◌then◌else◌}
use pypopur.Prelude.Eq.{text_eq}
use pypopur.Prelude.Int.{negsuc, ℤ, pos}
use pypopur.Codec.{decode_raw_bytes, clamp, normalize_bytes}
use pypopur.Dp101.{index_or, index}
use pypopur.Dps.Dustbin.{normalize_dp104}
use pypopur.Dps.Keys.{clear}
use pypopur.Dps.Payload.{clamp_byte, int_of_bool, byte}
use pypopur.Dps.Schedule.{dp103_length}
use pypopur.Dps.System.{dp102_length, dp102_reshuffle_labels}
use pypopur.Py.{
  Bytes, Value, Exception, byte_of, index_error, Chars, raise, Result, ok, value_error,
}
use pypopur.Py.Text.{codes, lower}

-- `bytearray(normalize_bytes(decode_raw_bytes(value), DP102_LENGTH))`
abbrev pub dp102_norm : Value → Bytes
dp102_norm value = normalize_bytes (decode_raw_bytes value false) dp102_length none

-- `out[index] = v` of a `bytearray`, which takes a byte at an index inside.
abbrev pub put_byte : Bytes → ℕ → ℕ → Result Exception Bytes
put_byte out index v =
    if ltb index (length out)
    then (if ltb v 256 then ok (set out index v) else raise value_error)
    else raise index_error

unfoldable pub dp102_bytes_with_byte : Value → ℕ → ℤ → Result Exception Bytes
dp102_bytes_with_byte value index b = put_byte (dp102_norm value) index (byte_of b)

unfoldable pub dp102_bytes_with_toggle : Value → ℕ → Bool → Result Exception Bytes
dp102_bytes_with_toggle value index enabled =
    put_byte (dp102_norm value) index (int_of_bool enabled)

-- `(old | bit_mask) if enabled else (old & ~bit_mask)`
unfoldable pub with_bit : ℕ → ℕ → Bool → ℕ
with_bit old bit_mask enabled = if enabled then bit_or old bit_mask else clear old bit_mask

unfoldable pub dp102_bytes_with_notification_bit : Value → ℕ → ℕ → Bool → Result Exception Bytes
dp102_bytes_with_notification_bit value index bit_mask enabled =
    let out = dp102_norm value in
    let old = if ltb index (length out) then byte out index else 0 in
    put_byte out index (with_bit old bit_mask enabled)

unfoldable pub dp102_bytes_with_weight_function_bit : Value → ℕ → Bool → Result Exception Bytes
dp102_bytes_with_weight_function_bit value = dp102_bytes_with_notification_bit value 22

unfoldable pub dp102_bytes_with_detailed_notification_bit :
    Value → ℕ → Bool → Result Exception Bytes
dp102_bytes_with_detailed_notification_bit value = dp102_bytes_with_notification_bit value 27

unfoldable pub dp102_bytes_with_notification_master : Value → Bool → Result Exception Bytes
dp102_bytes_with_notification_master value = dp102_bytes_with_toggle value 19

unfoldable pub dp102_bytes_with_smooth_spread : Value → ℤ → Result Exception Bytes
dp102_bytes_with_smooth_spread value count =
    dp102_bytes_with_byte value 14 (clamp count (pos 2) (pos 7))

unfoldable pub dp102_bytes_with_timezone : Value → ℤ → Result Exception Bytes
dp102_bytes_with_timezone value offset_hours =
    dp102_bytes_with_byte value 15 (pos (byte_of (clamp offset_hours (negsuc 11) (pos 12))))

unfoldable pub dp102_bytes_with_device_color : Value → Chars → Result Exception Bytes
dp102_bytes_with_device_color value label =
    dp102_bytes_with_byte value 17 (if text_eq (lower label) (codes "black") then pos 1 else pos 0)

unfoldable pub dp102_bytes_with_reshuffle_enabled : Value → Bool → Result Exception Bytes
dp102_bytes_with_reshuffle_enabled value = dp102_bytes_with_notification_bit value 26 0x80

unfoldable pub dp102_bytes_with_reshuffle_oscillation : Value → Chars → Result Exception Bytes
dp102_bytes_with_reshuffle_oscillation value label =
    let out = dp102_norm value in
    let i = index_or dp102_reshuffle_labels label 0 in
    put_byte out 26 (bit_or (bit_and (byte out 26) 0x80) (bit_and i 0x7f))

-- `_dp104_norm`, and `_dp103_norm` below: `_normalize_dp104` and `normalize_bytes` without Base64.
abbrev pub dp104_norm : Value → Bytes
dp104_norm value = normalize_dp104 (decode_raw_bytes value false)

unfoldable pub dp104_bytes_with_toggle : Value → ℕ → Bool → Result Exception Bytes
dp104_bytes_with_toggle value bit_mask enabled =
    let out = dp104_norm value in put_byte out 0 (with_bit (byte out 0) bit_mask enabled)

unfoldable pub dp104_bytes_with_calibration : Value → ℤ → Result Exception Bytes
dp104_bytes_with_calibration value level =
    put_byte (dp104_norm value) 1 (clamp_byte level (pos 0) (pos 3))

unfoldable pub dp104_bytes_with_cycle_count : Value → ℤ → Result Exception Bytes
dp104_bytes_with_cycle_count value count =
    put_byte (dp104_norm value) 2 (clamp_byte count (pos 1) (pos 10))

abbrev pub dp103_norm : Value → Bytes
dp103_norm value = normalize_bytes (decode_raw_bytes value false) dp103_length none

unfoldable pub dp103_with_hibernate_duration : Value → ℤ → Result Exception Bytes
dp103_with_hibernate_duration value minutes = put_byte (dp103_norm value) 9 (byte_of minutes)

unfoldable pub dp103_with_hibernate_start : Value → Bool → Result Exception Bytes
dp103_with_hibernate_start value enabled = put_byte (dp103_norm value) 8 (int_of_bool enabled)
