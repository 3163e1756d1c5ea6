-- ===== src/Dps/System/Encode.antt =====
-- `encode_dp102`: the bytes of a payload that the settings change, in the source's order.
pub mod Kept
pub mod RoundTrip
pub mod Range
pub mod Values
pub mod Written
pub mod Identity
use pypopur.Prelude.{ℕ, some, bit_or, bit_and, none, if◌then◌else◌}
use pypopur.Prelude.Eq.{text_eq}
use pypopur.Prelude.Int.{negsuc, pos}
use pypopur.Codec.{clamp, normalize_bytes}
use pypopur.Dp101.{index_or}
use pypopur.Dps.Payload.{bool_ne, byte, int_ne, clamp_byte, assign, flag, int_of_bool}
use pypopur.Dps.System.{
  notifications_ne, dp102_length, dp102_reshuffle_labels, weight_byte, notification_byte,
  weight_functions_ne, text_ne, notification_ext_byte, notifications_ext_ne, settings_of,
}
use pypopur.Models.Settings.{SystemSettings}
use pypopur.Py.{Chars, Bytes, byte_of}
use pypopur.Py.Hex.{hex}
use pypopur.Py.Text.{lower, codes}

module _ (settings baseline : SystemSettings) where
  -- The new value of byte 22: unknown bits are kept.
  abbrev weight_written : ℕ → ℕ
  weight_written old = bit_or (bit_and old 0xb8) (weight_byte settings.weight_functions)

  -- Bytes 10 to 15 and 17.
  unfoldable pub write_shield : Bytes → Bytes
  write_shield out =
      let s = settings.active_shield in
      let b = baseline.active_shield in
      assign (text_ne settings.device_color baseline.device_color) 17
        (if text_eq (lower settings.device_color) (codes "black") then 1 else 0)
        (assign (int_ne settings.timezone_offset_hours baseline.timezone_offset_hours) 15
          (byte_of (clamp settings.timezone_offset_hours (negsuc 11) (pos 12)))
          (assign (int_ne settings.smooth_spread_count baseline.smooth_spread_count) 14
            (clamp_byte settings.smooth_spread_count (pos 2) (pos 7))
            (assign (int_ne settings.delay_minutes baseline.delay_minutes) 13
              (clamp_byte settings.delay_minutes (pos 1) (pos 60))
              (assign (bool_ne s.anti_interference b.anti_interference) 12
                (int_of_bool s.anti_interference)
                (assign (int_ne s.range b.range) 11 (clamp_byte s.range (pos 1) (pos 5)) (
                  assign (int_ne s.sensitivity b.sensitivity) 10
                    (clamp_byte s.sensitivity (pos 1) (pos 10)) out))))))

  -- Bytes 18 to 23.
  unfoldable pub write_panel : Bytes → Bytes
  write_panel out =
      let p = settings.panel in
      let q = baseline.panel in
      let lights =
        assign (bool_ne p.buzzer_enabled q.buzzer_enabled) 21 (int_of_bool p.buzzer_enabled) (
          assign (bool_ne p.status_light_enabled q.status_light_enabled) 20
            (int_of_bool p.status_light_enabled)
            (assign
              (bool_ne settings.notification_master_enabled baseline.notification_master_enabled) 19
              (int_of_bool settings.notification_master_enabled)
              (assign
                (notifications_ne settings.detailed_notifications baseline.detailed_notifications)
                18 (notification_byte settings.detailed_notifications) out))) in
      assign (bool_ne p.pro_commands_enabled q.pro_commands_enabled) 23
        (int_of_bool p.pro_commands_enabled)
        (assign (weight_functions_ne settings.weight_functions baseline.weight_functions) 22
          (weight_written (byte lights 22)) lights)

  -- The two parts of byte 26: the flag first, then the label's index below it.
  unfoldable pub write_reshuffle : Bytes → Bytes
  write_reshuffle out =
      let s = settings.spin in
      let b = baseline.spin in
      let flagged =
        assign (bool_ne s.reshuffle_enabled b.reshuffle_enabled) 26
          (bit_or (bit_and (byte out 26) 0x7f) (flag 0x80 s.reshuffle_enabled)) out in
      assign (text_ne s.reshuffle_oscillation b.reshuffle_oscillation) 26
        (bit_or (bit_and (byte flagged 26) 0x80)
          (index_or dp102_reshuffle_labels s.reshuffle_oscillation 0))
        flagged

  -- Bytes 24 to 28.
  unfoldable pub write_spin : Bytes → Bytes
  write_spin out =
      let s = settings.spin in
      let b = baseline.spin in
      assign (bool_ne s.auto_self_check b.auto_self_check) 28 (int_of_bool s.auto_self_check) (
        assign
          (notifications_ext_ne settings.detailed_notifications_ext
            baseline.detailed_notifications_ext)
          27 (notification_ext_byte settings.detailed_notifications_ext)
          (write_reshuffle (
            assign (bool_ne s.lower_speed b.lower_speed) 25 (int_of_bool s.lower_speed) (
              assign (bool_ne s.auto_power_cycle b.auto_power_cycle) 24
                (int_of_bool s.auto_power_cycle) out))))

-- The 29 bytes that `encode_dp102` writes.
unfoldable pub payload : SystemSettings → Bytes
payload settings =
    let out = normalize_bytes (some settings.raw) dp102_length none in
    let baseline = settings_of (normalize_bytes (some out) dp102_length none) in
    write_spin settings baseline
      (write_panel settings baseline (write_shield settings baseline out))

unfoldable pub encode_dp102 : SystemSettings → Chars
encode_dp102 settings = hex (payload settings)
