-- ===== src/Dps/System/Encode/Range.antt =====
-- Every byte of the payload is below 256, so that `bytearray` takes it.
use pypopur.Prelude.{bit_or, ℕ, arith, ◌<◌, bit_and, All}
use pypopur.Codec.Laws.{All-normalize_bytes}
use pypopur.Dp101.{index_or}
use pypopur.Dps.Payload.{
  byte_of_lt, clamp_byte_lt, byte, int_of_bool_lt, All-assign, byte_lt, AllBytes, bool_ne,
}
use pypopur.Dps.System.{
  weight_byte, notification_byte, dp102_reshuffle_labels, notification_ext_byte,
}
use pypopur.Dps.System.Encode.{write_panel, write_shield, write_reshuffle, write_spin, payload}
use pypopur.Dps.System.Encode.Values.{label_value, reshuffle_value, weight_value}
use pypopur.Models.Settings.{
  SystemSettings, WeightFunctionSettings, DetailedNotificationSettings,
  DetailedNotificationExtSettings,
}
use pypopur.Py.{Bytes, Chars}

notification_byte_lt : (s : DetailedNotificationSettings) → notification_byte s < 256
unfolding notification_byte
notification_byte_lt s = ground arith

notification_ext_byte_lt : (s : DetailedNotificationExtSettings) → notification_ext_byte s < 256
unfolding notification_ext_byte
notification_ext_byte_lt s = ground arith

weight_byte_lt :
    (s : WeightFunctionSettings) (old : ℕ)
    → old < 256
    → bit_or (bit_and old 0xb8) (weight_byte s) < 256
weight_byte_lt s old h = (weight_value s old h).1

index_labels_lt : (x : Chars) → index_or dp102_reshuffle_labels x 0 < 4
unfolding index_or
index_labels_lt x = ground arith

module _ (settings baseline : SystemSettings) where
  shield_bytes : (out : Bytes) → AllBytes out → AllBytes (write_shield settings baseline out)
  unfolding write_shield
  shield_bytes out h = All-assign _ _ _ _ (ground arith) (
      All-assign _ _ _ _ (byte_of_lt _) (
        All-assign _ _ _ _ (clamp_byte_lt _ 2 7 (omega arith) (omega arith)) (
          All-assign _ _ _ _ (clamp_byte_lt _ 1 60 (omega arith) (omega arith)) (
            All-assign _ _ _ _ (int_of_bool_lt _) (
              All-assign _ _ _ _ (clamp_byte_lt _ 1 5 (omega arith) (omega arith))
                (All-assign _ _ _ _ (clamp_byte_lt _ 1 10 (omega arith) (omega arith)) h))))))

  panel_bytes : (out : Bytes) → AllBytes out → AllBytes (write_panel settings baseline out)
  unfolding write_panel
  panel_bytes out h =
      let lights = All-assign _ _ _ _ (int_of_bool_lt _) (
        All-assign _ _ _ _ (int_of_bool_lt _) (
          All-assign _ _ _ _ (int_of_bool_lt _) (All-assign _ _ _ _ (notification_byte_lt _) h))) in
      All-assign _ _ _ _ (int_of_bool_lt _)
        (All-assign _ _ _ _ (weight_byte_lt _ _ (byte_lt _ 22 lights)) lights)

  reshuffle_bytes : (out : Bytes) → AllBytes out → AllBytes (write_reshuffle settings baseline out)
  unfolding write_reshuffle
  reshuffle_bytes out h =
      let flagged =
        All-assign (bool_ne settings.spin.reshuffle_enabled baseline.spin.reshuffle_enabled) 26 _ _
          (reshuffle_value (byte out 26) settings.spin.reshuffle_enabled (byte_lt out 26 h)).2 h in
      All-assign _ _ _ _ (label_value _ _ (byte_lt _ 26 flagged) (index_labels_lt _)).2 flagged

  spin_bytes : (out : Bytes) → AllBytes out → AllBytes (write_spin settings baseline out)
  unfolding write_spin
  spin_bytes out h = All-assign _ _ _ _ (int_of_bool_lt _) (
      All-assign _ _ _ _ (notification_ext_byte_lt _) (
        reshuffle_bytes _
          (All-assign _ _ _ _ (int_of_bool_lt _) (All-assign _ _ _ _ (int_of_bool_lt _) h))))

pub All-payload : (s : SystemSettings) → All (λ b. b < 256) s.raw → All (λ b. b < 256) (payload s)
unfolding payload
All-payload s h = spin_bytes s _ _ (
    panel_bytes s _ _
      (shield_bytes s _ _ (All-normalize_bytes (λ b. b < 256) (omega arith) s.raw 29 h)))
