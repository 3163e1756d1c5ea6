-- ===== src/Dps/Schedule/RoundTrip.antt =====
-- What is kept of a schedule by its ten bytes.
use pypopur.Prelude.{some, ap, refl, ◌∙◌, true, ◌≡◌, arith, ◌<◌}
use pypopur.Prelude.Int.{pos, ℤ}
use pypopur.Codec.{clamp}
use pypopur.Codec.Hex.{decode_raw_bytes-hex}
use pypopur.Codec.Laws.{normalize_bytes_self}
use pypopur.Dps.Payload.{
  AllBytes, nonzero_int_of_bool, int_of_bool_lt, clamp_byte_lt, pos-clamp_byte, clamp_byte,
  byte_of_lt,
}
use pypopur.Dps.Schedule.{
  encode_dp103, decode_time_power, decode_dp103, time_power_of, time_power_bytes,
}
use pypopur.Models.Settings.{TimerSlice, TimePowerSettings}
use pypopur.Py.{ok, byte_of, str}

abbrev pub kept_timer : TimerSlice → TimerSlice
kept_timer t = record {
  enabled = t.enabled;
  repeat_mask = pos (byte_of t.repeat_mask);
  hour = clamp t.hour (pos 0) (pos 23);
  minute = clamp t.minute (pos 0) (pos 59);
}

abbrev pub kept_schedule : TimePowerSettings → TimePowerSettings
kept_schedule s = record {
  power_on = kept_timer s.power_on;
  power_off = kept_timer s.power_off;
  hibernate_start = s.hibernate_start;
  hibernate_duration_minutes = clamp s.hibernate_duration_minutes (pos 0) (pos 255);
}

time_power_of-bytes : (s : TimePowerSettings) → time_power_of (time_power_bytes s) ≡ kept_schedule s
time_power_of-bytes s = λ i. record {
  power_on = record {
    enabled = nonzero_int_of_bool s.power_on.enabled i;
    repeat_mask = pos (byte_of s.power_on.repeat_mask);
    hour = pos-clamp_byte s.power_on.hour 0 23 i;
    minute = pos-clamp_byte s.power_on.minute 0 59 i;
  };
  power_off = record {
    enabled = nonzero_int_of_bool s.power_off.enabled i;
    repeat_mask = pos (byte_of s.power_off.repeat_mask);
    hour = pos-clamp_byte s.power_off.hour 0 23 i;
    minute = pos-clamp_byte s.power_off.minute 0 59 i;
  };
  hibernate_start = nonzero_int_of_bool s.hibernate_start i;
  hibernate_duration_minutes = pos-clamp_byte s.hibernate_duration_minutes 0 255 i;
}

All-time_power_bytes : (s : TimePowerSettings) → AllBytes (time_power_bytes s)
All-time_power_bytes s = (
  int_of_bool_lt _,
  (
    byte_of_lt _,
    (
      hour_lt _,
      (
        minute_lt _,
        (
          int_of_bool_lt _,
          (
            byte_of_lt _,
            (
              hour_lt _,
              (
                minute_lt _,
                (
                  int_of_bool_lt _,
                  (
                    clamp_byte_lt s.hibernate_duration_minutes 0 255 (omega arith) (omega arith),
                    tt,
                  ),
                ),
              ),
            ),
          ),
        ),
      ),
    ),
  ),
)
  where
    hour_lt : (z : ℤ) → clamp_byte z (pos 0) (pos 23) < 256
    hour_lt z = clamp_byte_lt z 0 23 (omega arith) (omega arith)

    minute_lt : (z : ℤ) → clamp_byte z (pos 0) (pos 59) < 256
    minute_lt z = clamp_byte_lt z 0 59 (omega arith) (omega arith)

-- What `encode_dp103` writes, `decode_dp103` reads as the same schedule, with the times clamped
-- to a day, the weekdays cut to eight bits and the duration clamped to a byte.
pub decode_dp103-encode_dp103 :
    (s : TimePowerSettings) → decode_dp103 (str (encode_dp103 s)) ≡ ok (some (kept_schedule s))
unfolding decode_dp103 encode_dp103
decode_dp103-encode_dp103 s =
    ap decode_time_power (decode_raw_bytes-hex (time_power_bytes s) true (All-time_power_bytes s))
    ∙ rw (normalize_bytes_self (time_power_bytes s) 9 refl)
        (ap (λ t. ok (some t)) (time_power_of-bytes s))
