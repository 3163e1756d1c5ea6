-- ===== src/Dps/Schedule.antt =====
-- DP 103: when the machine switches itself on and off, and when it hibernates.
pub mod RoundTrip
use pypopur.Prelude.{ℕ, Option, ◌+◌, none, true, some, replicate, set}
use pypopur.Prelude.Int.{pos}
use pypopur.Codec.{decode_raw_bytes, normalize_bytes}
use pypopur.Dps.Payload.{int_of_bool, clamp_byte, byte, indexed}
use pypopur.Models.Settings.{TimePowerSettings, TimerSlice}
use pypopur.Py.{Chars, Value, byte_of, is_nonzero, ok, Bytes, Result, Exception}
use pypopur.Py.Hex.{hex}

abbrev pub dp103_length : ℕ
dp103_length = 10

abbrev timer : Bytes → ℕ → TimerSlice
timer raw offset = record {
  enabled = is_nonzero (pos (byte raw offset));
  repeat_mask = pos (byte raw (offset + 1));
  hour = pos (byte raw (offset + 2));
  minute = pos (byte raw (offset + 3));
}

abbrev time_power_of : Bytes → TimePowerSettings
time_power_of raw = record {
  power_on = timer raw 0;
  power_off = timer raw 4;
  hibernate_start = is_nonzero (pos (byte raw 8));
  hibernate_duration_minutes = pos (byte raw 9);
}

abbrev pub decode_time_power : Option Bytes → Result Exception (Option TimePowerSettings)
decode_time_power none = ok none
decode_time_power (some decoded) =
    let raw = normalize_bytes (some decoded) dp103_length none in indexed 10 raw (time_power_of raw)

unfoldable pub decode_dp103 : Value → Result Exception (Option TimePowerSettings)
decode_dp103 value = decode_time_power (decode_raw_bytes value true)

abbrev write_timer : ℕ → TimerSlice → Bytes → Bytes
write_timer offset t out =
    set
      (set (set (set out offset (int_of_bool t.enabled)) (offset + 1) (byte_of t.repeat_mask))
        (offset + 2) (clamp_byte t.hour (pos 0) (pos 23)))
      (offset + 3) (clamp_byte t.minute (pos 0) (pos 59))

abbrev time_power_bytes : TimePowerSettings → Bytes
time_power_bytes settings =
    let out =
      write_timer 4 settings.power_off
        (write_timer 0 settings.power_on (replicate dp103_length 0)) in
    set (set out 8 (int_of_bool settings.hibernate_start)) 9
      (clamp_byte settings.hibernate_duration_minutes (pos 0) (pos 255))

unfoldable pub encode_dp103 : TimePowerSettings → Chars
encode_dp103 settings = hex (time_power_bytes settings)
