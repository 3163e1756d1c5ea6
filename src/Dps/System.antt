-- ===== src/Dps/System.antt =====
-- DP 102, the system settings: 29 bytes, of which the codec knows nineteen.
pub mod Encode
use pypopur.Prelude.{
  ◌||◌, not, Option, ◌∷◌, Bool, map, List, bit_and, ◌&&◌, some, ◌+◌, true, bit_or, ℕ, [], none,
  get_or, if◌then◌else◌, leb, ◌==◌, ltb,
}
use pypopur.Prelude.Eq.{text_eq}
use pypopur.Prelude.Int.{negsuc, ℤ, sub_ℕ, pos}
use pypopur.Codec.{clamp, decode_raw_bytes, normalize_bytes}
use pypopur.Dps.Payload.{flag, bool_ne, byte, has_bit, indexed}
use pypopur.Models.Settings.{
  SystemSettings, DetailedNotificationSettings, WeightFunctionSettings,
  DetailedNotificationExtSettings,
}
use pypopur.Py.{ok, Exception, Bytes, Result, Value, Chars, is_nonzero}
use pypopur.Py.Text.{codes}

abbrev pub dp102_length : ℕ
dp102_length = 29

abbrev pub dp102_reshuffle_labels : List Chars
dp102_reshuffle_labels = map codes ("2X" ∷ "3X" ∷ "4X" ∷ "5X" ∷ [])

unfoldable pub valid_or : ℕ → ℕ → ℕ → ℕ → ℕ
valid_or value minimum maximum default =
    if leb minimum value && leb value maximum then value else default

-- `raw[15] - 256 if raw[15] > 127 else raw[15]`
abbrev pub signed_byte : ℕ → ℤ
signed_byte b = if ltb 127 b then sub_ℕ b 256 else pos b

pub notifications_of : ℕ → DetailedNotificationSettings
notifications_of notify = record {
  self_check_enabled = has_bit notify 0x01;
  bin_full_enabled = has_bit notify 0x02;
  manual_cleaning_enabled = has_bit notify 0x04;
  scheduled_cleaning_enabled = has_bit notify 0x08;
  automatic_cleaning_enabled = has_bit notify 0x10;
  cleaning_started_enabled = has_bit notify 0x20;
  pet_finished_enabled = has_bit notify 0x40;
  pet_detected_enabled = has_bit notify 0x80;
}

pub notifications_ext_of : ℕ → DetailedNotificationExtSettings
notifications_ext_of notify_ext = record {
  new_firmware_enabled = has_bit notify_ext 0x01;
  pet_left_without_business_enabled = has_bit notify_ext 0x02;
  cleaning_paused_enabled = has_bit notify_ext 0x04;
  cleaning_resumed_enabled = has_bit notify_ext 0x08;
}

pub weight_functions_of : ℕ → WeightFunctionSettings
weight_functions_of weight = record {
  automatic = has_bit weight 0x01;
  sentinel = has_bit weight 0x02;
  caring = has_bit weight 0x04;
  track_pet_data = has_bit weight 0x40;
}

-- The part of `decode_dp102` behind `normalize_bytes`.
pub settings_of : Bytes → SystemSettings
settings_of raw = record {
  active_shield = record {
    anti_interference = is_nonzero (pos (byte raw 12));
    sensitivity = pos (valid_or (byte raw 10) 1 10 5);
    range = pos (valid_or (byte raw 11) 1 5 3);
  };
  delay_minutes = pos (valid_or (byte raw 13) 1 60 5);
  smooth_spread_count = clamp (pos (byte raw 14)) (pos 2) (pos 7);
  timezone_offset_hours = clamp (signed_byte (byte raw 15)) (negsuc 11) (pos 12);
  device_color = if byte raw 17 == 1 then codes "black" else codes "white";
  detailed_notifications = notifications_of (byte raw 18);
  notification_master_enabled = is_nonzero (pos (byte raw 19));
  panel = record {
    status_light_enabled = is_nonzero (pos (byte raw 20));
    buzzer_enabled = is_nonzero (pos (byte raw 21));
    pro_commands_enabled = is_nonzero (pos (byte raw 23));
  };
  weight_functions = weight_functions_of (byte raw 22);
  spin = record {
    auto_power_cycle = is_nonzero (pos (byte raw 24));
    lower_speed = is_nonzero (pos (byte raw 25));
    reshuffle_enabled = has_bit (byte raw 26) 0x80;
    reshuffle_oscillation = get_or dp102_reshuffle_labels (bit_and (byte raw 26) 0x7f) (codes "2X");
    auto_self_check = is_nonzero (pos (byte raw 28));
  };
  detailed_notifications_ext = notifications_ext_of (byte raw 27);
  raw = raw;
}

abbrev pub decode_settings : Option Bytes → Result Exception (Option SystemSettings)
decode_settings none = ok none
decode_settings (some decoded) =
    let raw = normalize_bytes (some decoded) dp102_length none in indexed 29 raw (settings_of raw)

unfoldable pub decode_dp102 : Value → Result Exception (Option SystemSettings)
decode_dp102 value = decode_settings (decode_raw_bytes value true)

pub notification_byte : DetailedNotificationSettings → ℕ
notification_byte s =
    flag 0x01 s.self_check_enabled
    + flag 0x02 s.bin_full_enabled
    + flag 0x04 s.manual_cleaning_enabled
    + flag 0x08 s.scheduled_cleaning_enabled
    + flag 0x10 s.automatic_cleaning_enabled
    + flag 0x20 s.cleaning_started_enabled
    + flag 0x40 s.pet_finished_enabled
    + flag 0x80 s.pet_detected_enabled

pub notification_ext_byte : DetailedNotificationExtSettings → ℕ
notification_ext_byte s =
    flag 0x01 s.new_firmware_enabled
    + flag 0x02 s.pet_left_without_business_enabled
    + flag 0x04 s.cleaning_paused_enabled
    + flag 0x08 s.cleaning_resumed_enabled

-- `weight`, put together by `|=`.
pub weight_byte : WeightFunctionSettings → ℕ
weight_byte s =
    bit_or (bit_or (bit_or (flag 0x01 s.automatic) (flag 0x02 s.sentinel)) (flag 0x04 s.caring))
      (flag 0x40 s.track_pet_data)

-- `a != b` of the three nested dataclasses that are written as one byte.
pub notifications_ne : DetailedNotificationSettings → DetailedNotificationSettings → Bool
notifications_ne a b =
    bool_ne a.self_check_enabled b.self_check_enabled
    || bool_ne a.bin_full_enabled b.bin_full_enabled
    || bool_ne a.manual_cleaning_enabled b.manual_cleaning_enabled
    || bool_ne a.scheduled_cleaning_enabled b.scheduled_cleaning_enabled
    || bool_ne a.automatic_cleaning_enabled b.automatic_cleaning_enabled
    || bool_ne a.cleaning_started_enabled b.cleaning_started_enabled
    || bool_ne a.pet_finished_enabled b.pet_finished_enabled
    || bool_ne a.pet_detected_enabled b.pet_detected_enabled

pub notifications_ext_ne : DetailedNotificationExtSettings → DetailedNotificationExtSettings → Bool
notifications_ext_ne a b =
    bool_ne a.new_firmware_enabled b.new_firmware_enabled
    || bool_ne a.pet_left_without_business_enabled b.pet_left_without_business_enabled
    || bool_ne a.cleaning_paused_enabled b.cleaning_paused_enabled
    || bool_ne a.cleaning_resumed_enabled b.cleaning_resumed_enabled

pub weight_functions_ne : WeightFunctionSettings → WeightFunctionSettings → Bool
weight_functions_ne a b =
    bool_ne a.automatic b.automatic
    || bool_ne a.sentinel b.sentinel
    || bool_ne a.caring b.caring
    || bool_ne a.track_pet_data b.track_pet_data

pub text_ne : Chars → Chars → Bool
text_ne a b = not (text_eq a b)
