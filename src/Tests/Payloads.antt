-- ===== src/Tests/Payloads.antt =====
-- The codecs and the helpers, on concrete payloads.
use pypopur.Prelude.{
  ◌++◌, some, ◌<◌, none, false, ◌&&◌, ◌^◌, arith, inl, [], ◌≡◌, ◌∷◌, true, refl, All, length, ◌==◌,
  if◌then◌else◌,
}
use pypopur.Prelude.Eq.{string_Eq, nat_Eq, text_Eq}
use pypopur.Prelude.Int.{negsuc, pos}
use pypopur.Codec.{normalize_bytes, decode_raw_bytes}
use pypopur.Codec.Laws.{All-normalize_bytes}
use pypopur.Dps.Dustbin.{decode_dp104, dustbin_of, dustbin_bytes, normalize_dp104, encode_dp104}
use pypopur.Dps.Dustbin.RoundTrip.{
  encode_dp104-decode_dp104, decode_dp104-encode_dp104, IsDustbinInRange,
}
use pypopur.Dps.Keys.{encode_dp105, decode_dp105}
use pypopur.Dps.Keys.RoundTrip.{decode_dp105-encode_dp105, kept_keys}
use pypopur.Dps.Mutators.{dp102_bytes_with_notification_bit, dp102_norm}
use pypopur.Dps.Mutators.Frame.{dp102_bytes_with_notification_bit_lem}
use pypopur.Dps.Notifications.{RawDps, normalize_dp_mapping, dp, dp_text}
use pypopur.Dps.Payload.{byte, has_bit}
use pypopur.Dps.Schedule.{encode_dp103, decode_dp103}
use pypopur.Dps.Schedule.RoundTrip.{kept_schedule, decode_dp103-encode_dp103}
use pypopur.Dps.Snapshot.{DeviceSnapshot, decode_snapshot}
use pypopur.Dps.Snapshot.Total.{decode_snapshot_total}
use pypopur.Dps.System.{decode_dp102, settings_of}
use pypopur.Dps.System.Encode.{payload, encode_dp102}
use pypopur.Dps.System.Encode.Identity.{encode_dp102-decode_dp102}
use pypopur.Dps.System.Encode.Kept.{IsInRange}
use pypopur.Dps.System.Encode.RoundTrip.{decode_dp102-encode_dp102}
use pypopur.Models.Settings.{
  TimePowerSettings, KeySettings, TimerSlice, DustbinSettings, SystemSettings,
}
use pypopur.Py.{ok, str, float, finite, bytes, Bytes}
use pypopur.Py.Hex.{hex}
use pypopur.Py.Text.{codes}
use pypopur.RawBytes.{decode_to_bytes}
use pypopur.Sdk.HexUtil.{int_to_bytes2, bytes_to_int2}
use pypopur.Sdk.HexUtil.RoundTrip.{bytes_to_int2-int_to_bytes2}
use pypopur.Sdk.Java.{to_int32, java_number_int_value}
use pypopur.Sdk.Java.Range.{java_number_int_value_lem, GivesInt32}

abbrev settings : SystemSettings
settings = record {
  active_shield = record { anti_interference = true; sensitivity = pos 7; range = pos 2 };
  delay_minutes = pos 15;
  smooth_spread_count = pos 4;
  timezone_offset_hours = negsuc 4;
  device_color = codes "black";
  detailed_notifications = record {
    self_check_enabled = true;
    bin_full_enabled = false;
    manual_cleaning_enabled = true;
    scheduled_cleaning_enabled = false;
    automatic_cleaning_enabled = true;
    cleaning_started_enabled = false;
    pet_finished_enabled = true;
    pet_detected_enabled = false;
  };
  notification_master_enabled = true;
  panel = record {
    status_light_enabled = false;
    buzzer_enabled = true;
    pro_commands_enabled = false;
  };
  weight_functions = record {
    automatic = true;
    sentinel = false;
    caring = true;
    track_pet_data = true;
  };
  spin = record {
    auto_power_cycle = true;
    lower_speed = false;
    reshuffle_enabled = true;
    reshuffle_oscillation = codes "4X";
    auto_self_check = true;
  };
  detailed_notifications_ext = record {
    new_firmware_enabled = true;
    pet_left_without_business_enabled = false;
    cleaning_paused_enabled = true;
    cleaning_resumed_enabled = false;
  };
  raw = 1 ∷ 2 ∷ 3 ∷ [];
}

settings-IsInRange : IsInRange settings
settings-IsInRange = record {
  sensitivity = (7, refl, omega arith, omega arith);
  shield_range = (2, refl, omega arith, omega arith);
  delay = (15, refl, omega arith, omega arith);
  smooth = (omega arith, omega arith);
  timezone = (omega arith, omega arith);
  color = inl refl;
  oscillation = (2, omega arith, refl);
  bytes = (omega arith, (omega arith, (omega arith, tt)));
}

decode_dp102-encode_dp102_example :
    decode_dp102 (str (encode_dp102 settings))
    ≡ ok (some (record settings { raw = payload settings }))
decode_dp102-encode_dp102_example = decode_dp102-encode_dp102 settings settings-IsInRange

abbrev read_settings : SystemSettings
read_settings = settings_of (normalize_bytes (some (1 ∷ 2 ∷ [])) 29 none)

read_settings_run : decode_dp102 (bytes (1 ∷ 2 ∷ [])) ≡ ok (some read_settings)
unfolding decode_dp102 decode_raw_bytes decode_to_bytes normalize_bytes
read_settings_run = refl

encode_dp102-decode_dp102_example :
    (encode_dp102 read_settings ≡ hex read_settings.raw) × (length read_settings.raw ≡ 29)
encode_dp102-decode_dp102_example =
    encode_dp102-decode_dp102 (bytes (1 ∷ 2 ∷ [])) read_settings read_settings_run

one_byte : All (λ b. b < 256) (dp102_norm (bytes (1 ∷ [])))
unfolding decode_raw_bytes decode_to_bytes
one_byte = All-normalize_bytes (λ b. b < 256) (omega arith) (1 ∷ []) 29 (omega arith, tt)

dp102_bytes_with_notification_bit_lem_example :
    (new : Bytes) × (dp102_bytes_with_notification_bit (bytes (1 ∷ [])) 18 (2 ^ 3) true ≡ ok new)
    × (length new ≡ 29)
    × (has_bit (byte new 18) (2 ^ 3) ≡ (
        if 18 == 18 && 3 == 3
        then true
        else has_bit (byte (dp102_norm (bytes (1 ∷ []))) 18) (2 ^ 3)))
dp102_bytes_with_notification_bit_lem_example =
    dp102_bytes_with_notification_bit_lem (bytes (1 ∷ [])) 18 3 18 3 true (omega arith)
      (omega arith) (omega arith) one_byte

abbrev timer_slice : TimerSlice
timer_slice = record { enabled = true; repeat_mask = pos 0x7f; hour = pos 25; minute = pos 30 }

abbrev schedule : TimePowerSettings
schedule = record {
  power_on = timer_slice;
  power_off = timer_slice;
  hibernate_start = true;
  hibernate_duration_minutes = pos 30;
}

decode_dp103-encode_dp103_example :
    decode_dp103 (str (encode_dp103 schedule)) ≡ ok (some (kept_schedule schedule))
decode_dp103-encode_dp103_example = decode_dp103-encode_dp103 schedule

abbrev dustbin_settings : DustbinSettings
dustbin_settings = record {
  toggles = record {
    bin_full_detection = true;
    allow_overfill = false;
    keep_upright = true;
    dump_override = false;
    block_on_full = true;
  };
  calibration = pos 2;
  cycle_count = pos 9;
  raw = 0xe5 ∷ [];
}

dustbin_fits : IsDustbinInRange dustbin_settings
dustbin_fits = record {
  calibration = (2, refl, omega arith);
  cycle_count = (9, refl, omega arith, omega arith);
  bytes = (omega arith, tt);
}

decode_dp104-encode_dp104_example :
    decode_dp104 (str (encode_dp104 dustbin_settings))
    ≡ ok (some (record dustbin_settings { raw = dustbin_bytes dustbin_settings }))
decode_dp104-encode_dp104_example = decode_dp104-encode_dp104 dustbin_settings dustbin_fits

abbrev read_dustbin : DustbinSettings
read_dustbin = dustbin_of (normalize_dp104 (some (0x1f ∷ [])))

read_dustbin_run : decode_dp104 (bytes (0x1f ∷ [])) ≡ ok (some read_dustbin)
unfolding decode_dp104 decode_raw_bytes decode_to_bytes normalize_dp104
read_dustbin_run = refl

encode_dp104-decode_dp104_example :
    (encode_dp104 read_dustbin ≡ hex read_dustbin.raw) × (length read_dustbin.raw ≡ 3)
encode_dp104-decode_dp104_example =
    encode_dp104-decode_dp104 (bytes (0x1f ∷ [])) read_dustbin read_dustbin_run

abbrev keys : KeySettings
keys = record {
  lock_mask = 5;
  press = record { enabled = true; function = pos 0 };
  hold_3s = record { enabled = true; function = pos 2 };
  hold_7s = record { enabled = false; function = pos 3 };
}

decode_dp105-encode_dp105_example :
    decode_dp105 (str (encode_dp105 keys)) ≡ ok (some (kept_keys keys))
decode_dp105-encode_dp105_example = decode_dp105-encode_dp105 keys (omega arith)

abbrev device_map : RawDps
device_map =
    (dp_text (codes "125"), float (finite (pos 3) true))
    ∷ (dp_text (codes "112"), str (codes "maybe"))
    ∷ (dp (pos 102), bytes (1 ∷ []))
    ∷ []

decode_snapshot_total_example :
    (s : DeviceSnapshot) × (decode_snapshot (λ t. none) device_map ≡ ok s)
    × (s.raw_dps ≡ normalize_dp_mapping device_map)
decode_snapshot_total_example = decode_snapshot_total (λ t. none) device_map (tt, (tt, (tt, tt)))

java_number_int_value_lem_example :
    GivesInt32 (java_number_int_value (float (finite (pos 99999999999) false)))
java_number_int_value_lem_example =
    java_number_int_value_lem (float (finite (pos 99999999999) false)) tt

bytes_to_int2-int_to_bytes2_example :
    bytes_to_int2 ((9 ∷ 9 ∷ []) ++ (int_to_bytes2 (negsuc 1) ++ (8 ∷ []))) 2 ≡ to_int32 (negsuc 1)
bytes_to_int2-int_to_bytes2_example = bytes_to_int2-int_to_bytes2 (9 ∷ 9 ∷ []) (8 ∷ []) (negsuc 1)
