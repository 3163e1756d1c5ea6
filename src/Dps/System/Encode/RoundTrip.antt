-- ===== src/Dps/System/Encode/RoundTrip.antt =====
-- Settings in range survive the payload.
use pypopur.Prelude.{◌∙◌, ◌≡◌, ap, arith, true, some}
use pypopur.Codec.Hex.{decode_raw_bytes-hex}
use pypopur.Codec.Laws.{normalize_bytes_self}
use pypopur.Dps.Payload.{indexed_lem}
use pypopur.Dps.System.{settings_of, decode_settings, decode_dp102}
use pypopur.Dps.System.Encode.{encode_dp102, payload}
use pypopur.Dps.System.Encode.Kept.{
  delay_kept, self_check_kept, master_kept, light_kept, notifications_ext_kept, notifications_kept,
  power_cycle_kept, range_kept, weight_kept, interference_kept, color_kept, timezone_kept,
  smooth_kept, lower_speed_kept, sensitivity_kept, label_kept, buzzer_kept, pro_commands_kept,
  IsInRange,
}
use pypopur.Dps.System.Encode.Range.{All-payload}
use pypopur.Dps.System.Encode.Written.{length-payload}
use pypopur.Models.Settings.{SystemSettings}
use pypopur.Py.{str, ok}
use pypopur.Sdk.LanSocket.{fits}

pub settings_kept :
    (s : SystemSettings) → IsInRange s → settings_of (payload s) ≡ record s { raw = payload s }
unfolding settings_of
settings_kept s fits = λ i. record {
  active_shield = record {
    anti_interference = interference_kept s fits i;
    sensitivity = sensitivity_kept s fits i;
    range = range_kept s fits i;
  };
  delay_minutes = delay_kept s fits i;
  smooth_spread_count = smooth_kept s fits i;
  timezone_offset_hours = timezone_kept s fits i;
  device_color = color_kept s fits i;
  detailed_notifications = notifications_kept s fits i;
  notification_master_enabled = master_kept s fits i;
  panel = record {
    status_light_enabled = light_kept s fits i;
    buzzer_enabled = buzzer_kept s fits i;
    pro_commands_enabled = pro_commands_kept s fits i;
  };
  weight_functions = weight_kept s fits i;
  spin = record {
    auto_power_cycle = power_cycle_kept s fits i;
    lower_speed = lower_speed_kept s fits i;
    reshuffle_enabled = (label_kept s fits).0 i;
    reshuffle_oscillation = (label_kept s fits).1 i;
    auto_self_check = self_check_kept s fits i;
  };
  detailed_notifications_ext = notifications_ext_kept s fits i;
  raw = payload s;
}

decode_settings-payload :
    (s : SystemSettings)
    → IsInRange s
    → decode_settings (some (payload s)) ≡ ok (some (record s { raw = payload s }))
decode_settings-payload s fits = rw (normalize_bytes_self (payload s) 28 (length-payload s)) (
    indexed_lem 29 (payload s) _ (omega (arith, length-payload s))
    ∙ ap (λ t. ok (some t)) (settings_kept s fits))

-- Settings in range are decoded from the text that `encode_dp102` writes.
pub decode_dp102-encode_dp102 :
    (s : SystemSettings)
    → IsInRange s
    → decode_dp102 (str (encode_dp102 s)) ≡ ok (some (record s { raw = payload s }))
unfolding decode_dp102 encode_dp102
decode_dp102-encode_dp102 s fits =
    ap decode_settings (decode_raw_bytes-hex (payload s) true (All-payload s fits.bytes))
    ∙ decode_settings-payload s fits
