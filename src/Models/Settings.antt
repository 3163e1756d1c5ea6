-- ===== src/Models/Settings.antt =====
-- src/pypopur/models.py: the settings that the packed data points hold.
use pypopur.Prelude.{Bool, ℕ}
use pypopur.Prelude.Int.{ℤ}
use pypopur.Py.{Bytes, Chars}

pub record RunModeReport : Type 0 where
  pub bin_status : Chars
  pub running_status : Chars
  pub machine_status : Chars
  pub cat_presence : Chars
  pub countdown_minutes : ℤ

pub record ActiveShieldSettings : Type 0 where
  pub anti_interference : Bool
  pub sensitivity : ℤ
  pub range : ℤ

pub record WeightFunctionSettings : Type 0 where
  pub automatic : Bool
  pub sentinel : Bool
  pub caring : Bool
  pub track_pet_data : Bool

pub record DetailedNotificationSettings : Type 0 where
  pub self_check_enabled : Bool
  pub bin_full_enabled : Bool
  pub manual_cleaning_enabled : Bool
  pub scheduled_cleaning_enabled : Bool
  pub automatic_cleaning_enabled : Bool
  pub cleaning_started_enabled : Bool
  pub pet_finished_enabled : Bool
  pub pet_detected_enabled : Bool

pub record DetailedNotificationExtSettings : Type 0 where
  pub new_firmware_enabled : Bool
  pub pet_left_without_business_enabled : Bool
  pub cleaning_paused_enabled : Bool
  pub cleaning_resumed_enabled : Bool

pub record PanelToggles : Type 0 where
  pub status_light_enabled : Bool
  pub buzzer_enabled : Bool
  pub pro_commands_enabled : Bool

pub record SpinSettings : Type 0 where
  pub auto_power_cycle : Bool
  pub lower_speed : Bool
  pub reshuffle_enabled : Bool
  pub reshuffle_oscillation : Chars
  pub auto_self_check : Bool

pub record SystemSettings : Type 0 where
  pub active_shield : ActiveShieldSettings
  pub delay_minutes : ℤ
  pub smooth_spread_count : ℤ
  pub timezone_offset_hours : ℤ
  pub device_color : Chars
  pub detailed_notifications : DetailedNotificationSettings
  pub notification_master_enabled : Bool
  pub panel : PanelToggles
  pub weight_functions : WeightFunctionSettings
  pub spin : SpinSettings
  pub detailed_notifications_ext : DetailedNotificationExtSettings
  pub raw : Bytes

pub record TimerSlice : Type 0 where
  pub enabled : Bool
  pub repeat_mask : ℤ
  pub hour : ℤ
  pub minute : ℤ

pub record TimePowerSettings : Type 0 where
  pub power_on : TimerSlice
  pub power_off : TimerSlice
  pub hibernate_start : Bool
  pub hibernate_duration_minutes : ℤ

pub record DustbinToggles : Type 0 where
  pub bin_full_detection : Bool
  pub allow_overfill : Bool
  pub keep_upright : Bool
  pub dump_override : Bool
  pub block_on_full : Bool

-- `CalibrationLevel` is the integer that it is a name of.
pub record DustbinSettings : Type 0 where
  pub toggles : DustbinToggles
  pub calibration : ℤ
  pub cycle_count : ℤ
  pub raw : Bytes

pub record KeyGesture : Type 0 where
  pub enabled : Bool
  pub function : ℤ

pub record KeySettings : Type 0 where
  pub lock_mask : ℕ
  pub press : KeyGesture
  pub hold_3s : KeyGesture
  pub hold_7s : KeyGesture

pub record SelfCheckStatus : Type 0 where
  pub progress : ℤ
  pub raw : Bytes
