-- ===== src/Dps/Snapshot.antt =====
-- `decode_snapshot`: everything that is known of a device, from one DP map.
pub mod Total
use pypopur.Prelude.{ℕ, List, Option, some, none}
use pypopur.Prelude.Dict.{get}
use pypopur.Prelude.Int.{ℤ, pos}
use pypopur.Dps.Dustbin.{decode_dp104}
use pypopur.Dps.Keys.{decode_dp105}
use pypopur.Dps.Notifications.{
  RawDps, NotificationSettings, decode_notification_settings, normalize_dp_mapping, dp, DpKey_Eq,
}
use pypopur.Dps.Report.{decode_dp101, decode_dp126_cat_presence}
use pypopur.Dps.Scalars.{
  decode_dp22, RecentActivity, FaultItem, decode_int_scalar, decode_numeric_scalar, decode_dp106,
  Number, decode_dp125, decode_dp125_value,
}
use pypopur.Dps.Schedule.{decode_dp103}
use pypopur.Dps.System.{decode_dp102}
use pypopur.Models.Settings.{
  DustbinSettings, SystemSettings, TimePowerSettings, SelfCheckStatus, RunModeReport, KeySettings,
}
use pypopur.Py.{int, Chars, Exception, or_null, Result, ok, ◌>>=◌, Value, Float}

pub record DeviceSnapshot : Type 0 where
  pub raw_dps : RawDps
  pub run_mode : Option RunModeReport
  pub machine_status : Option Chars
  pub cat_presence : Option Chars
  pub system_settings : Option SystemSettings
  pub time_power : Option TimePowerSettings
  pub dustbin : Option DustbinSettings
  pub key_settings : Option KeySettings
  pub self_check : Option SelfCheckStatus
  pub self_check_fault_value : ℤ
  pub self_check_faults : List FaultItem
  pub recent_activity : Option RecentActivity
  pub notifications : NotificationSettings
  pub cat_weight : Option Number
  pub daily_clean_count : Option ℤ
  pub clean_duration : Option ℤ
  pub automatic_clean_count : Option ℤ
  pub scheduled_clean_count : Option ℤ
  pub manual_clean_count : Option ℤ
  pub total_use_time : Option ℤ
  pub clean_count_after_full : Option ℤ
  pub fault_free_time : Option ℤ
  pub total_clean_count : Option ℤ
  pub cat_toilet_time : Option ℤ

-- `raw.get(n)`
abbrev pub raw_value : RawDps → ℕ → Value
raw_value raw n = or_null (get (dp (pos n)) raw)

abbrev presence_of : Option RunModeReport → Value → Option Chars
presence_of (some report) value = some report.cat_presence
presence_of none value = decode_dp126_cat_presence value

abbrev machine_of : Option RunModeReport → Option Chars
machine_of (some report) = some report.machine_status
machine_of none = none

module _ (float_of_text : Chars → Option Float) where
  unfoldable pub decode_snapshot : RawDps → Result Exception DeviceSnapshot
  decode_snapshot dps =
      let raw = normalize_dp_mapping dps in
      let count = λ (n : ℕ). decode_int_scalar float_of_text (raw_value raw n) in
      do
        fault_value ← decode_dp125_value (raw_value raw 125)
        run_mode ← decode_dp101 (raw_value raw 101)
        system_settings ← decode_dp102 (raw_value raw 102)
        time_power ← decode_dp103 (raw_value raw 103)
        dustbin ← decode_dp104 (raw_value raw 104)
        key_settings ← decode_dp105 (raw_value raw 105)
        self_check ← decode_dp106 (raw_value raw 106)
        faults ← decode_dp125 (int fault_value)
        notifications ← decode_notification_settings raw
        ok (record {
          raw_dps = raw;
          run_mode = run_mode;
          machine_status = machine_of run_mode;
          cat_presence = presence_of run_mode (raw_value raw 126);
          system_settings = system_settings;
          time_power = time_power;
          dustbin = dustbin;
          key_settings = key_settings;
          self_check = self_check;
          self_check_fault_value = fault_value;
          self_check_faults = faults;
          recent_activity = decode_dp22 (raw_value raw 22);
          notifications = notifications;
          cat_weight = decode_numeric_scalar float_of_text (raw_value raw 6);
          daily_clean_count = count 7;
          clean_duration = count 8;
          automatic_clean_count = count 12;
          scheduled_clean_count = count 15;
          manual_clean_count = count 19;
          total_use_time = count 116;
          clean_count_after_full = count 146;
          fault_free_time = count 150;
          total_clean_count = count 152;
          cat_toilet_time = count 154;
        })
