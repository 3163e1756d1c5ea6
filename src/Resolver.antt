-- ===== src/Resolver.antt =====
-- src/pypopur/app/resolver.py: merging the cloud's and the cached DP maps, and the status derived.
pub mod Merge
pub mod Status
use pypopur.Prelude.{
  ◌||◌, none, Bool, ◌∷◌, String, List, true, some, not, false, ℕ, [], ◌&&◌, Option, if◌then◌else◌,
  ◌==◌,
}
use pypopur.Prelude.Dict.{get, put, update}
use pypopur.Prelude.Eq.{text_eq, string_Eq}
use pypopur.Prelude.Int.{ℤ, ltb_ℤ, pos}
use pypopur.Dp101.{or_keep, contains, ParsedReport, parse_from_dp_states, get_value, Dps}
use pypopur.DpStates.{
  bin_status_from_dp_states, apply_to_map, machine_status_from_dp_states,
  countdown_minutes_from_dp_states, running_status_from_dp_states, is_none,
}
use pypopur.Py.{
  Exception, ok, Result, is_nonzero, Chars, raise, str, float, int, int_of_float, null, Value,
}
use pypopur.Py.Text.{int_of_text, codes, is_empty, is_hex_digits}
use pypopur.RawBytes.{matches_int}

pub data DeviceStatus : Type 0 where
  ready offline error self_checking do_not_disturb : DeviceStatus
  cleaning_in_progress cleaning_paused cleaning_to_start : DeviceStatus
  hibernating powered_off please_empty_bin : DeviceStatus

pub data DeviceBinStatus : Type 0 where
  nearly_empty half_empty almost_full bin_full bin_unfound bin_opened : DeviceBinStatus

-- `key in d`
has_key : String → Dps → Bool
has_key key d = not (is_none (get key d))

-- The loop of `merge_fill_missing` over the cached items.
fill_missing : Dps → Dps → Dps
unfolding has_key
fill_missing merged [] = merged
fill_missing merged ((key, value) ∷ cached) =
    fill_missing (if has_key key merged then merged else put key value merged) cached

pub merge_fill_missing : (cloud_dps cached_dps : Dps) → Result Exception Dps
merge_fill_missing cloud cached =
    if is_empty cloud then ok cached else apply_to_map (fill_missing cloud cached)

copy_one : Option Value → String → Dps → Dps
copy_one none key merged = merged
copy_one (some null) key merged = merged
copy_one (some v) key merged = put key v merged

-- The loop `for key in keys` that copies what the cloud has and is not `None`.
copy_keys : List String → Dps → Dps → Dps
unfolding copy_one
copy_keys [] cloud merged = merged
copy_keys (key ∷ keys) cloud merged = copy_keys keys cloud (copy_one (get key cloud) key merged)

abbrev pub critical_dp_keys : List String
critical_dp_keys =
    "125" ∷ "101" ∷ "1" ∷ "126" ∷ "102" ∷ "__dp102_setting_smooth__" ∷ "106" ∷ "110" ∷ []

abbrev completed_running_statuses : List Chars
completed_running_statuses =
    codes "manual_clean_completed"
    ∷ codes "scheduled_clean_completed"
    ∷ codes "auttomatic_clean_completed"
    ∷ []

later : Option ℤ → Option ℤ → Bool
later (some cloud) (some cached) = ltb_ℤ cached cloud
later _ _ = false

trust_reports : Option ParsedReport → Option ParsedReport → Bool
trust_reports (some cloud) (some cached) =
    ltb_ℤ (pos 0) cached.countdown_minutes && not (is_nonzero cloud.countdown_minutes)
    || contains completed_running_statuses cloud.running_status
      && ltb_ℤ (pos 0) cached.countdown_minutes
trust_reports _ _ = true

trust_cloud_101 : Dps → Dps → Option ℤ → Option ℤ → Bool
unfolding later trust_reports
trust_cloud_101 cloud cached cloud_timestamp cached_timestamp =
    later cloud_timestamp cached_timestamp
    || trust_reports (parse_from_dp_states cloud) (parse_from_dp_states cached)

pub merge_with_timestamps :
    (cloud_dps cached_dps : Dps)
    → (cloud_timestamp cached_timestamp : Option ℤ) → Result Exception Dps
merge_with_timestamps cloud cached cloud_timestamp cached_timestamp =
    let merged = update cached cloud in
    let trusted =
      if trust_cloud_101 cloud cached cloud_timestamp cached_timestamp
      then copy_keys ("101" ∷ "1" ∷ "126" ∷ []) cloud merged
      else merged in
    if is_empty cached
    then ok cloud
    else if is_empty cloud
    then ok cached
    else apply_to_map (copy_keys critical_dp_keys cloud trusted)

-- `Number`s but no Booleans; a text is hexadecimal first, then decimal.
matches_hex : Chars → Bool
matches_hex [] = false
matches_hex (c ∷ t) = if c == b'+' || c == b'-' then is_hex_digits t else is_hex_digits (c ∷ t)

to_long_or_null : ℕ → Chars → Option ℤ
unfolding matches_hex
to_long_or_null base t =
    if (if base == 16 then matches_hex t else matches_int t) then int_of_text base t else none

pub parse_fault_text : Chars → ℤ
unfolding to_long_or_null
parse_fault_text t = or_keep (to_long_or_null 16 t) (or_keep (to_long_or_null 10 t) (pos 0))

unfoldable pub parse_fault_value : Value → Result Exception ℤ
unfolding int_of_float
parse_fault_value (int z) = ok z
parse_fault_value (float x) = int_of_float x
parse_fault_value (str t) = ok (parse_fault_text t)
parse_fault_value _ = ok (pos 0)

pub fault_from_dp_states : Dps → Result Exception ℤ
unfolding parse_fault_value
fault_from_dp_states dps = parse_fault_value (get_value "125" dps)

-- `machine == …` and the like, where the value may be `None`.
pub is_text : Option Chars → String → Bool
is_text none s = false
is_text (some t) s = text_eq t (codes s)

pub status_of :
    (running machine : Option Chars)
    → (countdown : ℤ) → (bin_status : Option Chars) → (fault : ℤ) → DeviceStatus
unfolding is_text
status_of running machine countdown bin_status fault =
    if is_nonzero fault
    then error
    else if is_text machine "self_checking"
    then self_checking
    else if is_text machine "disturb_mode"
    then do_not_disturb
    else if is_text running "clean_start"
    then cleaning_in_progress
    else if is_text running "clean_pause"
    then cleaning_paused
    else if ltb_ℤ (pos 0) countdown
    then cleaning_to_start
    else if is_text machine "hibernating"
    then hibernating
    else if is_text machine "power_off"
    then powered_off
    else if is_text bin_status "bin_full"
    then please_empty_bin
    else ready

bin_model : Option Chars → DeviceBinStatus
unfolding is_text
bin_model b =
    if is_text b "bin_full"
    then bin_full
    else if is_text b "almost_full"
    then almost_full
    else if is_text b "near_empty"
    then nearly_empty
    else if is_text b "half_empty"
    then half_empty
    else if is_text b "unfound"
    then bin_unfound
    else if is_text b "bin_opned"
    then bin_opened
    else nearly_empty

-- `except Exception` answers `READY`.
status_or_ready : Dps → Result Exception ℤ → DeviceStatus × DeviceBinStatus
status_or_ready dps (raise e) = (ready, nearly_empty)
status_or_ready dps (ok fault) = (
  status_of (running_status_from_dp_states dps) (machine_status_from_dp_states dps)
      (countdown_minutes_from_dp_states dps) (bin_status_from_dp_states dps) fault,
  bin_model (bin_status_from_dp_states dps),
)

pub derive_status : Option Dps → Bool → DeviceStatus × DeviceBinStatus
unfolding status_or_ready
derive_status none online = (offline, nearly_empty)
derive_status (some dps) online =
    if not online then (offline, nearly_empty) else status_or_ready dps (fault_from_dp_states dps)
