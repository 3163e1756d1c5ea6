-- ===== src/Tests/Maps.antt =====
-- The functions over DP maps, on concrete maps.
use pypopur.Prelude.{refl, ◌≡◌, true, [], arith, some, ◌∷◌, none, Option, ◌≢◌}
use pypopur.Prelude.Dict.{pop, IsDict, get, put}
use pypopur.Prelude.Eq.{string_Eq, nat_Eq, text_Eq}
use pypopur.Prelude.Int.{ℤ, pos}
use pypopur.Dp101.{contains, Dps, parse_report, encode_report, parse_from_dp_states, ParsedReport}
use pypopur.Dp101.Report.{parse_report-encode_report, canonical}
use pypopur.DpStates.{
  migrate_legacy_keys, control_of_value, reconcile_clean_control, apply_derived_fields,
  strip_legacy_keys, clean_control_from_dp_states, apply_to_map, reconciled_status,
}
use pypopur.DpStates.Apply.{apply_to_map-IsNormal}
use pypopur.DpStates.Idempotent.{apply_to_map_idem}
use pypopur.DpStates.Normal.{IsNormal, Same}
use pypopur.Dps.Report.{decode_dp101-parse_report, decode_dp101, as_run_mode}
use pypopur.Py.{ok, bool, str, bytes, null}
use pypopur.Py.Hex.{hex}
use pypopur.Py.Text.{codes}
use pypopur.RawBytes.{decode_to_bytes, decode_json_array_string}
use pypopur.RawBytes.Hex.{decode_to_bytes-hex}
use pypopur.Resolver.{cleaning_paused, merge_with_timestamps}
use pypopur.Resolver.Merge.{merge_with_timestamps_lem, Overlays}
use pypopur.Resolver.Status.{shown, control_status}
use mathlib.Core.Option

-- A paused report, a legacy key, and a DP 1 that is against it.
abbrev raw_map : Dps
raw_map =
    ("101", bytes (1 ∷ 2 ∷ 0 ∷ 0 ∷ 5 ∷ [])) ∷ ("24", str (codes "idle")) ∷ ("1", bool true) ∷ []

abbrev normal_map : Dps
normal_map =
    ("101", bytes (1 ∷ 1 ∷ 0 ∷ 0 ∷ 5 ∷ [])) ∷ ("1", bool true) ∷ ("126", str (codes "no_cat")) ∷ []

raw_map-run : apply_to_map raw_map ≡ ok normal_map
unfolding apply_to_map migrate_legacy_keys reconcile_clean_control clean_control_from_dp_states
    parse_report parse_from_dp_states decode_to_bytes encode_report get put pop contains
    reconciled_status strip_legacy_keys apply_derived_fields control_of_value
raw_map-run = refl

apply_to_map-IsNormal_example : IsNormal normal_map
apply_to_map-IsNormal_example = apply_to_map-IsNormal raw_map normal_map raw_map-run

apply_to_map_idem_example :
    (again : Dps) × (apply_to_map normal_map ≡ ok again) × Same again normal_map
apply_to_map_idem_example = apply_to_map_idem raw_map normal_map raw_map-run

abbrev cached_map : Dps
cached_map = ("102", null) ∷ ("101", str (codes "0100000000")) ∷ []

raw_map-IsDict : IsDict raw_map
unfolding get
raw_map-IsDict = (refl, (refl, (refl, tt)))

merge_with_timestamps_lem_example :
    (merged : Dps) × Overlays merged raw_map cached_map
    × ((t u : Option ℤ) → merge_with_timestamps raw_map cached_map t u ≡ apply_to_map merged)
merge_with_timestamps_lem_example =
    merge_with_timestamps_lem raw_map cached_map (λ e. cc) (λ e. cc) raw_map-IsDict

normal_control : get "1" normal_map ≡ some (bool true)
unfolding get
normal_control = refl

control_status_example : shown normal_map true ≢ cleaning_paused
control_status_example = control_status raw_map normal_map true true raw_map-run normal_control

abbrev report : ParsedReport
report = record {
  bin_status = codes "bin_full";
  running_status = codes "cleaning";
  machine_status = codes "hibernating";
  cat_presence = codes "cat_exist";
  countdown_minutes = pos 300;
}

parse_report-encode_report_example :
    parse_report (bytes (encode_report report)) ≡ some (canonical report)
parse_report-encode_report_example = parse_report-encode_report report

decode_to_bytes-hex_example :
    (decode_json_array_string (hex (0 ∷ 0x5b ∷ 0xff ∷ [])) ≡ none)
    × (decode_to_bytes (str (hex (0 ∷ 0x5b ∷ 0xff ∷ []))) ≡ some (0 ∷ 0x5b ∷ 0xff ∷ []))
decode_to_bytes-hex_example =
    decode_to_bytes-hex (0 ∷ 0x5b ∷ 0xff ∷ []) (omega arith, (omega arith, (omega arith, tt)))

report_bytes_run : decode_to_bytes (bytes (1 ∷ 2 ∷ 0 ∷ 0 ∷ 5 ∷ [])) ≡ some (1 ∷ 2 ∷ 0 ∷ 0 ∷ 5 ∷ [])
unfolding decode_to_bytes
report_bytes_run = refl

decode_dp101-parse_report_example :
    decode_dp101 (bytes (1 ∷ 2 ∷ 0 ∷ 0 ∷ 5 ∷ []))
    ≡ ok (Option.map as_run_mode (parse_report (bytes (1 ∷ 2 ∷ 0 ∷ 0 ∷ 5 ∷ []))))
decode_dp101-parse_report_example =
    decode_dp101-parse_report (bytes (1 ∷ 2 ∷ 0 ∷ 0 ∷ 5 ∷ [])) (1 ∷ 2 ∷ 0 ∷ 0 ∷ 5 ∷ [])
      report_bytes_run
