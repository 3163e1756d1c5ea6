-- ===== src/DpStates.antt =====
-- src/pypopur/app/dp101.py: the functions over the DP map, in the source's order.
pub mod Normal
pub mod Idempotent
pub mod Apply
use pypopur.Prelude.{◌∷◌, true, some, [], Option, Bool, none, not, ◌&&◌, false, ◌||◌, if◌then◌else◌}
use pypopur.Prelude.Dict.{pop, put}
use pypopur.Prelude.Eq.{text_eq, string_Eq}
use pypopur.Prelude.Int.{pos, ℤ}
use pypopur.Dp101.{
  encode_report, contains, copy, get_value, or_keep, default_report, parse_report, ParsedReport,
  Dps, is_machine_status, parse_from_dp_states,
}
use pypopur.Py.{
  is_nonzero, Chars, Value, int, bool, Exception, float, bytes, int_of_float, str, ok, Result,
  ◌>>=◌,
}
use pypopur.Py.Text.{codes, is_empty, lower}
use pypopur.RawBytes.{decode_to_bytes}

unfoldable pub running_status_from_dp_states : Dps → Option Chars
running_status_from_dp_states dps = elim (parse_from_dp_states dps) [
  | none ↦ none
  | some r ↦ some r.running_status
]

unfoldable pub machine_status_from_dp_states : Dps → Option Chars
machine_status_from_dp_states dps = elim (parse_from_dp_states dps) [
  | none ↦ none
  | some r ↦ some r.machine_status
]

unfoldable pub bin_status_from_dp_states : Dps → Option Chars
bin_status_from_dp_states dps = elim (parse_from_dp_states dps) [
  | none ↦ none
  | some r ↦ some r.bin_status
]

unfoldable pub cat_presence_from_dp_states : Dps → Option Chars
cat_presence_from_dp_states dps = elim (parse_from_dp_states dps) [
  | none ↦ none
  | some r ↦ some r.cat_presence
]

unfoldable pub countdown_minutes_from_dp_states : Dps → ℤ
countdown_minutes_from_dp_states dps = elim (parse_from_dp_states dps) [
  | none ↦ pos 0
  | some r ↦ r.countdown_minutes
]

-- The truth of DP 1, `none` where it has none; `int` of a float may raise.
unfoldable pub control_of_value : Value → Result Exception (Option Bool)
control_of_value (bool b) = ok (some b)
control_of_value (int z) = ok (some (is_nonzero z))
control_of_value (float x) = do z ← int_of_float x; ok (some (is_nonzero z))
control_of_value (str t) = ok (some (text_eq (lower t) (codes "true") || text_eq t (codes "1")))
control_of_value _ = ok none

unfoldable pub clean_control_from_dp_states : Dps → Result Exception (Option Bool)
unfolding control_of_value
clean_control_from_dp_states dps =
    if is_empty dps then ok none else control_of_value (get_value "1" dps)

unfoldable pub strip_legacy_keys : Dps → Dps
strip_legacy_keys dps = pop "18" (pop "24" dps)

abbrev as_str : Value → Option Chars
as_str (str t) = some t
as_str _ = none

abbrev as_int : Value → Option ℤ
as_int (int z) = some z
as_int _ = none

abbrev pub is_none {ℓ} : {A : Type ℓ} → Option A → Bool
is_none none = true
is_none (some a) = false

-- The machine status, if it is one of the four.
abbrev known_machine : Value → Option Chars
known_machine v = if is_machine_status v then as_str v else none

abbrev legacy_report : Dps → ParsedReport
legacy_report dps = record {
  bin_status = or_keep (as_str (get_value "122" dps)) default_report.bin_status;
  running_status = or_keep (as_str (get_value "24" dps)) default_report.running_status;
  machine_status = or_keep (known_machine (get_value "101" dps)) default_report.machine_status;
  cat_presence = or_keep (as_str (get_value "126" dps)) default_report.cat_presence;
  countdown_minutes = or_keep (as_int (get_value "18" dps)) default_report.countdown_minutes;
}

unfoldable pub migrate_legacy_keys : Dps → Dps
unfolding strip_legacy_keys
migrate_legacy_keys dps =
    let nothing_old =
      is_none (as_str (get_value "24" dps))
      && not (is_machine_status (get_value "101" dps))
      && is_none (as_int (get_value "18" dps)) in
    if not (is_none (decode_to_bytes (get_value "101" dps)))
    then strip_legacy_keys dps
    else if nothing_old
    then strip_legacy_keys dps
    else strip_legacy_keys (put "101" (bytes (encode_report (legacy_report dps))) dps)

unfoldable pub apply_derived_fields : Dps → ParsedReport → Dps
apply_derived_fields dps report = put "126" (str report.cat_presence) dps

-- The running status that DP 1 asks for, if the report's disagrees with it.
unfoldable pub reconciled_status : Bool → Chars → Option Chars
reconciled_status control running =
    if control && text_eq running (codes "clean_pause")
    then some (codes "clean_start")
    else if not control && text_eq running (codes "clean_start")
    then some (codes "clean_pause")
    else none

pub write_report : Dps → ParsedReport → Option Chars → Dps
unfolding apply_derived_fields
write_report dps report none = dps
write_report dps report (some running) =
    let report' = copy report none (some running) none none none in
    apply_derived_fields (put "101" (bytes (encode_report report')) dps) report'

pub reconcile_with : Dps → Bool → Option ParsedReport → Dps
unfolding write_report reconciled_status
reconcile_with dps control none = dps
reconcile_with dps control (some report) =
    write_report dps report (reconciled_status control report.running_status)

unfoldable pub reconcile_clean_control : Dps → Result Exception Dps
unfolding reconcile_with
reconcile_clean_control dps = do
  control ← clean_control_from_dp_states dps
  elim control [
    | none ↦ ok dps
    | some c ↦
        let dps' = put "1" (bool c) dps in ok (reconcile_with dps' c (parse_from_dp_states dps'))
  ]

pub apply_report : Dps → Option ParsedReport → Result Exception Dps
unfolding apply_derived_fields strip_legacy_keys
apply_report dps none = ok (pop "122" (strip_legacy_keys dps))
apply_report dps (some report) =
    let packed =
      if is_none (decode_to_bytes (get_value "101" dps))
      then put "101" (bytes (encode_report report)) dps
      else dps in
    reconcile_clean_control (pop "122" (strip_legacy_keys (apply_derived_fields packed report)))

unfoldable pub apply_to_map : Dps → Result Exception Dps
unfolding apply_report
apply_to_map dps =
    let dps' = migrate_legacy_keys dps in apply_report dps' (parse_report (get_value "101" dps'))

unfoldable pub normalized_copy : Dps → Result Exception Dps
normalized_copy dps = if is_empty dps then ok dps else apply_to_map dps

-- The changes in the source's order of parameters.
unfoldable pub patch_dp_states :
    Dps
    → (running_status machine_status : Option Chars) → (countdown_minutes : Option ℤ)
    → (bin_status cat_presence : Option Chars) → Dps
patch_dp_states dps running_status machine_status countdown_minutes bin_status cat_presence =
    let base = or_keep (parse_from_dp_states dps) default_report in
    let patched =
      copy base bin_status running_status machine_status cat_presence countdown_minutes in
    apply_derived_fields (strip_legacy_keys (put "101" (bytes (encode_report patched)) dps)) patched

abbrev is_pending_action : Chars → Bool
is_pending_action a =
    contains (codes "start_cleaning" ∷ codes "continue_cleaning" ∷ codes "pause_cleaning" ∷ []) a

abbrev is_status : Option Chars → Chars → Bool
is_status none x = false
is_status (some s) x = text_eq s x

abbrev put_control : Option Bool → Dps → Dps
put_control none dps = dps
put_control (some c) dps = put "1" (bool c) dps

pub pending_control : Chars → Dps → Result Exception (Option Bool)
pending_control action snapshot =
    if text_eq action (codes "start_cleaning") || text_eq action (codes "continue_cleaning")
    then ok (some true)
    else if text_eq action (codes "pause_cleaning")
    then ok (some false)
    else clean_control_from_dp_states snapshot

pub pending_countdown : Chars → Option ParsedReport → ℤ
pending_countdown action report =
    if text_eq action (codes "continue_cleaning")
    then pos 0
    else elim report [ none ↦ pos 0 | some r ↦ r.countdown_minutes ]

abbrev pub field {ℓ} : {A : Type ℓ} → (ParsedReport → A) → Option ParsedReport → Option A
field f none = none
field f (some r) = some (f r)

unfoldable pub merge_during_pending_cleaning_action :
    (incoming snapshot : Dps) (pending_action expected_running_status : Chars)
    → Result Exception Dps
unfolding pending_control pending_countdown
merge_during_pending_cleaning_action incoming snapshot action expected =
    let running = running_status_from_dp_states incoming in
    let report = parse_from_dp_states snapshot in
    if is_empty incoming
    then ok incoming
    else if not (is_pending_action action)
    then ok incoming
    else if is_status running expected
    then ok incoming
    else if text_eq expected (codes "clean_start") && is_status running (codes "clean_pause")
    then ok incoming
    else do
      control ← pending_control action snapshot
      apply_to_map (
          put_control control (
            patch_dp_states incoming (some expected) (field (λ r. r.machine_status) report)
              (some (pending_countdown action report)) (field (λ r. r.bin_status) report)
              (field (λ r. r.cat_presence) report)))
