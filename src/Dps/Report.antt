-- ===== src/Dps/Report.antt =====
-- DP 101 in dps.py: the same five bytes as in app/dp101.py, with Base64 texts read as well.
use native.Mathlib.Nat.{mod-eq_of_lt}
use pypopur.Prelude.{
  inl, some, ap, Option, Bool, sym, arith, suc, false, refl, ◌∷◌, ◌∙◌, ◌%◌, ℕ, inr, zero, List,
  none, [], ◌≡◌, true, ◌<◌, length, get_or, Bool-cases, if◌then◌else◌, ltb,
}
use pypopur.Prelude.Int.{pos_part, pos, ℤ}
use pypopur.Codec.{decode_raw_bytes, clamp}
use pypopur.Dp101.{
  parse_report, encode_report, report_of_decoded, report_of_bytes, index_or, ParsedReport, contains,
  value_at,
}
use pypopur.Dp101.Report.{index_or_lt}
use pypopur.Dps.Payload.{byte, clamp_byte, indexed}
use pypopur.Models.{
  cat_presence_values, bin_status_values, machine_status_values, running_status_values,
}
use pypopur.Models.Settings.{RunModeReport}
use pypopur.Py.{
  Value, bool, int, Result, mapping, Exception, max, Chars, min, float, iterable, str, null, Bytes,
  object, ok, bytes,
}
use pypopur.Py.Hex.{hex}
use pypopur.Py.Text.{strip, lower, codes}
use pypopur.RawBytes.{decode_to_bytes}
use mathlib.Core.Option

-- `_enum_at(values, raw[i], default)` of the enumeration's texts.
unfoldable pub enum_at : List Chars → ℕ → Chars → Chars
enum_at values i fallback = if ltb i (length values) then get_or values i fallback else fallback

abbrev run_mode_of : Bytes → RunModeReport
run_mode_of raw = record {
  bin_status = enum_at bin_status_values (byte raw 0) (codes "near_empty");
  running_status = enum_at running_status_values (byte raw 1) (codes "idle");
  machine_status = enum_at machine_status_values (byte raw 2) (codes "power_on");
  cat_presence = enum_at cat_presence_values (byte raw 3) (codes "no_cat");
  countdown_minutes = pos (byte raw 4);
}

abbrev pub decode_run_mode : Option Bytes → Result Exception (Option RunModeReport)
decode_run_mode none = ok none
decode_run_mode (some raw) = if ltb (length raw) 5 then ok none else indexed 5 raw (run_mode_of raw)

-- `RunModeReport(machine_status=status)`, the other fields at their defaults.
abbrev pub run_mode_default : Chars → RunModeReport
run_mode_default status = record {
  bin_status = codes "near_empty";
  running_status = codes "idle";
  machine_status = status;
  cat_presence = codes "no_cat";
  countdown_minutes = pos 0;
}

-- `MachineStatus(value)` of a text; `none` is the `ValueError`, and any other value.
abbrev pub machine_status_of : Value → Option Chars
machine_status_of (str t) = if contains machine_status_values t then some t else none
machine_status_of _ = none

unfoldable pub decode_dp101 : Value → Result Exception (Option RunModeReport)
unfolding enum_at decode_raw_bytes
decode_dp101 value = elim (machine_status_of value) [
  | some status ↦ ok (some (run_mode_default status))
  | none ↦ decode_run_mode (decode_raw_bytes value true)
]

-- The report of app/dp101.py, as the one of models.py.
abbrev pub as_run_mode : ParsedReport → RunModeReport
as_run_mode r = record {
  bin_status = r.bin_status;
  running_status = r.running_status;
  machine_status = r.machine_status;
  cat_presence = r.cat_presence;
  countdown_minutes = r.countdown_minutes;
}

-- `CatPresence(value.strip().lower())` of a text.
unfoldable pub decode_dp126_cat_presence : Value → Option Chars
decode_dp126_cat_presence (str t) =
    let text = lower (strip t) in if contains cat_presence_values text then some text else none
decode_dp126_cat_presence _ = none

unfoldable pub encode_dp101 : RunModeReport → Chars
encode_dp101 report = hex (
    index_or bin_status_values report.bin_status 1
    ∷ index_or running_status_values report.running_status 0
    ∷ index_or machine_status_values report.machine_status 0
    ∷ index_or cat_presence_values report.cat_presence 0
    ∷ clamp_byte report.countdown_minutes (pos 0) (pos 255)
    ∷ [])

index_or-mod :
    (vs : List Chars) (x : Chars) (d : ℕ)
    → length vs < 256
    → d < 256
    → index_or vs x d % 256 ≡ index_or vs x d
index_or-mod vs x d small hd = mod-eq_of_lt (index_or_lt vs x d 256 small hd)

same_clamp : (z : ℤ) → pos_part (max (pos 0) (min z (pos 0xff))) ≡ clamp_byte z (pos 0) (pos 255)
unfolding clamp
same_clamp z = ground arith

-- Both encoders write the same five bytes.
pub encode_dp101-encode_report :
    (r : ParsedReport) → encode_dp101 (as_run_mode r) ≡ hex (encode_report r)
unfolding encode_dp101 encode_report
encode_dp101-encode_report r =
    rw
      (
        index_or-mod bin_status_values r.bin_status 1 (omega arith) (omega arith),
        index_or-mod running_status_values r.running_status 0 (omega arith) (omega arith),
        index_or-mod machine_status_values r.machine_status 0 (omega arith) (omega arith),
        index_or-mod cat_presence_values r.cat_presence 0 (omega arith) (omega arith),
        same_clamp r.countdown_minutes,
      )
      refl

decode_raw_bytes-some :
    (v : Value) (base64 : Bool) (raw : Bytes)
    → decode_to_bytes v ≡ some raw
    → decode_raw_bytes v base64 ≡ some raw
unfolding decode_raw_bytes
decode_raw_bytes-some v base64 raw h = rw (decode_raw_bytes, h) refl

get_or-outside :
    (values : List Chars) (i : ℕ) (d : Chars)
    → ltb i (length values) ≡ false
    → get_or values i d ≡ d
get_or-outside [] i d h = refl
get_or-outside (x ∷ values) zero d h = absurd (ground arith)
get_or-outside (x ∷ values) (suc i) d h = get_or-outside values i d (ground arith)

enum_at-value_at :
    (values : List Chars) (i : ℕ) (d : Chars) → enum_at values i d ≡ value_at values i d
unfolding enum_at value_at
enum_at-value_at values i d = elim (Bool-cases (ltb i (length values))) [
  | inl inside ↦ rw inside refl
  | inr outside ↦ rw outside (sym (get_or-outside values i d outside))
]

decode_run_mode_lem :
    (raw : Bytes) → decode_run_mode (some raw) ≡ ok (Option.map as_run_mode (report_of_bytes raw))
unfolding report_of_bytes
decode_run_mode_lem [] = refl
decode_run_mode_lem (a ∷ []) = refl
decode_run_mode_lem (a ∷ b ∷ []) = refl
decode_run_mode_lem (a ∷ b ∷ c ∷ []) = refl
decode_run_mode_lem (a ∷ b ∷ c ∷ d ∷ []) = refl
decode_run_mode_lem (a ∷ b ∷ c ∷ d ∷ e ∷ rest) =
    let long : ltb (length (a ∷ b ∷ c ∷ d ∷ e ∷ rest)) 5 ≡ false = ground arith in
    rw
      (
        long,
        enum_at-value_at bin_status_values a (codes "near_empty"),
        enum_at-value_at running_status_values b (codes "idle"),
        enum_at-value_at machine_status_values c (codes "power_on"),
        enum_at-value_at cat_presence_values d (codes "no_cat"),
      )
      refl

bytes_lem :
    (raw : Bytes) (w : Value)
    → decode_raw_bytes w true ≡ some raw
    → decode_to_bytes w ≡ some raw
    → decode_run_mode (decode_raw_bytes w true)
      ≡ ok (Option.map as_run_mode (report_of_decoded (decode_to_bytes w)))
unfolding report_of_decoded
bytes_lem raw w e g =
    ap decode_run_mode e
    ∙ decode_run_mode_lem raw
    ∙ sym (ap (λ o. ok (Option.map as_run_mode (report_of_decoded o))) g)

-- The decoder of dps.py reads every value that `decode_to_bytes` reads as `parse_report` of
-- app/dp101.py does: the same five fields, or nothing.
pub decode_dp101-parse_report :
    (v : Value) (raw : Bytes)
    → decode_to_bytes v ≡ some raw
    → decode_dp101 v ≡ ok (Option.map as_run_mode (parse_report v))
unfolding decode_dp101 parse_report contains
decode_dp101-parse_report v raw h = by_value v (decode_raw_bytes-some v true raw h) h
  where
    by_value :
        (w : Value)
        → decode_raw_bytes w true ≡ some raw
        → decode_to_bytes w ≡ some raw
        → decode_dp101 w ≡ ok (Option.map as_run_mode (parse_report w))
    by_value (str t) e g = elim (Bool-cases (contains machine_status_values t)) [
      | inl machine ↦ rw machine refl
      | inr other ↦ rw other (bytes_lem raw (str t) e g)
    ]
    by_value null e g = bytes_lem raw null e g
    by_value (bool b) e g = bytes_lem raw (bool b) e g
    by_value (int z) e g = bytes_lem raw (int z) e g
    by_value (float x) e g = bytes_lem raw (float x) e g
    by_value (bytes bs) e g = bytes_lem raw (bytes bs) e g
    by_value (iterable vs) e g = bytes_lem raw (iterable vs) e g
    by_value mapping e g = bytes_lem raw mapping e g
    by_value object e g = bytes_lem raw object e g
