-- ===== src/Dp101.antt =====
-- src/pypopur/app/dp101.py: the packed run-mode report and the DP map that carries it.
pub mod Report
use pypopur.Prelude.{
  ◌%◌, false, Bool, true, ℕ, ◌∷◌, String, Option, some, [], none, List, suc, get_or, if◌then◌else◌,
}
use pypopur.Prelude.Dict.{Dict, get}
use pypopur.Prelude.Eq.{text_eq, string_Eq}
use pypopur.Prelude.Int.{ℤ, pos, pos_part}
use pypopur.Models.{
  machine_status_values, bin_status_values, running_status_values, cat_presence_values,
}
use pypopur.Py.{min, str, Bytes, Value, or_null, max, Chars}
use pypopur.Py.Text.{is_empty, codes}
use pypopur.RawBytes.{decode_to_bytes}

abbrev pub Dps : Type 0
Dps = Dict String Value

pub record ParsedReport : Type 0 where
  pub bin_status : Chars
  pub running_status : Chars
  pub machine_status : Chars
  pub cat_presence : Chars
  pub countdown_minutes : ℤ

abbrev pub default_report : ParsedReport
default_report = record {
  bin_status = codes "near_empty";
  running_status = codes "idle";
  machine_status = codes "power_on";
  cat_presence = codes "no_cat";
  countdown_minutes = pos 0;
}

abbrev pub or_keep {ℓ} : {A : Type ℓ} → Option A → A → A
or_keep none old = old
or_keep (some new) old = new

-- `ParsedReport.copy`, its arguments in the source's order.
abbrev pub copy :
    ParsedReport
    → Option Chars
    → Option Chars
    → Option Chars
    → Option Chars
    → Option ℤ
    → ParsedReport
copy r bin_status running_status machine_status cat_presence countdown_minutes = record {
  bin_status = or_keep bin_status r.bin_status;
  running_status = or_keep running_status r.running_status;
  machine_status = or_keep machine_status r.machine_status;
  cat_presence = or_keep cat_presence r.cat_presence;
  countdown_minutes = or_keep countdown_minutes r.countdown_minutes;
}

-- `x in values`
unfoldable pub contains : List Chars → Chars → Bool
contains [] x = false
contains (v ∷ vs) x = if text_eq v x then true else contains vs x

unfoldable pub index : List Chars → Chars → Option ℕ
index [] x = none
index (v ∷ vs) x =
    if text_eq v x then some 0 else elim (index vs x) [ none ↦ none | some i ↦ some (suc i) ]

-- `values.index(x)`, with a default for the `ValueError`.
unfoldable pub index_or : List Chars → Chars → ℕ → ℕ
unfolding index
index_or values x fallback = or_keep (index values x) fallback

unfoldable pub value_at : List Chars → ℕ → Chars → Chars
value_at values i fallback = get_or values i fallback

unfoldable pub report_of_bytes : Bytes → Option ParsedReport
unfolding value_at
report_of_bytes (b0 ∷ b1 ∷ b2 ∷ b3 ∷ b4 ∷ rest) = some (record {
  bin_status = value_at bin_status_values b0 (codes "near_empty");
  running_status = value_at running_status_values b1 (codes "idle");
  machine_status = value_at machine_status_values b2 (codes "power_on");
  cat_presence = value_at cat_presence_values b3 (codes "no_cat");
  countdown_minutes = pos b4;
})
report_of_bytes _ = none

abbrev pub is_machine_status : Value → Bool
is_machine_status (str x) = contains machine_status_values x
is_machine_status _ = false

abbrev pub text_of : Value → Chars
text_of (str x) = x
text_of _ = []

unfoldable pub report_of_decoded : Option Bytes → Option ParsedReport
unfolding report_of_bytes
report_of_decoded none = none
report_of_decoded (some raw) = report_of_bytes raw

unfoldable pub parse_report : Value → Option ParsedReport
unfolding report_of_decoded
parse_report value =
    if is_machine_status value
    then some (copy default_report none none (some (text_of value)) none none)
    else report_of_decoded (decode_to_bytes value)

-- `dps.get(key)`
abbrev pub get_value : String → Dps → Value
get_value key dps = or_null (get key dps)

unfoldable pub parse_from_dp_states : Dps → Option ParsedReport
parse_from_dp_states dps = if is_empty dps then none else parse_report (get_value "101" dps)

unfoldable pub encode_report : ParsedReport → Bytes
unfolding index_or
encode_report report =
    index_or bin_status_values report.bin_status 1 % 256
    ∷ index_or running_status_values report.running_status 0 % 256
    ∷ index_or machine_status_values report.machine_status 0 % 256
    ∷ index_or cat_presence_values report.cat_presence 0 % 256
    ∷ pos_part (max (pos 0) (min report.countdown_minutes (pos 0xff)))
    ∷ []
