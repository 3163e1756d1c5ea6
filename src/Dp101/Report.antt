-- ===== src/Dp101/Report.antt =====
-- What a report becomes on the wire, and what the decoder makes of any five bytes.
use native.Mathlib.Nat.{mod-eq_of_lt}
use pypopur.Prelude.{
  Option, [], ◌∷◌, none, suc, arith, false, ◌⊎◌, ◌%◌, refl, inr, List, true, some, zero, inl, ◌<◌,
  ◌≡◌, ℕ, get_or, length, Option-cases, Bool-cases, if◌then◌else◌,
}
use pypopur.Prelude.Eq.{text_eq_iff}
use pypopur.Prelude.Int.{pos, ℤ, pos_part}
use pypopur.Dp101.{
  index, contains, parse_report, value_at, is_machine_status, encode_report, ParsedReport, index_or,
  report_of_bytes, report_of_decoded,
}
use pypopur.Models.{
  bin_status_values, cat_presence_values, machine_status_values, running_status_values,
}
use pypopur.Py.{Bytes, max, min, Value, bytes, Chars}
use pypopur.Py.Text.{codes}
use pypopur.RawBytes.{decode_to_bytes}

-- A value that is in the table is found again at its index.
get_or-index :
    (vs : List Chars) (x f : Chars) (i : ℕ)
    → index vs x ≡ some i
    → (get_or vs i f ≡ x) × (i < length vs) × (contains vs x ≡ true)
unfolding index contains
get_or-index [] x f i h = cc
get_or-index (v ∷ vs) x f zero h = ground (arith, text_eq_iff v x)
get_or-index (v ∷ vs) x f (suc i) h = ground (arith, get_or-index vs x f i)

index-none : (vs : List Chars) (x : Chars) → index vs x ≡ none → contains vs x ≡ false
unfolding index contains
index-none [] x h = refl
index-none (v ∷ vs) x h = ground (arith, index-none vs x)

pub index_or_lt :
    (vs : List Chars) (x : Chars) (d bound : ℕ)
    → length vs < bound
    → d < bound
    → index_or vs x d < bound
unfolding index_or
index_or_lt vs x d bound small hd = elim (Option-cases (index vs x)) [
  | inl e ↦ rw e hd
  | inr (i, e) ↦ rw e (omega (arith, (get_or-index vs x x i e).1))
]

-- A table of fewer than 256 values, written as a byte and read back.
value_at-index_or :
    (vs : List Chars) (x f : Chars) (d : ℕ)
    → length vs < 256
    → d < 256
    → value_at vs (index_or vs x d % 256) f ≡ (if contains vs x then x else get_or vs d f)
unfolding index_or value_at
value_at-index_or vs x f d small hd = elim (Option-cases (index vs x)) [
  | inl e ↦ rw (e, index-none vs x e, mod-eq_of_lt hd)
  | inr (i, e) ↦
      let (found, below, known) = get_or-index vs x f i e in
      let fits : i < 256 = omega arith in rw (e, known, mod-eq_of_lt fits) found
]

abbrev pub known_or : List Chars → Chars → Chars → Chars
known_or vs x d = if contains vs x then x else d

-- A report with each unknown status replaced and the countdown held in a byte.
abbrev pub canonical : ParsedReport → ParsedReport
canonical r = record {
  bin_status = known_or bin_status_values r.bin_status (codes "near_empty");
  running_status = known_or running_status_values r.running_status (codes "idle");
  machine_status = known_or machine_status_values r.machine_status (codes "power_on");
  cat_presence = known_or cat_presence_values r.cat_presence (codes "no_cat");
  countdown_minutes = max (pos 0) (min r.countdown_minutes (pos 0xff));
}

clamped_pos :
    (z : ℤ) → pos (pos_part (max (pos 0) (min z (pos 0xff)))) ≡ max (pos 0) (min z (pos 0xff))
clamped_pos z = ground arith

-- What `encode_report` writes, `parse_report` reads as the canonical report.
pub parse_report-encode_report :
    (r : ParsedReport) → parse_report (bytes (encode_report r)) ≡ some (canonical r)
unfolding parse_report encode_report decode_to_bytes
parse_report-encode_report r = rw (
  value_at-index_or bin_status_values r.bin_status (codes "near_empty") 1 (omega arith)
      (omega arith),
  value_at-index_or running_status_values r.running_status (codes "idle") 0 (omega arith)
      (omega arith),
  value_at-index_or machine_status_values r.machine_status (codes "power_on") 0 (omega arith)
      (omega arith),
  value_at-index_or cat_presence_values r.cat_presence (codes "no_cat") 0 (omega arith)
      (omega arith),
  clamped_pos r.countdown_minutes,
)

get_or_known :
    (vs : List Chars) (f : Chars) (i : ℕ)
    → (contains vs (get_or vs i f) ≡ true) ⊎ (get_or vs i f ≡ f)
unfolding contains
get_or_known [] f i = inr refl
get_or_known (v ∷ vs) f zero = ground (arith, text_eq_iff v v)
get_or_known (v ∷ vs) f (suc i) = ground (arith, get_or_known vs f i)

known_or-value_at :
    (vs : List Chars) (f : Chars) (i : ℕ) → known_or vs (value_at vs i f) f ≡ value_at vs i f
unfolding value_at
known_or-value_at vs f i = elim (get_or_known vs f i) [
  | inl known ↦ rw known
  | inr default ↦ rw default (ground arith)
]

abbrev CatKnown : Option ParsedReport → Type 0
CatKnown none = Unit
CatKnown (some r) = known_or cat_presence_values r.cat_presence (codes "no_cat") ≡ r.cat_presence

report_of_bytes-CatKnown : (bs : Bytes) → CatKnown (report_of_bytes bs)
unfolding report_of_bytes
report_of_bytes-CatKnown (a ∷ b ∷ c ∷ d ∷ e ∷ bs) =
    known_or-value_at cat_presence_values (codes "no_cat") d
report_of_bytes-CatKnown _ = tt

report_of_decoded-CatKnown : (bs : Option Bytes) → CatKnown (report_of_decoded bs)
unfolding report_of_decoded
report_of_decoded-CatKnown none = tt
report_of_decoded-CatKnown (some bs) = report_of_bytes-CatKnown bs

parse_report-CatKnown : (v : Value) → CatKnown (parse_report v)
unfolding parse_report contains
parse_report-CatKnown v = elim (Bool-cases (is_machine_status v)) [
  | inl machine ↦ rw machine refl
  | inr other ↦ rw other (report_of_decoded-CatKnown (decode_to_bytes v))
]

-- The cat presence of a decoded report is one of the four.
pub parse_report_cat_known :
    (v : Value) (r : ParsedReport)
    → parse_report v ≡ some r
    → known_or cat_presence_values r.cat_presence (codes "no_cat") ≡ r.cat_presence
parse_report_cat_known v r h = rw h at (parse_report-CatKnown v)
