-- ===== src/DpStates/Apply.antt =====
-- `apply_to_map` ends in a normal map, and a normal map is left as it is.
-- Every map that `f` returns, if it returns, is normal.
use pypopur.Prelude.{inr, Option, some, none, ap, Bool, sym, ◌≡◌, inl, refl, false, Bool-cases}
use pypopur.Prelude.Dict.{get-put, get-pop, put, pop}
use pypopur.Prelude.Eq.{string_Eq}
use pypopur.Dp101.{ParsedReport, get_value, Dps, parse_report, encode_report, parse_from_dp_states}
use pypopur.Dp101.Report.{canonical, parse_report_cat_known, known_or, parse_report-encode_report}
use pypopur.DpStates.{
  strip_legacy_keys, apply_derived_fields, control_of_value, apply_report, reconcile_clean_control,
  reconcile_with, apply_to_map, migrate_legacy_keys, is_none,
}
use pypopur.DpStates.Normal.{
  IsClean_lem, IsClean, parse_from_dp_states_lem, reconcile_with-IsNormal, Reports,
  get-strip_legacy_keys, IsNormal, clean_control_lem,
}
use pypopur.Models.{cat_presence_values}
use pypopur.Py.{◌>>=◌, bytes, raise, bool, str, ok, Exception, Chars, Result}
use pypopur.Py.Text.{codes}
use pypopur.RawBytes.{decode_to_bytes}

abbrev ReturnsNormal : Result Exception Dps → Type 0
ReturnsNormal (ok d) = IsNormal d
ReturnsNormal (raise e) = Unit

reconcile_clean_control-normal :
    (d : Dps) (r : ParsedReport)
    → IsClean d
    → Reports d r
    → ReturnsNormal (reconcile_clean_control d)
unfolding reconcile_clean_control
reconcile_clean_control-normal d r clean reports =
    rw clean_control_lem (by_control (control_of_value (get_value "1" d)) refl)
  where
    by_control :
        (c : Result Exception (Option Bool))
        → control_of_value (get_value "1" d) ≡ c
        → ReturnsNormal (
            c >>= λ o. elim o [
              | none ↦ ok d
              | some b ↦
                  let d' = put "1" (bool b) d in ok (reconcile_with d' b (parse_from_dp_states d'))
            ])
    by_control (raise e) h = tt
    by_control (ok none) h = (clean, inr (r, reports, inl h))
    by_control (ok (some b)) h =
        rw (parse_from_dp_states_lem, get-put, reports.parsed)
          (reconcile_with-IsNormal d r clean reports b)

abbrev derived : Dps → ParsedReport → Dps
derived d r = pop "122" (strip_legacy_keys (apply_derived_fields d r))

get-derived : (d : Dps) (r : ParsedReport) → get_value "101" (derived d r) ≡ get_value "101" d
unfolding apply_derived_fields
get-derived d r = simp (get-pop, get-strip_legacy_keys, get-put)

-- DP 126 is derived from the report; DP 101 is left alone.
Reports-derived :
    (d : Dps) (r q : ParsedReport)
    → parse_report (get_value "101" d) ≡ some q
    → is_none (decode_to_bytes (get_value "101" d)) ≡ false
    → known_or cat_presence_values r.cat_presence (codes "no_cat") ≡ r.cat_presence
    → q.cat_presence ≡ r.cat_presence
    → Reports (derived d r) q
Reports-derived d r q parsed packed known same = record {
  parsed = rw get-derived parsed;
  packed = rw get-derived packed;
  cat =
      unfold apply_derived_fields in
      simp (get-pop, get-strip_legacy_keys, get-put) (ap (λ (t : Chars). some (str t)) (sym same));
  cat_known = rw same known;
}

apply_report-normal :
    (d : Dps) (o : Option ParsedReport)
    → parse_report (get_value "101" d) ≡ o
    → ReturnsNormal (apply_report d o)
unfolding apply_report
apply_report-normal d none h = (IsClean_lem d, inl (simp get-pop h))
apply_report-normal d (some r) h =
    elim (Bool-cases (is_none (decode_to_bytes (get_value "101" d)))) [
      | inl bare ↦ rw bare (
          reconcile_clean_control-normal _ (canonical r) (IsClean_lem _) (
            Reports-derived (put "101" (bytes (encode_report r)) d) r (canonical r)
              (rw get-put (parse_report-encode_report r))
              (unfold decode_to_bytes in rw get-put refl) known known))
      | inr packed ↦ rw packed (
          reconcile_clean_control-normal _ r (IsClean_lem _)
            (Reports-derived d r r h packed known refl))
    ]
  where
    known : known_or cat_presence_values r.cat_presence (codes "no_cat") ≡ r.cat_presence
    known = parse_report_cat_known _ r h

-- Whatever map `apply_to_map` is given, what it returns is normal: DPs 24, 18 and 122 are gone, and
-- DP 101 either has no report, or is packed, agrees with DP 126, and agrees with DP 1.
pub apply_to_map-IsNormal : (dps dps' : Dps) → apply_to_map dps ≡ ok dps' → IsNormal dps'
unfolding apply_to_map
apply_to_map-IsNormal dps dps' h = rw h at (apply_report-normal (migrate_legacy_keys dps) _ refl)
