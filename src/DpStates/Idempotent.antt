-- ===== src/DpStates/Idempotent.antt =====
-- A normal map is a fixed point of `apply_to_map`, as far as lookups can tell.
use pypopur.Prelude.{none, refl, arith, false, some, inl, ◌≡◌, inr, String, Bool-cases}
use pypopur.Prelude.Dict.{get, get-put, pop, get-pop, put}
use pypopur.Prelude.Eq.{string_Eq}
use pypopur.Dp101.{
  parse_report, parse_from_dp_states, ParsedReport, Dps, is_machine_status, get_value,
}
use pypopur.DpStates.{
  reconcile_clean_control, apply_to_map, strip_legacy_keys, write_report, control_of_value,
  reconcile_with, apply_report, migrate_legacy_keys, is_none, apply_derived_fields,
}
use pypopur.DpStates.Apply.{apply_to_map-IsNormal}
use pypopur.DpStates.Normal.{
  IsClean, clean_control_lem, parse_from_dp_states_lem, Same, IsNormal, Reports, Settled,
  reconciled_status-settled,
}
use pypopur.Py.{Value, bool, Exception, Result, ok}
use pypopur.RawBytes.{decode_to_bytes}

Same-pop : (k : String) (a b : Dps) → get k b ≡ none → Same a b → Same (pop k a) b
Same-pop k a b absent same j = ground (arith, get-pop k j a, string_Eq.beq_iff k j, same j, absent)

Same-put : (k : String) (v : Value) (a b : Dps) → get k b ≡ some v → Same a b → Same (put k v a) b
Same-put k v a b there same j =
    ground (arith, get-put k j v a, string_Eq.beq_iff k j, same j, there)

module _ (d : Dps) (clean : IsClean d) where
  Same-strips : (e : Dps) → Same e d → Same (strip_legacy_keys e) d
  unfolding strip_legacy_keys
  Same-strips e same = Same-pop "18" _ d clean.no_18 (Same-pop "24" _ d clean.no_24 same)

Same-strip : (d : Dps) → IsClean d → Same (strip_legacy_keys d) d
Same-strip d clean = Same-strips d clean d (λ k. refl)

-- Nothing is left to migrate.
migrate_normal : (d : Dps) → IsNormal d → migrate_legacy_keys d ≡ strip_legacy_keys d
unfolding migrate_legacy_keys
migrate_normal d (clean, inr (r, reports, s)) = rw reports.packed
migrate_normal d (clean, inl no_report) =
    rw (clean.no_24, clean.no_18, no_machine)
      (elim (Bool-cases (is_none (decode_to_bytes (get_value "101" d)))) [
        | inl e ↦ rw e
        | inr e ↦ rw e
      ])
  where
    no_machine : is_machine_status (get_value "101" d) ≡ false
    no_machine = unfold parse_report in ground arith

-- `m` returns, and what it returns looks like `d`.
abbrev ReturnsSame : Dps → Result Exception Dps → Type 0
ReturnsSame d m = (d' : Dps) × (m ≡ ok d') × Same d' d

module _ (d e : Dps) (r : ParsedReport) (reports : Reports d r) (same : Same e d) where
  parsed_again : parse_from_dp_states e ≡ some r
  parsed_again = rw (parse_from_dp_states_lem, same "101") reports.parsed

  reconcile-Settled : Settled d r → ReturnsSame d (reconcile_clean_control e)
  unfolding reconcile_clean_control reconcile_with write_report control_of_value
  reconcile-Settled (inl no_control) = rw (clean_control_lem, same "1", no_control) (e, refl, same)
  reconcile-Settled (inr (b, there, agrees)) =
      let e' = put "1" (bool b) e in
      (
        e',
        rw (clean_control_lem, same "1", there)
            (rw
              (
                parse_from_dp_states_lem,
                get-put,
                same "101",
                reports.parsed,
                reconciled_status-settled b _ agrees,
              )
              refl),
        Same-put "1" (bool b) e d there same,
      )

apply_normal :
    (d : Dps)
    → IsNormal d
    → ReturnsSame d (apply_report (strip_legacy_keys d) (parse_report (get_value "101" d)))
unfolding apply_report apply_derived_fields
apply_normal d (clean, inl no_report) =
    rw no_report
      (_, refl, Same-pop "122" _ d clean.no_122 (Same-strips d clean _ (Same-strip d clean)))
apply_normal d (clean, inr (r, reports, settled)) =
    rw (reports.parsed, Same-strip d clean "101", reports.packed)
      (reconcile-Settled d _ r reports
        (Same-pop "122" _ d clean.no_122
          (Same-strips d clean _ (Same-put "126" _ _ d reports.cat (Same-strip d clean))))
        settled)

-- A normal map comes back from `apply_to_map` with every key as it was.
pub apply_to_map_normal : (d : Dps) → IsNormal d → (d' : Dps) × (apply_to_map d ≡ ok d') × Same d' d
unfolding apply_to_map
apply_to_map_normal d normal =
    rw (migrate_normal d normal, Same-strip d normal.0 "101") (apply_normal d normal)

-- Applying `apply_to_map` twice, wherever it returns, returns again and changes no key.
pub apply_to_map_idem :
    (dps dps' : Dps)
    → apply_to_map dps ≡ ok dps'
    → (again : Dps) × (apply_to_map dps' ≡ ok again) × Same again dps'
apply_to_map_idem dps dps' h = apply_to_map_normal dps' (apply_to_map-IsNormal dps dps' h)
