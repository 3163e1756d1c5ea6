-- ===== src/DpStates/Normal.antt =====
-- What `apply_to_map` establishes of a DP map, whatever map it is given.
use pypopur.Prelude.{
  none, sym, ◌≡◌, String, [], ◌⊎◌, inr, ◌∷◌, false, some, true, ap, inl, refl, arith, Option, Bool,
  Option-cases, if◌then◌else◌, Bool-cases,
}
use pypopur.Prelude.Dict.{get-put, put, get-pop, pop, get}
use pypopur.Prelude.Eq.{string_Eq, text_eq}
use pypopur.Dp101.{copy, Dps, contains, parse_report, parse_from_dp_states, get_value, ParsedReport}
use pypopur.Dp101.Report.{parse_report-encode_report, known_or, canonical}
use pypopur.DpStates.{
  control_of_value, reconciled_status, is_none, strip_legacy_keys, write_report,
  apply_derived_fields, clean_control_from_dp_states, reconcile_with,
}
use pypopur.Models.{cat_presence_values, running_status_values}
use pypopur.Py.{bool, Value, ok, Chars, str}
use pypopur.Py.Text.{codes}
use pypopur.RawBytes.{decode_to_bytes}

abbrev pub Same : Dps → Dps → Type 0
Same a b = (k : String) → get k a ≡ get k b

-- The legacy keys are gone.
pub record IsClean (d : Dps) : Type 0 where
  pub no_24 : get "24" d ≡ none
  pub no_18 : get "18" d ≡ none
  pub no_122 : get "122" d ≡ none

-- DP 101 is packed, reads as `r`, and DP 126 is the cat presence of `r`.
pub record Reports (d : Dps) (r : ParsedReport) : Type 0 where
  pub parsed : parse_report (get_value "101" d) ≡ some r
  pub packed : is_none (decode_to_bytes (get_value "101" d)) ≡ false
  pub cat : get "126" d ≡ some (str r.cat_presence)
  pub cat_known : known_or cat_presence_values r.cat_presence (codes "no_cat") ≡ r.cat_presence

-- What no report may show under a DP 1: a pause when it is on, a cleaning when it is off.
abbrev pub contrary : Bool → Chars
contrary b = if b then codes "clean_pause" else codes "clean_start"

-- DP 1 has no truth value, or it is a Boolean and the running status is not its contrary.
abbrev pub Settled : Dps → ParsedReport → Type 0
Settled d r =
    (control_of_value (get_value "1" d) ≡ ok none)
    ⊎ ((b : Bool) × (get "1" d ≡ some (bool b)) × (text_eq r.running_status (contrary b) ≡ false))

abbrev pub IsNormal : Dps → Type 0
IsNormal d =
    IsClean d
    × ((parse_report (get_value "101" d) ≡ none) ⊎ ((r : ParsedReport) × Reports d r × Settled d r))

-- A status that is not the contrary of DP 1 is left as it is.
pub reconciled_status-settled :
    (b : Bool) (x : Chars) → text_eq x (contrary b) ≡ false → reconciled_status b x ≡ none
unfolding reconciled_status
reconciled_status-settled true x h = rw h refl
reconciled_status-settled false x h = rw h refl

settled-reconciled_status :
    (b : Bool) (x : Chars) → reconciled_status b x ≡ none → text_eq x (contrary b) ≡ false
unfolding reconciled_status
settled-reconciled_status true x h = ground arith
settled-reconciled_status false x h = ground arith

pub parse_from_dp_states_lem : (d : Dps) → parse_from_dp_states d ≡ parse_report (get_value "101" d)
unfolding parse_from_dp_states get parse_report decode_to_bytes
parse_from_dp_states_lem [] = refl
parse_from_dp_states_lem (x ∷ d) = refl

pub clean_control_lem :
    (d : Dps) → clean_control_from_dp_states d ≡ control_of_value (get_value "1" d)
unfolding clean_control_from_dp_states get
clean_control_lem [] = refl
clean_control_lem (x ∷ d) = refl

pub get-strip_legacy_keys :
    (d : Dps) (k : String)
    → get k (strip_legacy_keys d)
      ≡ (if string_Eq.beq "18" k then none else if string_Eq.beq "24" k then none else get k d)
unfolding strip_legacy_keys
get-strip_legacy_keys d k = simp get-pop

-- Whatever the map, the legacy keys are gone after the last two steps of `applyToMap`.
pub IsClean_lem : (d : Dps) → IsClean (pop "122" (strip_legacy_keys d))
IsClean_lem d = record {
  no_24 = simp (get-pop, get-strip_legacy_keys);
  no_18 = simp (get-pop, get-strip_legacy_keys);
  no_122 = simp get-pop;
}

abbrev SettlesAt : Bool → Option Chars → Type 0
SettlesAt b none = Unit
SettlesAt b (some y) =
    (known_or running_status_values y (codes "idle") ≡ y) × (text_eq y (contrary b) ≡ false)

-- The status that reconciling writes is a known one, and asks for no further change.
reconciled_status-SettlesAt : (b : Bool) (x : Chars) → SettlesAt b (reconciled_status b x)
unfolding reconciled_status contains
reconciled_status-SettlesAt true x = elim (Bool-cases (text_eq x (codes "clean_pause"))) [
  | inl e ↦ rw e (refl, refl)
  | inr e ↦ rw e tt
]
reconciled_status-SettlesAt false x = elim (Bool-cases (text_eq x (codes "clean_start"))) [
  | inl e ↦ rw e (refl, refl)
  | inr e ↦ rw e tt
]

IsClean-put :
    (k : String) (v : Value) (d : Dps)
    → string_Eq.beq k "24" ≡ false
    → string_Eq.beq k "18" ≡ false
    → string_Eq.beq k "122" ≡ false
    → IsClean d
    → IsClean (put k v d)
IsClean-put k v d p q r c = record {
  no_24 = rw (get-put, p) c.no_24;
  no_18 = rw (get-put, q) c.no_18;
  no_122 = rw (get-put, r) c.no_122;
}

-- From a clean map that carries the report `r`, writing what DP 1 asks for settles the map.
module _ (d : Dps) (r : ParsedReport) (clean : IsClean d) (reports : Reports d r) (b : Bool) where
  kept : reconciled_status b r.running_status ≡ none → IsNormal (put "1" (bool b) d)
  kept agrees = (
    IsClean-put "1" (bool b) d refl refl refl clean,
    inr (
      r,
      record {
        parsed = rw get-put reports.parsed;
        packed = rw get-put reports.packed;
        cat = rw get-put reports.cat;
        cat_known = reports.cat_known;
      },
      inr (b, rw get-put refl, settled-reconciled_status b r.running_status agrees),
    ),
  )

  written :
      (y : Chars) → SettlesAt b (some y) → IsNormal (write_report (put "1" (bool b) d) r (some y))
  unfolding write_report
  written y settles =
      let q = canonical (copy r none (some y) none none none) in
      (
        IsClean-put "126" _ _ refl refl refl (
            IsClean-put "101" _ _ refl refl refl (IsClean-put "1" (bool b) d refl refl refl clean)),
        inr (
          q,
          record {
            parsed = simp get-put (parse_report-encode_report _);
            packed = unfold decode_to_bytes in simp get-put;
            cat =
                unfold apply_derived_fields in
                rw get-put (ap (λ (t : Chars). some (str t)) (sym reports.cat_known));
            cat_known = rw reports.cat_known reports.cat_known;
          },
          inr (b, simp get-put, rw settles.0 settles.1),
        ),
      )

  -- Either way the map is normal.
  pub reconcile_with-IsNormal : IsNormal (reconcile_with (put "1" (bool b) d) b (some r))
  unfolding reconcile_with
  reconcile_with-IsNormal = elim (Option-cases (reconciled_status b r.running_status)) [
    | inl e ↦ rw e (unfold write_report in kept e)
    | inr (y, e) ↦ rw e (written y (rw e at (reconciled_status-SettlesAt b r.running_status)))
  ]
