-- ===== src/Resolver/Status.antt =====
-- What the derived status says about the map, and about a map that `apply_to_map` has made.
use pypopur.Prelude.{
  false, String, ◌↔◌, refl, ◌≢◌, inl, none, ◌≡◌, sym, ap, Bool, true, some, Option, ◌∙◌, arith, inr,
  if◌then◌else◌,
}
use pypopur.Prelude.Dict.{get}
use pypopur.Prelude.Eq.{string_Eq}
use pypopur.Prelude.Int.{ℤ}
use pypopur.Dp101.{ParsedReport, get_value, parse_report, Dps}
use pypopur.DpStates.{
  field, bin_status_from_dp_states, running_status_from_dp_states, control_of_value,
  countdown_minutes_from_dp_states, machine_status_from_dp_states, apply_to_map,
}
use pypopur.DpStates.Apply.{apply_to_map-IsNormal}
use pypopur.DpStates.Normal.{parse_from_dp_states_lem, IsNormal, contrary}
use pypopur.Py.{ok, is_nonzero, Result, bool, or_null, Exception, Chars, raise}
use pypopur.Py.Text.{codes}
use pypopur.Resolver.{
  cleaning_paused, fault_from_dp_states, offline, error, status_of, cleaning_in_progress,
  DeviceStatus, ready, derive_status, is_text, status_or_ready,
}

module _ (running machine : Option Chars) (countdown : ℤ) (bin_status : Option Chars)
    (fault : ℤ) where
  abbrev derived_status : DeviceStatus
  derived_status = status_of running machine countdown bin_status fault

  paused_running : derived_status ≡ cleaning_paused → is_text running "clean_pause" ≡ true
  unfolding status_of
  paused_running h = ground arith

  in_progress_running : derived_status ≡ cleaning_in_progress → is_text running "clean_start" ≡ true
  unfolding status_of
  in_progress_running h = ground arith

  error_fault : (derived_status ≡ error) ↔ (is_nonzero fault ≡ true)
  unfolding status_of
  error_fault = ground arith

  not_offline : derived_status ≢ offline
  unfolding status_of
  not_offline h = ground arith

abbrev shown_of : Dps → Result Exception ℤ → DeviceStatus
shown_of dps m = (status_or_ready dps m).0

shown_of-not_offline : (dps : Dps) (m : Result Exception ℤ) → shown_of dps m ≢ offline
unfolding status_or_ready
shown_of-not_offline dps (raise e) h = cc
shown_of-not_offline dps (ok fault) h = not_offline _ _ _ _ fault h

shown_of-error :
    (dps : Dps) (m : Result Exception ℤ)
    → shown_of dps m ≡ error
    → (fault : ℤ) × (m ≡ ok fault) × (is_nonzero fault ≡ true)
unfolding status_or_ready
shown_of-error dps (raise e) h = cc
shown_of-error dps (ok fault) h = (fault, refl, (error_fault _ _ _ _ fault).0 h)

shown_of_fault : (dps : Dps) (fault : ℤ) → is_nonzero fault ≡ true → shown_of dps (ok fault) ≡ error
unfolding status_or_ready
shown_of_fault dps fault h = (error_fault _ _ _ _ fault).1 h

shown_of_raise : (dps : Dps) (e : Exception) → shown_of dps (raise e) ≡ ready
unfolding status_or_ready
shown_of_raise dps e = refl

shown_of_running :
    (dps : Dps) (m : Result Exception ℤ) (s : DeviceStatus) (running : String)
    → s ≢ ready
    → ((fault : ℤ)
        → status_of
            (running_status_from_dp_states dps)
            (machine_status_from_dp_states dps)
            (countdown_minutes_from_dp_states dps)
            (bin_status_from_dp_states dps)
            fault
          ≡ s
        → is_text (running_status_from_dp_states dps) running ≡ true)
    → shown_of dps m ≡ s
    → is_text (running_status_from_dp_states dps) running ≡ true
unfolding status_or_ready
shown_of_running dps (raise e) s running other f h = absurd (other (sym h))
shown_of_running dps (ok fault) s running other f h = f fault h

-- The status that is shown for a map.
abbrev pub shown : Dps → Bool → DeviceStatus
shown dps online = (derive_status (some dps) online).0

-- The status is `offline` exactly when the device is.
pub derive_status_offline :
    (dps : Dps) (online : Bool) → (shown dps online ≡ offline) ↔ (online ≡ false)
unfolding derive_status
derive_status_offline dps false = (λ h. refl, λ h. refl)
derive_status_offline dps true =
    (λ h. absurd (shown_of-not_offline dps (fault_from_dp_states dps) h), λ h. cc)

-- The status of a device that is online is `error` exactly when DP 125 reads as a number other
-- than 0.
pub derive_status_error :
    (dps : Dps)
    → (shown dps true ≡ error)
      ↔ ((fault : ℤ) × (fault_from_dp_states dps ≡ ok fault) × (is_nonzero fault ≡ true))
unfolding derive_status
derive_status_error dps = (
  shown_of-error dps (fault_from_dp_states dps),
  λ t. ap (shown_of dps) t.1 ∙ shown_of_fault dps t.0 t.2,
)

-- When reading DP 125 raises, a device that is online is shown as ready.
pub derive_status_raise :
    (dps : Dps) (e : Exception) → fault_from_dp_states dps ≡ raise e → shown dps true ≡ ready
unfolding derive_status
derive_status_raise dps e h = ap (shown_of dps) h ∙ shown_of_raise dps e

running_lem :
    (dps : Dps) (o : Option ParsedReport)
    → parse_report (get_value "101" dps) ≡ o
    → running_status_from_dp_states dps ≡ field (λ r. r.running_status) o
unfolding running_status_from_dp_states
running_lem dps none h = rw (parse_from_dp_states_lem dps ∙ h, running_status_from_dp_states) refl
running_lem dps (some r) h =
    rw (parse_from_dp_states_lem dps ∙ h, running_status_from_dp_states) refl

-- In a normal map the report is not at a status that DP 1 would change.
normal_running :
    (dps : Dps) (b : Bool) (s : String)
    → IsNormal dps
    → get "1" dps ≡ some (bool b)
    → codes s ≡ contrary b
    → is_text (running_status_from_dp_states dps) s ≡ false
unfolding is_text control_of_value
normal_running dps b s (clean, inl no_report) on asked = rw (running_lem dps none no_report) refl
normal_running dps b s (clean, inr (r, reports, inl free)) on asked = cc (free, ap or_null on)
normal_running dps b s (clean, inr (r, reports, inr (c, there, agrees))) on asked =
    rw (running_lem dps (some r) reports.parsed) (cc (there, on, agrees, asked))

-- The two halves of `control_status`: a true DP 1 is never shown as a paused cleaning, and one
-- that is false never as a cleaning in progress.
control_cases :
    (dps dps' : Dps) (online : Bool)
    → apply_to_map dps ≡ ok dps'
    → (get "1" dps' ≡ some (bool true) → shown dps' online ≢ cleaning_paused)
      × (get "1" dps' ≡ some (bool false) → shown dps' online ≢ cleaning_in_progress)
unfolding derive_status
control_cases dps dps' false h = (λ on e. cc, λ on e. cc)
control_cases dps dps' true h =
    let normal = apply_to_map-IsNormal dps dps' h in
    (
      λ on e. cc (
        shown_of_running dps' _ cleaning_paused "clean_pause" (λ x. cc)
            (λ f. paused_running _ _ _ _ f) e,
        normal_running dps' true "clean_pause" normal on refl,
      ),
      λ on e. cc (
        shown_of_running dps' _ cleaning_in_progress "clean_start" (λ x. cc)
            (λ f. in_progress_running _ _ _ _ f) e,
        normal_running dps' false "clean_start" normal on refl,
      ),
    )

-- In what `apply_to_map` returns, a DP 1 that is true is never shown as a paused cleaning, and one
-- that is false never as a cleaning in progress.
pub control_status :
    (dps dps' : Dps) (online b : Bool)
    → apply_to_map dps ≡ ok dps'
    → get "1" dps' ≡ some (bool b)
    → shown dps' online ≢ (if b then cleaning_paused else cleaning_in_progress)
control_status dps dps' online true h on = (control_cases dps dps' online h).0 on
control_status dps dps' online false h on = (control_cases dps dps' online h).1 on
