-- ===== src/Dps/System/Encode/Kept.antt =====
-- Each setting in range is decoded from the payload as it was encoded.
-- The values that the app offers for each setting.
use pypopur.Prelude.{
  inr, ℕ, ◌<◌, suc, bit_and, refl, ◌≤◌, arith, ap, bit_or, inl, ◌⊎◌, sym, ◌≡◌, zero, All, get_or,
  ◌==◌, Bool-cases, if◌then◌else◌,
}
use pypopur.Prelude.Eq.{text_eq}
use pypopur.Prelude.Int.{pos, ℤ, ◌≤ℤ◌, negsuc}
use pypopur.Codec.{clamp}
use pypopur.Codec.Laws.{All-normalize_bytes, All-get_or}
use pypopur.Dp101.{index_or}
use pypopur.Dps.Payload.{
  int_ne_lem, byte-assign, flag, bool_ne_lem, byte, nonzero_int_of_bool, clamp_byte, int_ne,
  length-assign, bool_ne, has_bit,
}
use pypopur.Dps.System.{
  notifications_of, weight_functions_of, notifications_ext_of, text_ne, notifications_ext_ne,
  notifications_ne, dp102_reshuffle_labels, valid_or, weight_functions_ne, signed_byte, settings_of,
}
use pypopur.Dps.System.Encode.{write_panel, write_reshuffle, payload, write_spin, write_shield}
use pypopur.Dps.System.Encode.Values.{
  text_ne_lem, notifications_ne_lem, valid_or_clamp, notifications_ext_ne_lem, written_kept,
  smooth_value, notifications_value, notifications_ext_value, weight_functions_ne_lem, label_value,
  weight_value, timezone_value, reshuffle_value,
}
use pypopur.Dps.System.Encode.Written.{old_bytes, baseline_lem, length-old}
use pypopur.Models.Settings.{SystemSettings}
use pypopur.Py.{Chars, is_nonzero, byte_of}
use pypopur.Py.Text.{codes, lower}

pub record IsInRange (s : SystemSettings) : Type 0 where
  pub sensitivity : (n : ℕ) × (s.active_shield.sensitivity ≡ pos n) × (1 ≤ n) × (n ≤ 10)
  pub shield_range : (n : ℕ) × (s.active_shield.range ≡ pos n) × (1 ≤ n) × (n ≤ 5)
  pub delay : (n : ℕ) × (s.delay_minutes ≡ pos n) × (1 ≤ n) × (n ≤ 60)
  pub smooth : (pos 2 ≤ℤ s.smooth_spread_count) × (s.smooth_spread_count ≤ℤ pos 7)
  pub timezone : (negsuc 11 ≤ℤ s.timezone_offset_hours) × (s.timezone_offset_hours ≤ℤ pos 12)
  pub color : (s.device_color ≡ codes "black") ⊎ (s.device_color ≡ codes "white")
  pub oscillation :
      (i : ℕ) × (i < 4)
      × (s.spin.reshuffle_oscillation ≡ get_or dp102_reshuffle_labels i (codes "2X"))
  pub bytes : All (λ b. b < 256) s.raw

ruleset reading = (byte-assign, length-assign, length-old)

label_index :
    (i : ℕ)
    → i < 4
    → index_or dp102_reshuffle_labels (get_or dp102_reshuffle_labels i (codes "2X")) 0 ≡ i
unfolding index_or
label_index zero h = refl
label_index (suc zero) h = refl
label_index (suc (suc zero)) h = refl
label_index (suc (suc (suc zero))) h = refl
label_index (suc (suc (suc (suc i)))) h = omega arith

module _ (s : SystemSettings) (fits : IsInRange s) where
  clamped :
      (n : ℕ) (x : ℤ) (lo hi d : ℕ)
      → x ≡ pos n
      → lo ≤ n
      → n ≤ hi
      → pos (valid_or (clamp_byte x (pos lo) (pos hi)) lo hi d) ≡ x
  clamped n x lo hi d e p q = rw e (ap pos (valid_or_clamp n lo hi d p q))

  pub sensitivity_kept : pos (valid_or (byte (payload s) 10) 1 10 5) ≡ s.active_shield.sensitivity
  unfolding payload write_shield write_panel write_spin write_reshuffle settings_of
  sensitivity_kept = rw (baseline_lem s) (
      simp reading (
        written_kept int_ne int_ne_lem (λ b. pos (valid_or b 1 10 5)) s.active_shield.sensitivity _
          _
          (clamped fits.sensitivity.0 _ _ _ _ fits.sensitivity.1 fits.sensitivity.2
            fits.sensitivity.3)))

  pub range_kept : pos (valid_or (byte (payload s) 11) 1 5 3) ≡ s.active_shield.range
  unfolding payload write_shield write_panel write_spin write_reshuffle settings_of
  range_kept = rw (baseline_lem s) (
      simp reading (
        written_kept int_ne int_ne_lem (λ b. pos (valid_or b 1 5 3)) s.active_shield.range _ _
          (clamped fits.shield_range.0 _ _ _ _ fits.shield_range.1 fits.shield_range.2
            fits.shield_range.3)))

  pub interference_kept : is_nonzero (pos (byte (payload s) 12)) ≡ s.active_shield.anti_interference
  unfolding payload write_shield write_panel write_spin write_reshuffle settings_of
  interference_kept = rw (baseline_lem s) (
      simp reading (
        written_kept bool_ne bool_ne_lem (λ b. is_nonzero (pos b)) s.active_shield.anti_interference
          _ _ (nonzero_int_of_bool s.active_shield.anti_interference)))

  pub delay_kept : pos (valid_or (byte (payload s) 13) 1 60 5) ≡ s.delay_minutes
  unfolding payload write_shield write_panel write_spin write_reshuffle settings_of
  delay_kept = rw (baseline_lem s) (
      simp reading (
        written_kept int_ne int_ne_lem (λ b. pos (valid_or b 1 60 5)) s.delay_minutes _ _
          (clamped fits.delay.0 _ _ _ _ fits.delay.1 fits.delay.2 fits.delay.3)))

  pub smooth_kept : clamp (pos (byte (payload s) 14)) (pos 2) (pos 7) ≡ s.smooth_spread_count
  unfolding payload write_shield write_panel write_spin write_reshuffle settings_of
  smooth_kept = rw (baseline_lem s) (
      simp reading (
        written_kept int_ne int_ne_lem (λ b. clamp (pos b) (pos 2) (pos 7)) s.smooth_spread_count _
          _ (smooth_value _ fits.smooth.0 fits.smooth.1)))

  pub timezone_kept :
      clamp (signed_byte (byte (payload s) 15)) (negsuc 11) (pos 12) ≡ s.timezone_offset_hours
  unfolding payload write_shield write_panel write_spin write_reshuffle settings_of
  timezone_kept = rw (baseline_lem s) (
      simp reading (
        written_kept int_ne int_ne_lem (λ b. clamp (signed_byte b) (negsuc 11) (pos 12))
          s.timezone_offset_hours (byte_of (clamp s.timezone_offset_hours (negsuc 11) (pos 12)))
          (byte (old_bytes s) 15) (timezone_value _ fits.timezone.0 fits.timezone.1)))

  color_value :
      (if (if text_eq (lower s.device_color) (codes "black") then 1 else 0) == 1
        then codes "black"
        else codes "white")
      ≡ s.device_color
  unfolding lower
  color_value = elim fits.color [ inl e ↦ rw e refl | inr e ↦ rw e refl ]

  pub color_kept :
      (if byte (payload s) 17 == 1 then codes "black" else codes "white") ≡ s.device_color
  unfolding payload write_shield write_panel write_spin write_reshuffle settings_of
  color_kept = rw (baseline_lem s) (
      simp reading (
        written_kept text_ne text_ne_lem (λ b. if b == 1 then codes "black" else codes "white")
          s.device_color _ _ color_value))

  pub notifications_kept : notifications_of (byte (payload s) 18) ≡ s.detailed_notifications
  unfolding payload write_shield write_panel write_spin write_reshuffle settings_of
  notifications_kept = rw (baseline_lem s) (
      simp reading (
        written_kept notifications_ne notifications_ne_lem (λ b. notifications_of b)
          s.detailed_notifications _ _ (notifications_value _)))

  pub master_kept : is_nonzero (pos (byte (payload s) 19)) ≡ s.notification_master_enabled
  unfolding payload write_shield write_panel write_spin write_reshuffle settings_of
  master_kept = rw (baseline_lem s) (
      simp reading (
        written_kept bool_ne bool_ne_lem (λ b. is_nonzero (pos b)) s.notification_master_enabled _ _
          (nonzero_int_of_bool s.notification_master_enabled)))

  pub light_kept : is_nonzero (pos (byte (payload s) 20)) ≡ s.panel.status_light_enabled
  unfolding payload write_shield write_panel write_spin write_reshuffle settings_of
  light_kept = rw (baseline_lem s) (
      simp reading (
        written_kept bool_ne bool_ne_lem (λ b. is_nonzero (pos b)) s.panel.status_light_enabled _ _
          (nonzero_int_of_bool s.panel.status_light_enabled)))

  pub buzzer_kept : is_nonzero (pos (byte (payload s) 21)) ≡ s.panel.buzzer_enabled
  unfolding payload write_shield write_panel write_spin write_reshuffle settings_of
  buzzer_kept = rw (baseline_lem s) (
      simp reading (
        written_kept bool_ne bool_ne_lem (λ b. is_nonzero (pos b)) s.panel.buzzer_enabled _ _
          (nonzero_int_of_bool s.panel.buzzer_enabled)))

  pub pro_commands_kept : is_nonzero (pos (byte (payload s) 23)) ≡ s.panel.pro_commands_enabled
  unfolding payload write_shield write_panel write_spin write_reshuffle settings_of
  pro_commands_kept = rw (baseline_lem s) (
      simp reading (
        written_kept bool_ne bool_ne_lem (λ b. is_nonzero (pos b)) s.panel.pro_commands_enabled _ _
          (nonzero_int_of_bool s.panel.pro_commands_enabled)))

  pub old_byte_lt : (i : ℕ) → byte (old_bytes s) i < 256
  old_byte_lt i =
      All-get_or (λ b. b < 256) (omega arith) (old_bytes s) i
        (All-normalize_bytes (λ b. b < 256) (omega arith) s.raw 29 fits.bytes)

  pub weight_kept : weight_functions_of (byte (payload s) 22) ≡ s.weight_functions
  unfolding payload write_shield write_panel write_spin write_reshuffle settings_of
  weight_kept = rw (baseline_lem s) (
      simp reading (
        written_kept weight_functions_ne weight_functions_ne_lem (λ b. weight_functions_of b)
          s.weight_functions _ _ (weight_value _ _ (old_byte_lt 22)).0))

  pub power_cycle_kept : is_nonzero (pos (byte (payload s) 24)) ≡ s.spin.auto_power_cycle
  unfolding payload write_shield write_panel write_spin write_reshuffle settings_of
  power_cycle_kept = rw (baseline_lem s) (
      simp reading (
        written_kept bool_ne bool_ne_lem (λ b. is_nonzero (pos b)) s.spin.auto_power_cycle _ _
          (nonzero_int_of_bool s.spin.auto_power_cycle)))

  pub lower_speed_kept : is_nonzero (pos (byte (payload s) 25)) ≡ s.spin.lower_speed
  unfolding payload write_shield write_panel write_spin write_reshuffle settings_of
  lower_speed_kept = rw (baseline_lem s) (
      simp reading (
        written_kept bool_ne bool_ne_lem (λ b. is_nonzero (pos b)) s.spin.lower_speed _ _
          (nonzero_int_of_bool s.spin.lower_speed)))

  pub notifications_ext_kept :
      notifications_ext_of (byte (payload s) 27) ≡ s.detailed_notifications_ext
  unfolding payload write_shield write_panel write_spin write_reshuffle settings_of
  notifications_ext_kept = rw (baseline_lem s) (
      simp reading (
        written_kept notifications_ext_ne notifications_ext_ne_lem (λ b. notifications_ext_of b)
          s.detailed_notifications_ext _ _ (notifications_ext_value _)))

  pub self_check_kept : is_nonzero (pos (byte (payload s) 28)) ≡ s.spin.auto_self_check
  unfolding payload write_shield write_panel write_spin write_reshuffle settings_of
  self_check_kept = rw (baseline_lem s) (
      simp reading (
        written_kept bool_ne bool_ne_lem (λ b. is_nonzero (pos b)) s.spin.auto_self_check _ _
          (nonzero_int_of_bool s.spin.auto_self_check)))

  abbrev flagged : ℕ
  flagged =
      let old = byte (old_bytes s) 26 in
      if bool_ne s.spin.reshuffle_enabled (has_bit old 0x80)
      then bit_or (bit_and old 0x7f) (flag 0x80 s.spin.reshuffle_enabled)
      else old

  abbrev old_label : Chars
  old_label = get_or dp102_reshuffle_labels (bit_and (byte (old_bytes s) 26) 0x7f) (codes "2X")

  byte_26 : byte (payload s) 26 ≡ (
      if text_ne s.spin.reshuffle_oscillation old_label
      then bit_or
          (bit_and flagged 0x80)
          (index_or dp102_reshuffle_labels s.spin.reshuffle_oscillation 0)
      else flagged)
  unfolding payload write_shield write_panel write_spin write_reshuffle settings_of
  byte_26 = rw (baseline_lem s) (simp reading)

  -- The flag is written into byte 26 first, and its other bits are kept.
  flagged_lem :
      (has_bit flagged 0x80 ≡ s.spin.reshuffle_enabled)
      × (bit_and flagged 0x7f ≡ bit_and (byte (old_bytes s) 26) 0x7f)
      × (flagged < 256)
  flagged_lem =
      let old = byte (old_bytes s) 26 in
      let t = reshuffle_value old s.spin.reshuffle_enabled (old_byte_lt 26) in
      elim (Bool-cases (bool_ne s.spin.reshuffle_enabled (has_bit old 0x80))) [
        | inl changed ↦ rw changed t
        | inr same ↦ rw same (sym (bool_ne_lem _ _ same), refl, old_byte_lt 26)
      ]

  pub label_kept :
      (has_bit (byte (payload s) 26) 0x80 ≡ s.spin.reshuffle_enabled)
      × (get_or dp102_reshuffle_labels (bit_and (byte (payload s) 26) 0x7f) (codes "2X")
          ≡ s.spin.reshuffle_oscillation)
  label_kept =
      let (i, below, label) = fits.oscillation in
      let (on, kept, small) = flagged_lem in
      let found : index_or dp102_reshuffle_labels s.spin.reshuffle_oscillation 0 ≡ i =
        rw label (label_index i below) in
      let (same_flag, index_read, _) = label_value flagged i small below in
      elim (Bool-cases (text_ne s.spin.reshuffle_oscillation old_label)) [
        | inl changed ↦ rw (byte_26, changed, found, same_flag, index_read) (on, sym label)
        | inr same ↦ rw (byte_26, same, kept) (on, sym (text_ne_lem _ _ same))
      ]
