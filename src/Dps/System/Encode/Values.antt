-- ===== src/Dps/System/Encode/Values.antt =====
-- The value that is written for a setting decodes to the setting.
use pypopur.Prelude.{
  ℕ, sym, bit_and, ◌≡◌, Bool, ◌<◌, arith, bit_or, ◌&&◌, true, ◌≤◌, false, inr, refl, not, inl,
  not-true, ltb, and_true, if◌then◌else◌, Bool-cases, ◌==◌,
}
use pypopur.Prelude.Bits.{all_below_sound, both, both_sound, all_below}
use pypopur.Prelude.Eq.{text_eq_iff}
use pypopur.Prelude.Int.{◌≤ℤ◌, pos, ℤ, negsuc}
use pypopur.Codec.{clamp}
use pypopur.Dps.Payload.{flag, has_bit, bool_ne, clamp_byte}
use pypopur.Dps.System.{
  notifications_ext_ne, weight_functions_ne, valid_or, notification_byte, notifications_ne,
  notifications_ext_of, notification_ext_byte, weight_functions_of, weight_byte, text_ne,
  signed_byte, notifications_of,
}
use pypopur.Models.Settings.{
  WeightFunctionSettings, DetailedNotificationExtSettings, DetailedNotificationSettings,
}
use pypopur.Py.{Chars, byte_of}

module _ {ℓ} {A : Type ℓ} (ne : A → A → Bool) (law : (a b : A) → ne a b ≡ false → a ≡ b) where
  -- A byte that is written only if its setting changed decodes to the setting.
  pub written_kept :
      (f : ℕ → A) (x : A) (v old : ℕ) → f v ≡ x → f (if ne x (f old) then v else old) ≡ x
  written_kept f x v old h = elim (Bool-cases (ne x (f old))) [
    | inl changed ↦ rw changed h
    | inr same ↦ rw same (sym (law x (f old) same))
  ]

pub text_ne_lem : (a b : Chars) → text_ne a b ≡ false → a ≡ b
unfolding text_ne
text_ne_lem a b h = ground (arith, text_eq_iff a b)

pub notifications_ne_lem :
    (a b : DetailedNotificationSettings) → notifications_ne a b ≡ false → a ≡ b
unfolding notifications_ne
notifications_ne_lem a b h = ground arith

pub notifications_ext_ne_lem :
    (a b : DetailedNotificationExtSettings) → notifications_ext_ne a b ≡ false → a ≡ b
unfolding notifications_ext_ne
notifications_ext_ne_lem a b h = ground arith

pub weight_functions_ne_lem :
    (a b : WeightFunctionSettings) → weight_functions_ne a b ≡ false → a ≡ b
unfolding weight_functions_ne
weight_functions_ne_lem a b h = ground arith

pub valid_or_clamp :
    (x lo hi : ℕ) (d : ℕ)
    → lo ≤ x
    → x ≤ hi
    → valid_or (clamp_byte (pos x) (pos lo) (pos hi)) lo hi d ≡ x
unfolding valid_or clamp
valid_or_clamp x lo hi d p q = ground arith

pub smooth_value :
    (x : ℤ)
    → pos 2 ≤ℤ x
    → x ≤ℤ pos 7
    → clamp (pos (clamp_byte x (pos 2) (pos 7))) (pos 2) (pos 7) ≡ x
unfolding clamp
smooth_value x p q = ground arith

pub timezone_value :
    (x : ℤ)
    → negsuc 11 ≤ℤ x
    → x ≤ℤ pos 12
    → clamp (signed_byte (byte_of (clamp x (negsuc 11) (pos 12)))) (negsuc 11) (pos 12) ≡ x
unfolding clamp
timezone_value x p q = ground arith

notifications_table :
    both (λ a. both (λ b. both (λ c. both (λ d. both (λ e. both (λ f. both (λ g. both (λ h.
      let s : DetailedNotificationSettings = record {
        self_check_enabled = a;
        bin_full_enabled = b;
        manual_cleaning_enabled = c;
        scheduled_cleaning_enabled = d;
        automatic_cleaning_enabled = e;
        cleaning_started_enabled = f;
        pet_finished_enabled = g;
        pet_detected_enabled = h;
      } in
      not (notifications_ne (notifications_of (notification_byte s)) s)))))))))
    ≡ true
unfolding both notifications_ne notifications_of notification_byte has_bit
notifications_table = refl

pub notifications_value :
    (s : DetailedNotificationSettings) → notifications_of (notification_byte s) ≡ s
notifications_value s = notifications_ne_lem _ s (
    not-true (
      both_sound _ s.pet_detected_enabled (
        both_sound _ s.pet_finished_enabled (
          both_sound _ s.cleaning_started_enabled (
            both_sound _ s.automatic_cleaning_enabled (
              both_sound _ s.scheduled_cleaning_enabled (
                both_sound _ s.manual_cleaning_enabled (
                  both_sound _ s.bin_full_enabled
                    (both_sound _ s.self_check_enabled notifications_table)))))))))

notifications_ext_table :
    both (λ a. both (λ b. both (λ c. both (λ d.
      let s : DetailedNotificationExtSettings = record {
        new_firmware_enabled = a;
        pet_left_without_business_enabled = b;
        cleaning_paused_enabled = c;
        cleaning_resumed_enabled = d;
      } in
      not (notifications_ext_ne (notifications_ext_of (notification_ext_byte s)) s)))))
    ≡ true
unfolding both notifications_ext_ne notifications_ext_of notification_ext_byte has_bit
notifications_ext_table = refl

pub notifications_ext_value :
    (s : DetailedNotificationExtSettings) → notifications_ext_of (notification_ext_byte s) ≡ s
notifications_ext_value s = notifications_ext_ne_lem _ s (
    not-true (
      both_sound _ s.cleaning_resumed_enabled (
        both_sound _ s.cleaning_paused_enabled (
          both_sound _ s.pet_left_without_business_enabled
            (both_sound _ s.new_firmware_enabled notifications_ext_table)))))

-- Byte 22, whatever its unknown bits were.
weight_table :
    all_below 256 (λ old. both (λ a. both (λ b. both (λ c. both (λ d.
      let s : WeightFunctionSettings = record {
        automatic = a;
        sentinel = b;
        caring = c;
        track_pet_data = d;
      } in
      not (weight_functions_ne (weight_functions_of (bit_or (bit_and old 0xb8) (weight_byte s))) s)
      && ltb (bit_or (bit_and old 0xb8) (weight_byte s)) 256)))))
    ≡ true
unfolding all_below both weight_functions_ne weight_functions_of weight_byte has_bit
weight_table = refl

pub weight_value :
    (s : WeightFunctionSettings) (old : ℕ)
    → old < 256
    → let v = bit_or (bit_and old 0xb8) (weight_byte s) in (weight_functions_of v ≡ s) × (v < 256)
weight_value s old h =
    let t = both_sound _ s.track_pet_data (
      both_sound _ s.caring (
        both_sound _ s.sentinel
          (both_sound _ s.automatic (all_below_sound 256 _ old weight_table h)))) in
    (weight_functions_ne_lem _ s (not-true (and_true _ _ t)), ground arith)

-- Byte 26: the flag leaves the label's bits alone, and the label leaves the flag.
reshuffle_table :
    all_below 256 (λ old. both (λ on.
      let v = bit_or (bit_and old 0x7f) (flag 0x80 on) in
      not (bool_ne (has_bit v 0x80) on) && bit_and v 0x7f == bit_and old 0x7f && ltb v 256))
    ≡ true
unfolding all_below both has_bit
reshuffle_table = refl

label_table :
    all_below 256 (λ old. all_below 4 (λ i.
      let v = bit_or (bit_and old 0x80) i in
      not (bool_ne (has_bit v 0x80) (has_bit old 0x80)) && bit_and v 0x7f == i && ltb v 256))
    ≡ true
unfolding all_below has_bit
label_table = refl

pub reshuffle_value :
    (old : ℕ) (on : Bool)
    → old < 256
    → let v = bit_or (bit_and old 0x7f) (flag 0x80 on) in
      (has_bit v 0x80 ≡ on) × (bit_and v 0x7f ≡ bit_and old 0x7f) × (v < 256)
reshuffle_value old on h =
    let t = both_sound _ on (all_below_sound 256 _ old reshuffle_table h) in ground arith

pub label_value :
    (old i : ℕ)
    → old < 256
    → i < 4
    → let v = bit_or (bit_and old 0x80) i in
      (has_bit v 0x80 ≡ has_bit old 0x80) × (bit_and v 0x7f ≡ i) × (v < 256)
label_value old i h g =
    let t = all_below_sound 4 _ i (all_below_sound 256 _ old label_table h) g in ground arith
