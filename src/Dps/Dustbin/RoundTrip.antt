-- ===== src/Dps/Dustbin/RoundTrip.antt =====
-- Dustbin settings through their three bytes and back.
use mathlib.Core.Path.{subst}
use pypopur.Prelude.{
  arith, ◌∙◌, ◌&&◌, some, [], suc, not, none, false, ◌≡◌, true, ◌∷◌, ◌≤◌, ℕ, Option, refl, ◌<◌, ap,
  length, All, ltb, not-true, and_true, if◌then◌else◌, leb,
}
use pypopur.Prelude.Bits.{all_below, all_below_sound, both, both_sound}
use pypopur.Prelude.Int.{ℤ, pos}
use pypopur.Codec.{clamp, decode_raw_bytes}
use pypopur.Codec.Hex.{decode_raw_bytes-hex}
use pypopur.Dps.Dustbin.{
  write_dustbin, toggles_ne, decode_dustbin, dustbin_bytes, encode_dp104, decode_dp104,
  normalize_dp104, toggles_byte, dustbin_of, toggles_of,
}
use pypopur.Dps.Payload.{
  AllBytes, indexed_lem, byte_lt, clamp_byte, byte, length-assign, assign, bool_ne_self, All-assign,
  clamp_byte_lt, int_ne, indexed-inj, byte-assign, has_bit, int_ne_lem, int_ne_self,
}
use pypopur.Dps.System.Encode.Values.{written_kept}
use pypopur.Models.Settings.{DustbinToggles, DustbinSettings}
use pypopur.Py.{Bytes, Value, ok, str}
use pypopur.Py.Hex.{hex}
use pypopur.Sdk.LanSocket.{fits}

toggles_ne_lem : (a b : DustbinToggles) → toggles_ne a b ≡ false → a ≡ b
unfolding toggles_ne
toggles_ne_lem a b h = ground arith

toggles_ne_self : (a : DustbinToggles) → toggles_ne a a ≡ false
unfolding toggles_ne
toggles_ne_self a = simp bool_ne_self

toggles_table :
    all_below 256 (λ old. both (λ a. both (λ b. both (λ c. both (λ d. both (λ e.
      let t : DustbinToggles = record {
        bin_full_detection = a;
        allow_overfill = b;
        keep_upright = c;
        dump_override = d;
        block_on_full = e;
      } in
      not (toggles_ne (toggles_of (toggles_byte old t)) t) && ltb (toggles_byte old t) 256))))))
    ≡ true
unfolding all_below both toggles_ne toggles_of toggles_byte has_bit
toggles_table = refl

toggles_value :
    (old : ℕ) (t : DustbinToggles)
    → old < 256
    → (toggles_of (toggles_byte old t) ≡ t) × (toggles_byte old t < 256)
toggles_value old t h =
    let row = both_sound _ t.block_on_full (
      both_sound _ t.dump_override (
        both_sound _ t.keep_upright (
          both_sound _ t.allow_overfill
            (both_sound _ t.bin_full_detection (all_below_sound 256 _ old toggles_table h))))) in
    (toggles_ne_lem _ t (not-true (and_true _ _ row)), ground arith)

three_le : (n : ℕ) → leb 3 (suc (suc (suc n))) ≡ true
three_le n = ground arith

pub length-normalize_dp104 : (o : Option Bytes) → length (normalize_dp104 o) ≡ 3
unfolding normalize_dp104
length-normalize_dp104 none = refl
length-normalize_dp104 (some []) = refl
length-normalize_dp104 (some (a ∷ [])) = refl
length-normalize_dp104 (some (a ∷ b ∷ [])) = refl
length-normalize_dp104 (some (a ∷ b ∷ c ∷ bs)) = rw (three_le (length bs)) refl

normalize_dp104_self : (bs : Bytes) → length bs ≡ 3 → normalize_dp104 (some bs) ≡ bs
unfolding normalize_dp104
normalize_dp104_self [] h = absurd (omega arith)
normalize_dp104_self (a ∷ []) h = absurd (omega arith)
normalize_dp104_self (a ∷ b ∷ []) h = absurd (omega arith)
normalize_dp104_self (a ∷ b ∷ c ∷ []) h = refl
normalize_dp104_self (a ∷ b ∷ c ∷ d ∷ bs) h = absurd (omega arith)

All-normalize_dp104 : (bs : Bytes) → AllBytes bs → AllBytes (normalize_dp104 (some bs))
unfolding normalize_dp104
All-normalize_dp104 [] h = (omega arith, (omega arith, (omega arith, tt)))
All-normalize_dp104 (a ∷ []) (ha, _) = (ha, (omega arith, (omega arith, tt)))
All-normalize_dp104 (a ∷ b ∷ []) (ha, (hb, _)) = (ha, (hb, (omega arith, tt)))
All-normalize_dp104 (a ∷ b ∷ c ∷ bs) (ha, (hb, (hc, _))) =
    rw (three_le (length bs)) (ha, (hb, (hc, tt)))

decoded_dustbin :
    (o : Option Bytes) (s : DustbinSettings)
    → decode_dustbin o ≡ ok (some s)
    → (length s.raw ≡ 3) × (dustbin_of s.raw ≡ s)
unfolding dustbin_of
decoded_dustbin none s h = cc
decoded_dustbin (some bs) s h =
    subst (λ (t : DustbinSettings). (length t.raw ≡ 3) × (dustbin_of t.raw ≡ t))
      (indexed-inj 3 (normalize_dp104 (some bs)) (dustbin_of (normalize_dp104 (some bs))) s h)
      (length-normalize_dp104 (some bs), refl)

dustbin_bytes_self :
    (s : DustbinSettings) → length s.raw ≡ 3 → dustbin_of s.raw ≡ s → dustbin_bytes s ≡ s.raw
unfolding dustbin_bytes write_dustbin assign
dustbin_bytes_self s size same =
    rw (normalize_dp104_self s.raw size, normalize_dp104_self s.raw size, same)
      (simp (int_ne_self, toggles_ne_self))

-- What `decode_dp104` reads, `encode_dp104` writes back: the three bytes that were read.
pub encode_dp104-decode_dp104 :
    (v : Value) (s : DustbinSettings)
    → decode_dp104 v ≡ ok (some s)
    → (encode_dp104 s ≡ hex s.raw) × (length s.raw ≡ 3)
unfolding decode_dp104 encode_dp104
encode_dp104-decode_dp104 v s h =
    let (size, same) = decoded_dustbin (decode_raw_bytes v true) s h in
    (ap hex (dustbin_bytes_self s size same), size)

pub record IsDustbinInRange (s : DustbinSettings) : Type 0 where
  pub calibration : (n : ℕ) × (s.calibration ≡ pos n) × (n ≤ 3)
  pub cycle_count : (n : ℕ) × (s.cycle_count ≡ pos n) × (1 ≤ n) × (n ≤ 10)
  pub bytes : All (λ b. b < 256) s.raw

length-dustbin_bytes : (s : DustbinSettings) → length (dustbin_bytes s) ≡ 3
unfolding dustbin_bytes write_dustbin
length-dustbin_bytes s = simp (length-assign, length-normalize_dp104)

All-dustbin_bytes : (s : DustbinSettings) → AllBytes s.raw → AllBytes (dustbin_bytes s)
unfolding dustbin_bytes write_dustbin
All-dustbin_bytes s h =
    let old = All-normalize_dp104 s.raw h in
    All-assign _ _ _ _ (clamp_byte_lt _ 1 10 (omega arith) (omega arith)) (
      All-assign _ _ _ _ (clamp_byte_lt _ 0 3 (omega arith) (omega arith))
        (All-assign _ _ _ _ (toggles_value _ _ (byte_lt _ 0 old)).1 old))

clamp_twice :
    (n : ℕ) (x : ℤ)
    → x ≡ pos n
    → n ≤ 3
    → clamp (pos (clamp_byte x (pos 0) (pos 3))) (pos 0) (pos 3) ≡ x
unfolding clamp
clamp_twice n x e h = rw e (ground arith)

cycle_value :
    (n : ℕ) (x : ℤ)
    → x ≡ pos n
    → 1 ≤ n
    → n ≤ 10
    → let b = clamp_byte x (pos 1) (pos 10) in pos (if leb 1 b && leb b 10 then b else 5) ≡ x
unfolding clamp
cycle_value n x e p q = rw e (ground arith)

module _ (s : DustbinSettings) (fits : IsDustbinInRange s) where
  abbrev old_bytes : Bytes
  old_bytes = normalize_dp104 (some s.raw)

  baseline_lem : normalize_dp104 (some old_bytes) ≡ old_bytes
  baseline_lem = normalize_dp104_self old_bytes (length-normalize_dp104 (some s.raw))

  length-old : length old_bytes ≡ 3
  length-old = length-normalize_dp104 (some s.raw)

  toggles_kept : toggles_of (byte (dustbin_bytes s) 0) ≡ s.toggles
  unfolding dustbin_bytes write_dustbin dustbin_of
  toggles_kept = rw baseline_lem (
      simp (byte-assign, length-assign, length-old)
        (written_kept toggles_ne toggles_ne_lem (λ b. toggles_of b) s.toggles _ _
          (toggles_value _ _ (byte_lt _ 0 (All-normalize_dp104 s.raw fits.bytes))).0))

  calibration_kept : clamp (pos (byte (dustbin_bytes s) 1)) (pos 0) (pos 3) ≡ s.calibration
  unfolding dustbin_bytes write_dustbin dustbin_of
  calibration_kept = rw baseline_lem (
      simp (byte-assign, length-assign, length-old)
        (written_kept int_ne int_ne_lem (λ b. clamp (pos b) (pos 0) (pos 3)) s.calibration _ _
          (clamp_twice fits.calibration.0 s.calibration fits.calibration.1 fits.calibration.2)))

  cycle_kept :
      pos (
        if leb 1 (byte (dustbin_bytes s) 2) && leb (byte (dustbin_bytes s) 2) 10
        then byte (dustbin_bytes s) 2
        else 5)
      ≡ s.cycle_count
  unfolding dustbin_bytes write_dustbin dustbin_of
  cycle_kept = rw baseline_lem (
      simp (byte-assign, length-assign, length-old)
        (written_kept int_ne int_ne_lem (λ b. pos (if leb 1 b && leb b 10 then b else 5))
          s.cycle_count (clamp_byte s.cycle_count (pos 1) (pos 10)) (byte old_bytes 2)
          (cycle_value fits.cycle_count.0 s.cycle_count fits.cycle_count.1 fits.cycle_count.2
            fits.cycle_count.3)))

  settings_kept : dustbin_of (dustbin_bytes s) ≡ record s { raw = dustbin_bytes s }
  unfolding dustbin_of
  settings_kept = λ i. record {
    toggles = toggles_kept i;
    calibration = calibration_kept i;
    cycle_count = cycle_kept i;
    raw = dustbin_bytes s;
  }

-- Settings in range are decoded from the text that `encode_dp104` writes.
pub decode_dp104-encode_dp104 :
    (s : DustbinSettings)
    → IsDustbinInRange s
    → decode_dp104 (str (encode_dp104 s)) ≡ ok (some (record s { raw = dustbin_bytes s }))
unfolding decode_dp104 encode_dp104
decode_dp104-encode_dp104 s fits =
    ap decode_dustbin (decode_raw_bytes-hex (dustbin_bytes s) true (All-dustbin_bytes s fits.bytes))
    ∙ rw (normalize_dp104_self (dustbin_bytes s) (length-dustbin_bytes s)) (
        indexed_lem 3 (dustbin_bytes s) _ (omega (arith, length-dustbin_bytes s))
        ∙ ap (λ t. ok (some t)) (settings_kept s fits))
