-- ===== src/Dps/Mutators/Frame.antt =====
-- A mutator changes its own bit, and no other.
use mathlib.Core.Path.{subst}
use pypopur.Prelude.{
  ℕ, ◌^◌, ◌<◌, ◌∙◌, true, refl, inl, Bool, inr, false, not, ◌≡◌, ◌&&◌, none, length, length-set,
  All, set, lt→ltb, Bool-cases, ==_iff, ◌==◌, if◌then◌else◌, ltb, not-true, ltb→lt, and_split,
}
use pypopur.Prelude.Bits.{both, both_sound, all_below_sound, all_below}
use pypopur.Codec.{decode_raw_bytes}
use pypopur.Codec.Laws.{length-normalize_bytes}
use pypopur.Dps.Mutators.{dp102_norm, dp102_bytes_with_notification_bit, with_bit}
use pypopur.Dps.Payload.{byte, byte_lt, bool_ne, get_or-set, has_bit, bool_ne_lem}
use pypopur.Py.{Value, ok, Bytes}

bits_table :
    all_below 256 (λ old. both (λ on. all_below 8 (λ k.
      let new = with_bit old (2 ^ k) on in
      ltb new 256
      && all_below 8
          (λ m. not (bool_ne (has_bit new (2 ^ m)) (if m == k then on else has_bit old (2 ^ m)))))))
    ≡ true
unfolding all_below both has_bit with_bit
bits_table = refl

-- Of a byte, `with_bit` sets or clears the one bit.
with_bit_lem :
    (old k : ℕ) (on : Bool)
    → old < 256
    → k < 8
    → (with_bit old (2 ^ k) on < 256)
      × ((m : ℕ)
          → m < 8
          → has_bit (with_bit old (2 ^ k) on) (2 ^ m)
            ≡ (if m == k then on else has_bit old (2 ^ m)))
with_bit_lem old k on small hk =
    let row =
      all_below_sound 8 _ k (both_sound _ on (all_below_sound 256 _ old bits_table small)) hk in
    let (fits, bits) = and_split _ _ row in
    (ltb→lt _ 256 fits, λ m hm. bool_ne_lem _ _ (not-true (all_below_sound 8 _ m bits hm)))

set_bit :
    (old : Bytes) (i k j m : ℕ) (on : Bool)
    → i < length old
    → k < 8
    → m < 8
    → All (λ b. b < 256) old
    → has_bit (byte (set old i (with_bit (byte old i) (2 ^ k) on)) j) (2 ^ m)
      ≡ (if i == j && m == k then on else has_bit (byte old j) (2 ^ m))
set_bit old i k j m on hi hk hm hv =
    let bits = (with_bit_lem (byte old i) k on (byte_lt old i hv) hk).1 m hm in
    elim (Bool-cases (i == j)) [
      | inl here ↦
          rw
            (
              get_or-set old i j (with_bit (byte old i) (2 ^ k) on) 0,
              here,
              lt→ltb i (length old) hi,
            )
            (subst
              (λ (n : ℕ).
                has_bit (with_bit (byte old i) (2 ^ k) on) (2 ^ m)
                ≡ (if m == k then on else has_bit (byte old n) (2 ^ m)))
              ((==_iff i j).0 here) bits)
      | inr there ↦ rw (get_or-set old i j (with_bit (byte old i) (2 ^ k) on) 0, there) refl
    ]

length-dp102_norm : (v : Value) → length (dp102_norm v) ≡ 29
length-dp102_norm v = length-normalize_bytes (decode_raw_bytes v false) 29 none

-- The mutator returns 29 bytes of which bit `m` of byte `j` is as asked if it is bit `k`
-- of byte `i`, and as before if not.
pub dp102_bytes_with_notification_bit_lem :
    (v : Value) (i k j m : ℕ) (on : Bool)
    → i < 29
    → k < 8
    → m < 8
    → All (λ b. b < 256) (dp102_norm v)
    → (new : Bytes) × (dp102_bytes_with_notification_bit v i (2 ^ k) on ≡ ok new)
      × (length new ≡ 29)
      × (has_bit (byte new j) (2 ^ m)
          ≡ (if i == j && m == k then on else has_bit (byte (dp102_norm v) j) (2 ^ m)))
unfolding dp102_bytes_with_notification_bit
dp102_bytes_with_notification_bit_lem v i k j m on hi hk hm hv =
    let old = dp102_norm v in
    let (fits, bits) = with_bit_lem (byte old i) k on (byte_lt old i hv) hk in
    let new = set old i (with_bit (byte old i) (2 ^ k) on) in
    (
      new,
      rw (length-dp102_norm v, lt→ltb i 29 hi, lt→ltb _ 256 fits) refl,
      length-set old i _ ∙ length-dp102_norm v,
      set_bit old i k j m on (rw (length-dp102_norm v) hi) hk hm hv,
    )
