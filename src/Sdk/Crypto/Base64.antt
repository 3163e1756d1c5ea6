-- ===== src/Sdk/Crypto/Base64.antt =====
-- sdk/crypto.py: base64 text is decoded to the bytes that were encoded.
use mathlib.Core.List.{append-nil}
use pypopur.Prelude.{
  ◌&&◌, Option, ℕ, ◌+◌, none, refl, ◌≡◌, ◌/◌, arith, true, false, not, ◌∷◌, Bool, ◌<◌, ◌%◌, [], ◌*◌,
  some, ap, length, All, ==_iff, ◌==◌, and_split, not-true,
}
use pypopur.Prelude.Bits.{all_below, all_below_sound}
use pypopur.Py.{Bytes}
use pypopur.Py.Base64.{sextet, a2b, a2b_base64, b64_char, b64encode, cons_byte}
use pypopur.Sdk.Crypto.{base64_decode, pad_quads, filter_alphabet}

reads : ℕ → Bool
unfolding sextet b64_char
reads n = elim (sextet (b64_char n)) [ none ↦ false | some v ↦ v == n ] && not (b64_char n == b'=')

digit_table : all_below 64 reads ≡ true
unfolding all_below reads b64_char sextet
digit_table = refl

read_digit : (o : Option ℕ) (n : ℕ) → elim o [ none ↦ false | some v ↦ v == n ] ≡ true → o ≡ some n
read_digit none n h = cc
read_digit (some v) n h = ap some ((==_iff v n).0 h)

digit_lem : (n : ℕ) → n < 64 → (sextet (b64_char n) ≡ some n) × ((b64_char n == b'=') ≡ false)
unfolding reads
digit_lem n h =
    let (value, other) = and_split _ _ (all_below_sound 64 reads n digit_table h) in
    (read_digit (sextet (b64_char n)) n value, not-true other)

module _ (n left pads : ℕ) (t : Bytes) (h : n < 64) where
  first_lem : a2b 0 left pads (b64_char n ∷ t) ≡ a2b 1 n 0 t
  unfolding a2b
  first_lem = rw ((digit_lem n h).1, (digit_lem n h).0) refl

  second_lem : a2b 1 left pads (b64_char n ∷ t) ≡ cons_byte (left * 4 + n / 16) (a2b 2 (n % 16) 0 t)
  unfolding a2b
  second_lem = rw ((digit_lem n h).1, (digit_lem n h).0) refl

  third_lem : a2b 2 left pads (b64_char n ∷ t) ≡ cons_byte (left * 16 + n / 4) (a2b 3 (n % 4) 0 t)
  unfolding a2b
  third_lem = rw ((digit_lem n h).1, (digit_lem n h).0) refl

  fourth_lem : a2b 3 left pads (b64_char n ∷ t) ≡ cons_byte (left * 64 + n) (a2b 0 0 0 t)
  unfolding a2b
  fourth_lem = rw ((digit_lem n h).1, (digit_lem n h).0) refl

abbrev IsBytes : Bytes → Type 0
IsBytes bs = All (λ b. b < 256) bs

end_whole : a2b 0 0 0 [] ≡ some []
unfolding a2b
end_whole = refl

end_two : (left : ℕ) → a2b 2 left 0 (b'=' ∷ b'=' ∷ []) ≡ some []
unfolding a2b
end_two left = refl

end_three : (left : ℕ) → a2b 3 left 0 (b'=' ∷ []) ≡ some []
unfolding a2b
end_three left = refl

a2b-b64encode : (bs : Bytes) → IsBytes bs → a2b 0 0 0 (b64encode bs) ≡ some bs
unfolding b64encode cons_byte
a2b-b64encode [] h = end_whole
a2b-b64encode (a ∷ []) (ha, h) =
    let same : a / 4 * 4 + a % 4 * 16 / 16 ≡ a = omega arith in
    rw
      (
        first_lem (a / 4) 0 0 _ (omega arith),
        second_lem (a % 4 * 16) (a / 4) 0 _ (omega arith),
        end_two _,
        same,
      )
      refl
a2b-b64encode (a ∷ b ∷ []) (ha, (hb, h)) =
    let one : a / 4 * 4 + (a % 4 * 16 + b / 16) / 16 ≡ a = omega arith in
    let two : (a % 4 * 16 + b / 16) % 16 * 16 + b % 16 * 4 / 4 ≡ b = omega arith in
    rw
      (
        first_lem (a / 4) 0 0 _ (omega arith),
        second_lem (a % 4 * 16 + b / 16) (a / 4) 0 _ (omega arith),
        third_lem (b % 16 * 4) _ 0 _ (omega arith),
        end_three _,
        one,
        two,
      )
      refl
a2b-b64encode (a ∷ b ∷ c ∷ rest) (ha, (hb, (hc, h))) =
    let one : a / 4 * 4 + (a % 4 * 16 + b / 16) / 16 ≡ a = omega arith in
    let two : (a % 4 * 16 + b / 16) % 16 * 16 + (b % 16 * 4 + c / 64) / 4 ≡ b = omega arith in
    let three : (b % 16 * 4 + c / 64) % 4 * 64 + c % 64 ≡ c = omega arith in
    rw
      (
        first_lem (a / 4) 0 0 _ (omega arith),
        second_lem (a % 4 * 16 + b / 16) (a / 4) 0 _ (omega arith),
        third_lem (b % 16 * 4 + c / 64) _ 0 _ (omega arith),
        fourth_lem (c % 64) _ 0 _ (omega arith),
        a2b-b64encode rest h,
        one,
        two,
        three,
      )
      refl

kept_digit :
    (n : ℕ) (t : Bytes) → n < 64 → filter_alphabet (b64_char n ∷ t) ≡ b64_char n ∷ filter_alphabet t
unfolding filter_alphabet
kept_digit n t h = rw ((digit_lem n h).0) refl

kept_pads :
    (filter_alphabet [] ≡ [])
    × (filter_alphabet (b'=' ∷ []) ≡ b'=' ∷ [])
    × (filter_alphabet (b'=' ∷ b'=' ∷ []) ≡ b'=' ∷ b'=' ∷ [])
unfolding filter_alphabet sextet
kept_pads = (refl, refl, refl)

filter_alphabet-b64encode :
    (bs : Bytes) → IsBytes bs → filter_alphabet (b64encode bs) ≡ b64encode bs
unfolding b64encode
filter_alphabet-b64encode [] h = kept_pads.0
filter_alphabet-b64encode (a ∷ []) (ha, h) =
    let (none_left, one, two) = kept_pads in
    rw (kept_digit (a / 4) _ (omega arith), kept_digit (a % 4 * 16) _ (omega arith), two) refl
filter_alphabet-b64encode (a ∷ b ∷ []) (ha, (hb, h)) =
    let (none_left, one, two) = kept_pads in
    rw
      (
        kept_digit (a / 4) _ (omega arith),
        kept_digit (a % 4 * 16 + b / 16) _ (omega arith),
        kept_digit (b % 16 * 4) _ (omega arith),
        one,
      )
      refl
filter_alphabet-b64encode (a ∷ b ∷ c ∷ rest) (ha, (hb, (hc, h))) =
    rw
      (
        kept_digit (a / 4) _ (omega arith),
        kept_digit (a % 4 * 16 + b / 16) _ (omega arith),
        kept_digit (b % 16 * 4 + c / 64) _ (omega arith),
        kept_digit (c % 64) _ (omega arith),
        filter_alphabet-b64encode rest h,
      )
      refl

length-b64encode : (bs : Bytes) → length (b64encode bs) % 4 ≡ 0
unfolding b64encode
length-b64encode [] = refl
length-b64encode (a ∷ []) = refl
length-b64encode (a ∷ b ∷ []) = refl
length-b64encode (a ∷ b ∷ c ∷ rest) = omega (arith, length-b64encode rest)

-- Bytes that were encoded in base64 are decoded.
pub base64_decode-b64encode : (bs : Bytes) → IsBytes bs → base64_decode (b64encode bs) ≡ some bs
unfolding base64_decode a2b_base64
base64_decode-b64encode bs h =
    let full : pad_quads (b64encode bs) ≡ b64encode bs =
      rw (length-b64encode bs) (append-nil (b64encode bs)) in
    rw (base64_decode, filter_alphabet-b64encode bs h, full, a2b-b64encode bs h) refl
