-- ===== src/Sdk/HexUtil/RoundTrip.antt =====
-- Bytes through a hexadecimal text, and integers through four bytes.
use pypopur.Prelude.{
  ◌/◌, ◌^◌, some, refl, ◌<◌, ◌-◌, ◌*◌, ◌%◌, ap, ◌∙◌, [], arith, true, ℕ, ◌≡◌, ◌∷◌, ◌++◌, drop,
  length, All, take, ltb, ==_iff, ◌==◌, if◌then◌else◌,
}
use pypopur.Prelude.Bits.{all_below, all_below_sound}
use pypopur.Prelude.Int.{sub_ℕ, ℤ, pos}
use pypopur.Py.{Bytes}
use pypopur.Py.Hex.{hex, hex_char}
use pypopur.Sdk.HexUtil.{
  pairs, bytes_to_hex_string, upper_char, hex_string_to_bytes, int_to_bytes2, signed_of,
  bytes_to_int2, unite, from_big_endian, char_to_byte,
}
use pypopur.Sdk.Java.{to_int32, low_bits}

pairs_table :
    all_below 256 (λ b.
      unite
        (char_to_byte (upper_char (hex_char (b / 16))))
        (char_to_byte (upper_char (hex_char (b % 16))))
      == b)
    ≡ true
unfolding all_below unite char_to_byte upper_char hex_char
pairs_table = refl

pairs-hex : (bs : Bytes) → All (λ b. b < 256) bs → pairs (hex bs) ≡ bs
unfolding pairs hex
pairs-hex [] h = refl
pairs-hex (b ∷ bs) (hb, h) =
    rw ((==_iff _ _).0 (all_below_sound 256 _ b pairs_table hb), pairs-hex bs h) refl

-- Bytes that are written as a hexadecimal text are read back, if there is at least one.
pub hex_string_to_bytes-bytes_to_hex_string :
    (b : ℕ) (bs : Bytes)
    → All (λ c. c < 256) (b ∷ bs)
    → hex_string_to_bytes (bytes_to_hex_string (some (b ∷ bs))) ≡ some (b ∷ bs)
unfolding hex_string_to_bytes bytes_to_hex_string hex
hex_string_to_bytes-bytes_to_hex_string b bs h = ap some (pairs-hex (b ∷ bs) h)

pub drop-append : (before rest : Bytes) → drop (length before) (before ++ rest) ≡ rest
drop-append [] rest = refl
drop-append (b ∷ before) rest = drop-append before rest

from_big_endian-int_to_bytes2 : (z : ℤ) → from_big_endian 0 (int_to_bytes2 z) ≡ low_bits 32 z
unfolding int_to_bytes2 from_big_endian
from_big_endian-int_to_bytes2 z = omega arith

pub length-int_to_bytes2 : (z : ℤ) → length (int_to_bytes2 z) ≡ 4
unfolding int_to_bytes2
length-int_to_bytes2 z = refl

take-int_to_bytes2 : (z : ℤ) (after : Bytes) → take 4 (int_to_bytes2 z ++ after) ≡ int_to_bytes2 z
unfolding int_to_bytes2
take-int_to_bytes2 z after = refl

low_bits_lt : (z : ℤ) → low_bits 32 z < 2 ^ 32
low_bits_lt z = ground arith

signed_word :
    (v : ℕ)
    → v < 2 ^ 32
    → (if ltb (2 * v) (2 ^ 32) then pos v else sub_ℕ v (2 ^ 32))
      ≡ (if ltb (2 ^ 31 - 1) v then sub_ℕ v (2 ^ 32) else pos v)
signed_word v h = ground arith

pub signed_of-int_to_bytes2 : (z : ℤ) → signed_of (int_to_bytes2 z) ≡ to_int32 z
unfolding signed_of to_int32
signed_of-int_to_bytes2 z =
    rw (from_big_endian-int_to_bytes2 z, length-int_to_bytes2 z)
      (signed_word (low_bits 32 z) (low_bits_lt z))

-- Four bytes that were written after any others give back the number as a Java `int`.
pub bytes_to_int2-int_to_bytes2 :
    (before after : Bytes) (z : ℤ)
    → bytes_to_int2 (before ++ (int_to_bytes2 z ++ after)) (length before) ≡ to_int32 z
unfolding bytes_to_int2
bytes_to_int2-int_to_bytes2 before after z =
    ap (λ (bs : Bytes). signed_of (take 4 bs)) (drop-append before (int_to_bytes2 z ++ after))
    ∙ ap signed_of (take-int_to_bytes2 z after)
    ∙ signed_of-int_to_bytes2 z
