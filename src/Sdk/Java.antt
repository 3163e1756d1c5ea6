-- ===== src/Sdk/Java.antt =====
-- sdk/_java.py: the arithmetic of the Java machine.
pub mod Range
use pypopur.Prelude.{
  ◌||◌, false, ℕ, ◌-◌, Bool, ◌^◌, not, ◌%◌, ◌&&◌, take, length, drop, if◌then◌else◌, ltb,
}
use pypopur.Prelude.Int.{pos_part, ◌*ℤ◌, pos, sub_ℕ, negsuc, ltb_ℤ, ℤ}
use pypopur.Py.{ok, finite, raise, nan, int, float, Chars, Value, inf, neg_inf, Result}

-- The arguments of a call that raises.
pub data JavaError : Type 0 where
  java_cast_error string_index_error : JavaError

abbrev pub int32_min : ℤ
int32_min = negsuc (2 ^ 31 - 1)

abbrev pub int32_max : ℤ
int32_max = pos (2 ^ 31 - 1)

-- `value & (2 ** w - 1)`, also of a negative number.
abbrev pub low_bits : ℕ → ℤ → ℕ
low_bits w (pos n) = n % 2 ^ w
low_bits w (negsuc n) = 2 ^ w - 1 - n % 2 ^ w

unfoldable pub to_int32 : ℤ → ℤ
to_int32 value = let v = low_bits 32 value in if ltb (2 ^ 31 - 1) v then sub_ℕ v (2 ^ 32) else pos v

unfoldable pub to_java_byte : ℤ → ℤ
to_java_byte value = let v = low_bits 8 value in if ltb 0x7f v then sub_ℕ v 0x100 else pos v

unfoldable pub java_shl_int : ℤ → ℤ → ℤ
java_shl_int value shift = to_int32 (value *ℤ pos (2 ^ low_bits 5 shift))

unfoldable pub java_number_int_value : Value → Result JavaError ℤ
java_number_int_value (int z) = ok (to_int32 z)
java_number_int_value (float nan) = ok (pos 0)
java_number_int_value (float inf) = ok int32_max
java_number_int_value (float neg_inf) = ok int32_min
java_number_int_value (float (finite z integral)) =
    if ltb_ℤ z int32_max then (if ltb_ℤ int32_min z then ok z else ok int32_min) else ok int32_max
java_number_int_value _ = raise java_cast_error

unfoldable pub is_java_integer : Value → Bool
is_java_integer (int z) = not (ltb_ℤ z int32_min) && not (ltb_ℤ int32_max z)
is_java_integer _ = false

unfoldable pub is_java_long : Value → Bool
unfolding is_java_integer
is_java_long (int z) = not (is_java_integer (int z))
is_java_long _ = false

unfoldable pub java_substring : Chars → ℤ → ℤ → Result JavaError Chars
java_substring value begin end =
    if ltb_ℤ begin (pos 0) || ltb_ℤ (pos (length value)) end || ltb_ℤ end begin
    then raise string_index_error
    else ok (take (pos_part end - pos_part begin) (drop (pos_part begin) value))
