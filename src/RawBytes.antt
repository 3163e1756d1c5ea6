-- ===== src/RawBytes.antt =====
-- `decode_to_bytes` of src/pypopur/app/dp101.py, and src/pypopur/codec.py over it.
pub mod Hex
use pypopur.Prelude.{
  List, Bool, ◌||◌, ℕ, false, map, none, ◌∷◌, Option, ◌-◌, some, [], ◌&&◌, ◌^◌, ltb, ◌==◌,
  if◌then◌else◌,
}
use pypopur.Prelude.Int.{ℤ, ltb_ℤ, pos, negsuc}
use pypopur.Py.{
  mapping, Values, Value, inf, neg_inf, Bytes, nan, Chars, float, finite, iterable, null, nil,
  Float, str, int, bytes, cons, byte_of,
}
use pypopur.Py.Text.{
  starts_with_char, int_of_text, split, is_empty, without_spaces, strip, ends_with_char, lower,
  drop_last, is_digits,
}

abbrev pub int32_max : ℤ
int32_max = pos (2 ^ 31 - 1)

abbrev pub int32_min : ℤ
int32_min = negsuc (2 ^ 31 - 1)

abbrev within_int32 : Option ℤ → Option ℤ
within_int32 none = none
within_int32 (some v) = if ltb_ℤ v int32_min || ltb_ℤ int32_max v then none else some v

-- `_INT_RE.fullmatch`: a sign, if any, and digits.
unfoldable pub matches_int : Chars → Bool
matches_int [] = false
matches_int (c ∷ t) = if c == b'+' || c == b'-' then is_digits t else is_digits (c ∷ t)

to_int_or_null : Chars → Option ℤ
unfolding matches_int int_of_text
to_int_or_null t = if matches_int t then within_int32 (int_of_text 10 t) else none

float_int_value : Float → ℤ
float_int_value nan = pos 0
float_int_value inf = int32_max
float_int_value neg_inf = int32_min
float_int_value (finite z integral) =
    if ltb_ℤ z int32_max then (if ltb_ℤ int32_min z then z else int32_min) else int32_max

int_value : Value → Option ℤ
unfolding float_int_value
int_value (int z) = some z
int_value (float x) = some (float_int_value x)
int_value _ = none

keep_ints : List (Option ℤ) → List ℤ
keep_ints [] = []
keep_ints (none ∷ vs) = keep_ints vs
keep_ints (some v ∷ vs) = v ∷ keep_ints vs

-- An empty list of integers is no payload.
low_bytes : List ℤ → Option Bytes
low_bytes [] = none
low_bytes (v ∷ vs) = some (map byte_of (v ∷ vs))

-- `t[1:]`
tail : Chars → Chars
tail [] = []
tail (c ∷ t) = t

pub decode_json_array_string : Chars → Option Bytes
unfolding tail keep_ints low_bytes
decode_json_array_string text =
    let trimmed = strip text in
    let inner = strip (drop_last (tail trimmed)) in
    if starts_with_char b'[' trimmed && ends_with_char b']' trimmed
    then if is_empty inner
      then some []
      else low_bytes (keep_ints (map (λ t. to_int_or_null (strip t)) (split b',' inner)))
    else none

-- `bytes(…)` refuses what is not in 0..255.
in_byte_range : Option ℤ → Option ℕ
in_byte_range none = none
in_byte_range (some (pos n)) = if ltb n 256 then some n else none
in_byte_range (some (negsuc n)) = none

push : Option ℕ → Option Bytes → Option Bytes
push (some b) (some bs) = some (b ∷ bs)
push _ _ = none

-- An odd character left over is the length test's failure.
hex_pairs : Chars → Option Bytes
unfolding in_byte_range push
hex_pairs [] = some []
hex_pairs (c ∷ []) = none
hex_pairs (c ∷ d ∷ t) = push (in_byte_range (int_of_text 16 (c ∷ d ∷ []))) (hex_pairs t)

pub decode_hex_string : Chars → Option Bytes
unfolding hex_pairs lower without_spaces
decode_hex_string text = hex_pairs (lower (without_spaces text))

int_values : Values → List (Option ℤ)
unfolding int_value
int_values nil = []
int_values (cons v vs) = int_value v ∷ int_values vs

or_else : Option Bytes → Option Bytes → Option Bytes
or_else none other = other
or_else (some bs) other = some bs

unfoldable pub decode_to_bytes : Value → Option Bytes
unfolding int_values keep_ints low_bytes or_else
decode_to_bytes null = none
decode_to_bytes (bytes bs) = some bs
decode_to_bytes (str text) = or_else (decode_json_array_string text) (decode_hex_string text)
decode_to_bytes mapping = none
decode_to_bytes (iterable vs) = low_bytes (keep_ints (int_values vs))
decode_to_bytes _ = none
