-- ===== src/Codec.antt =====
-- src/pypopur/codec.py: the raw-value helpers of the data-point codecs.
pub mod Laws
pub mod Hex
-- `decode_raw_bytes(value, allow_base64=…)`
use pypopur.Prelude.{
  false, true, ℕ, ◌++◌, ◌∷◌, some, ◌-◌, none, Bool, Option, take, replicate, length, if◌then◌else◌,
}
use pypopur.Prelude.Eq.{text_eq}
use pypopur.Prelude.Int.{ℤ}
use pypopur.Py.{
  str, is_nonzero, bool, int_of_float, max, ok, Exception, min, Result, float, ◌>>=◌, Value, int,
  Bytes, Chars,
}
use pypopur.Py.Base64.{b64decode}
use pypopur.Py.Text.{lower, int_of_text, strip, codes, without_spaces}
use pypopur.RawBytes.{decode_to_bytes}

unfoldable pub decode_raw_bytes : Value → Bool → Option Bytes
decode_raw_bytes value allow_base64 = elim (decode_to_bytes value) [
  | some bs ↦ some bs
  | none ↦ elim value [
    | str t ↦ if allow_base64 then b64decode (without_spaces t) else none
    | _ ↦ none
  ]
]

-- `bs[:length].ljust(length, b"\x00")`
unfoldable pub fit : ℕ → Bytes → Bytes
fit length_ bs = take length_ bs ++ replicate (length_ - length bs) 0

-- The value is `None` or bytes, as at every call.
unfoldable pub normalize_bytes : Option Bytes → ℕ → Option Bytes → Bytes
unfolding fit
normalize_bytes (some (b ∷ bs)) size default = fit size (b ∷ bs)
normalize_bytes _ size (some (b ∷ bs)) = fit size (b ∷ bs)
normalize_bytes _ size _ = fit size (replicate size 0)

-- `max(minimum, min(maximum, value))`
unfoldable pub clamp : ℤ → ℤ → ℤ → ℤ
clamp value minimum maximum = max minimum (min maximum value)

unfoldable pub parse_bool_text : Chars → Result Exception Bool
parse_bool_text text =
    if text_eq text (codes "true")
    then ok true
    else if text_eq text (codes "false")
    then ok false
    else elim (int_of_text 10 text) [ none ↦ ok false | some z ↦ ok (is_nonzero z) ]

unfoldable pub parse_bool : Value → Result Exception Bool
unfolding parse_bool_text
parse_bool (bool b) = ok b
parse_bool (int z) = ok (is_nonzero z)
parse_bool (float x) = do z ← int_of_float x; ok (is_nonzero z)
parse_bool (str t) = parse_bool_text (lower (strip t))
parse_bool _ = ok false
