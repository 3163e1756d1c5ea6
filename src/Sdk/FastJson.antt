-- ===== src/Sdk/FastJson.antt =====
-- sdk/_fastjson.py: what is done to the text that the JSON library writes.
-- `\uXXXX` at the start of a text, with four hexadecimal digits.
use pypopur.Prelude.{◌&&◌, true, ℕ, Bool, ◌∷◌, false, ◌==◌}
use pypopur.Py.{Chars}
use pypopur.Sdk.HexUtil.{check_hex_char, upper_char}

abbrev is_escape : (b u p q r s : ℕ) → Bool
is_escape b u p q r s =
    b == b'\\'
    && u == b'u'
    && check_hex_char p
    && check_hex_char q
    && check_hex_char r
    && check_hex_char s

-- `_U_ESCAPE.sub(...)`: the digits of every escape in upper case. A text of fewer than six
-- characters has none.
unfoldable pub upper_escapes : Chars → Chars
unfolding check_hex_char upper_char
upper_escapes (b ∷ u ∷ p ∷ q ∷ r ∷ s ∷ t) = elim (is_escape b u p q r s) [
  | true ↦ b ∷ u ∷ upper_char p ∷ upper_char q ∷ upper_char r ∷ upper_char s ∷ upper_escapes t
  | false ↦ b ∷ upper_escapes (u ∷ p ∷ q ∷ r ∷ s ∷ t)
]
upper_escapes t = t
