-- ===== src/Py/Hex.antt =====
-- `bytes.hex` and its inverse through `int(pair, 16)`.
use pypopur.Prelude.{ℕ, ◌+◌, ◌-◌, ◌/◌, ◌%◌, List, [], ◌∷◌, if◌then◌else◌, ltb}

unfoldable pub hex_char : ℕ → ℕ
hex_char d = if ltb d 10 then b'0' + d else b'a' + (d - 10)

unfoldable pub hex : List ℕ → List ℕ
unfolding hex_char
hex [] = []
hex (b ∷ bs) = hex_char (b / 16) ∷ hex_char (b % 16) ∷ hex bs
