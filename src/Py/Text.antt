-- ===== src/Py/Text.antt =====
-- `str` methods and `int(text, base)`, over code points.
use Prim.Native.Char.{code}
use pypopur.Prelude.{
  false, ◌+◌, some, ℕ, [], true, ◌%◌, Bool, Option, String, suc, ◌∷◌, ◌-◌, ◌*◌, none, ◌/◌, List,
  ◌&&◌, zero, ◌++◌, ◌||◌, ltb, ◌==◌, if◌then◌else◌, leb,
}
use pypopur.Prelude.Int.{◌-ℤ◌, pos, negsuc, ℤ}

abbrev pub codes : String → List ℕ
codes String.[] = []
codes (String.◌∷◌ c s) = code c ∷ codes s

abbrev pub is_empty {ℓ} : {A : Type ℓ} → List A → Bool
is_empty [] = true
is_empty (x ∷ xs) = false

-- `str.isspace` of a character, and `\s`.
unfoldable pub is_space : ℕ → Bool
is_space c =
    leb 9 c && leb c 13
    || leb 28 c && leb c 32
    || c == 0x85
    || c == 0xa0
    || c == 0x1680
    || leb 0x2000 c && leb c 0x200a
    || c == 0x2028
    || c == 0x2029
    || c == 0x202f
    || c == 0x205f
    || c == 0x3000

unfoldable pub lower_char : ℕ → ℕ
lower_char c = if leb b'A' c && leb c b'Z' then c + 32 else c

unfoldable pub lower : List ℕ → List ℕ
unfolding lower_char
lower [] = []
lower (c ∷ t) = lower_char c ∷ lower t

-- `re.sub(r"\s+", "", t)` and `"".join(t.split())`
unfoldable pub without_spaces : List ℕ → List ℕ
unfolding is_space
without_spaces [] = []
without_spaces (c ∷ t) = let rest = without_spaces t in if is_space c then rest else c ∷ rest

unfoldable pub lstrip : List ℕ → List ℕ
unfolding is_space
lstrip [] = []
lstrip (c ∷ t) = let rest = lstrip t in if is_space c then rest else c ∷ t

unfoldable pub rstrip : List ℕ → List ℕ
unfolding is_space
rstrip [] = []
rstrip (c ∷ t) = let rest = rstrip t in if is_space c && is_empty rest then [] else c ∷ rest

unfoldable pub strip : List ℕ → List ℕ
unfolding lstrip rstrip
strip t = rstrip (lstrip t)

unfoldable pub starts_with_char : ℕ → List ℕ → Bool
starts_with_char c [] = false
starts_with_char c (x ∷ t) = x == c

unfoldable pub ends_with_char : ℕ → List ℕ → Bool
ends_with_char c [] = false
ends_with_char c (x ∷ []) = x == c
ends_with_char c (x ∷ y ∷ t) = ends_with_char c (y ∷ t)

-- `t[:-1]`
unfoldable pub drop_last : List ℕ → List ℕ
drop_last [] = []
drop_last (x ∷ []) = []
drop_last (x ∷ y ∷ t) = x ∷ drop_last (y ∷ t)

-- `t.split(sep)`, the piece that is being read first.
split_onto : ℕ → List ℕ → List ℕ → List (List ℕ)
split_onto sep piece [] = piece ∷ []
split_onto sep piece (c ∷ t) =
    let here = piece ∷ split_onto sep [] t in
    let on = split_onto sep (piece ++ c ∷ []) t in if c == sep then here else on

unfoldable pub split : ℕ → List ℕ → List (List ℕ)
unfolding split_onto
split sep t = split_onto sep [] t

unfoldable pub digit_value : ℕ → Option ℕ
digit_value c =
    if leb b'0' c && leb c b'9'
    then some (c - b'0')
    else if leb b'a' c && leb c b'z'
    then some (c - b'a' + 10)
    else if leb b'A' c && leb c b'Z'
    then some (c - b'A' + 10)
    else none

abbrev hex_digit : ℕ → Bool
hex_digit c = leb b'0' c && leb c b'9' || leb b'a' c && leb c b'f' || leb b'A' c && leb c b'F'

-- `\d+` on the whole text, for ASCII digits.
unfoldable pub is_digits : List ℕ → Bool
is_digits [] = false
is_digits (c ∷ []) = leb b'0' c && leb c b'9'
is_digits (c ∷ d ∷ t) = leb b'0' c && leb c b'9' && is_digits (d ∷ t)

unfoldable pub is_hex_digits : List ℕ → Bool
is_hex_digits [] = false
is_hex_digits (c ∷ []) = hex_digit c
is_hex_digits (c ∷ d ∷ t) = hex_digit c && is_hex_digits (d ∷ t)

-- The digits of `int(text, base)`: a `_` stands between two digits.
digits : ℕ → ℕ → Bool → List ℕ → Option ℕ
unfolding digit_value
digits base acc after_digit [] = if after_digit then some acc else none
digits base acc after_digit (c ∷ t) =
    let gap = digits base acc false t in
    elim (digit_value c) [
      | none ↦ if c == b'_' && after_digit then gap else none
      | some d ↦ let on = digits base (acc * base + d) true t in if ltb d base then on else none
    ]

-- After `0x`, which base 16 allows, one `_` may stand.
drop_prefix : ℕ → List ℕ → List ℕ
drop_prefix base (z ∷ x ∷ u ∷ t) =
    if base == 16 && z == b'0' && (x == b'x' || x == b'X')
    then if u == b'_' then t else u ∷ t
    else z ∷ x ∷ u ∷ t
drop_prefix base t = t

magnitude : ℕ → List ℕ → Option ℕ
unfolding digits drop_prefix
magnitude base t = digits base 0 false (drop_prefix base t)

abbrev positive : Option ℕ → Option ℤ
positive none = none
positive (some n) = some (pos n)

abbrev negative : Option ℕ → Option ℤ
negative none = none
negative (some n) = some (pos 0 -ℤ pos n)

signed : ℕ → List ℕ → Option ℤ
unfolding magnitude ◌-ℤ◌
signed base [] = none
signed base (c ∷ t) =
    if c == b'-'
    then negative (magnitude base t)
    else if c == b'+'
    then positive (magnitude base t)
    else positive (magnitude base (c ∷ t))

-- `int(text, base)`; `none` is the `ValueError`.
unfoldable pub int_of_text : ℕ → List ℕ → Option ℤ
unfolding signed strip
int_of_text base t = signed base (strip t)

decimal_digits : ℕ → ℕ → List ℕ → List ℕ
decimal_digits zero n rest = rest
decimal_digits (suc fuel) n rest =
    let digit = (b'0' + n % 10) ∷ rest in
    let longer = decimal_digits fuel (n / 10) digit in if ltb n 10 then digit else longer

-- `str(z)` of an integer. A number has no more digits than it counts.
unfoldable pub text_of_int : ℤ → List ℕ
unfolding decimal_digits
text_of_int (pos n) = decimal_digits (suc n) n []
text_of_int (negsuc n) = b'-' ∷ decimal_digits (suc (suc n)) (suc n) []
