-- ===== src/Py/Base64.antt =====
-- `base64`: the encoding, and the strict and the lenient decoding.
use pypopur.Prelude.{
  [], ◌/◌, ◌%◌, ℕ, List, ◌-◌, Option, ◌*◌, ◌+◌, some, ◌&&◌, ◌∷◌, none, ◌==◌, if◌then◌else◌, leb,
  ltb,
}
use pypopur.Py.{Bytes, Chars}
use pypopur.Py.Text.{is_empty}

unfoldable pub sextet : ℕ → Option ℕ
sextet c =
    if leb b'A' c && leb c b'Z'
    then some (c - b'A')
    else if leb b'a' c && leb c b'z'
    then some (c - b'a' + 26)
    else if leb b'0' c && leb c b'9'
    then some (c - b'0' + 52)
    else if c == b'+'
    then some 62
    else if c == b'/'
    then some 63
    else none

one_byte : Option ℕ → Option ℕ → Option (List ℕ)
one_byte (some a) (some b) = some ((a * 4 + b / 16) ∷ [])
one_byte _ _ = none

two_bytes : Option ℕ → Option ℕ → Option ℕ → Option (List ℕ)
two_bytes (some a) (some b) (some c) = some ((a * 4 + b / 16) ∷ (b % 16 * 16 + c / 4) ∷ [])
two_bytes _ _ _ = none

three_bytes : Option ℕ → Option ℕ → Option ℕ → Option ℕ → Option (List ℕ) → Option (List ℕ)
three_bytes (some a) (some b) (some c) (some d) (some rest) =
    some ((a * 4 + b / 16) ∷ (b % 16 * 16 + c / 4) ∷ (c % 4 * 64 + d) ∷ rest)
three_bytes _ _ _ _ _ = none

-- `base64.b64decode(text, validate=True)`: groups of four, padding only at the end.
unfoldable pub b64decode : List ℕ → Option (List ℕ)
unfolding sextet one_byte two_bytes three_bytes
b64decode [] = some []
b64decode (a ∷ b ∷ c ∷ d ∷ t) =
    let four = three_bytes (sextet a) (sextet b) (sextet c) (sextet d) (b64decode t) in
    if d == b'=' && is_empty t
    then if c == b'='
      then one_byte (sextet a) (sextet b)
      else two_bytes (sextet a) (sextet b) (sextet c)
    else four
b64decode _ = none

unfoldable pub b64_char : ℕ → ℕ
b64_char n =
    if ltb n 26
    then b'A' + n
    else if ltb n 52
    then b'a' + (n - 26)
    else if ltb n 62
    then b'0' + (n - 52)
    else if n == 62
    then b'+'
    else b'/'

-- `base64.b64encode`
unfoldable pub b64encode : Bytes → Chars
unfolding b64_char
b64encode [] = []
b64encode (a ∷ []) = b64_char (a / 4) ∷ b64_char (a % 4 * 16) ∷ b'=' ∷ b'=' ∷ []
b64encode (a ∷ b ∷ []) =
    b64_char (a / 4) ∷ b64_char (a % 4 * 16 + b / 16) ∷ b64_char (b % 16 * 4) ∷ b'=' ∷ []
b64encode (a ∷ b ∷ c ∷ rest) =
    b64_char (a / 4)
    ∷ b64_char (a % 4 * 16 + b / 16)
    ∷ b64_char (b % 16 * 4 + c / 64)
    ∷ b64_char (c % 64)
    ∷ b64encode rest

unfoldable pub cons_byte : ℕ → Option (List ℕ) → Option (List ℕ)
cons_byte b none = none
cons_byte b (some bs) = some (b ∷ bs)

-- The state of `binascii.a2b_base64`: the place in the group of four, the bits that are left of it,
-- and the padding characters since the last digit. Padding that completes a group ends the data.
unfoldable pub a2b : (place left pads : ℕ) → List ℕ → Option (List ℕ)
unfolding cons_byte sextet
a2b place left pads [] = if place == 0 then some [] else none
a2b place left pads (c ∷ t) =
    let after_pad = a2b place left (pads + 1) t in
    let skipped = a2b place left pads t in
    if c == b'='
    then if leb 2 place && leb 4 (place + (pads + 1)) then some [] else after_pad
    else elim (sextet c) [
      | none ↦ skipped
      | some v ↦
          let first = a2b 1 v 0 t in
          let second = cons_byte (left * 4 + v / 16) (a2b 2 (v % 16) 0 t) in
          let third = cons_byte (left * 16 + v / 4) (a2b 3 (v % 4) 0 t) in
          let fourth = cons_byte (left * 64 + v) (a2b 0 0 0 t) in
          if place == 0
          then first
          else if place == 1
          then second
          else if place == 2
          then third
          else fourth
    ]

-- `base64.b64decode(text)`
unfoldable pub a2b_base64 : List ℕ → Option (List ℕ)
unfolding a2b
a2b_base64 t = a2b 0 0 0 t
