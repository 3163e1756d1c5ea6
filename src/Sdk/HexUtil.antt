-- ===== src/Sdk/HexUtil.antt =====
-- sdk/hexutil.py: hexadecimal texts, and four-byte integers.
pub mod RoundTrip
use pypopur.Prelude.{
  ◌/◌, Option, ◌%◌, some, ◌+◌, List, ◌&&◌, ◌||◌, ◌-◌, ℕ, ◌^◌, ◌∷◌, none, true, [], ◌*◌, Bool, map,
  false, ◌++◌, length, drop, take, leb, if◌then◌else◌, ltb,
}
use pypopur.Prelude.Int.{sub_ℕ, ℤ, pos}
use pypopur.Py.{byte_of, Bytes, Chars}
use pypopur.Py.Hex.{hex}
use pypopur.Sdk.Java.{low_bits}

-- `None` of no bytes.
unfoldable pub bytes_to_hex_string : Option Bytes → Option Chars
bytes_to_hex_string none = none
bytes_to_hex_string (some []) = none
bytes_to_hex_string (some (b ∷ bs)) = some (hex (b ∷ bs))

-- `_HEX_CHARS.find(char)`; `none` is -1.
unfoldable pub char_to_byte : ℕ → Option ℕ
char_to_byte c =
    if leb b'0' c && leb c b'9'
    then some (c - b'0')
    else if leb b'A' c && leb c b'F'
    then some (10 + (c - b'A'))
    else none

unfoldable pub check_hex_char : ℕ → Bool
check_hex_char c = leb b'0' c && leb c b'9' || leb b'A' c && leb c b'F' || leb b'a' c && leb c b'f'

all_hex : Chars → Bool
all_hex [] = true
all_hex (c ∷ t) = check_hex_char c && all_hex t

unfoldable pub check_hex_string : Option Chars → Bool
unfolding all_hex
check_hex_string none = false
check_hex_string (some []) = false
check_hex_string (some (c ∷ t)) = all_hex (c ∷ t)

-- `str.upper` of an ASCII text.
unfoldable pub upper_char : ℕ → ℕ
upper_char c = if leb b'a' c && leb c b'z' then c - 32 else c

-- `((hi << 4) | lo) & 0xFF`, where a digit that is missed is -1.
unfoldable pub unite : Option ℕ → Option ℕ → ℕ
unite hi none = 0xff
unite none (some lo) = 0xf0 + lo
unite (some hi) (some lo) = (hi * 16 + lo) % 256

-- The last character of a text of odd length is dropped.
unfoldable pub pairs : Chars → Bytes
pairs [] = []
pairs (a ∷ []) = []
pairs (a ∷ b ∷ t) = unite (char_to_byte (upper_char a)) (char_to_byte (upper_char b)) ∷ pairs t

unfoldable pub hex_string_to_bytes : Option Chars → Option Bytes
hex_string_to_bytes none = none
hex_string_to_bytes (some []) = none
hex_string_to_bytes (some (c ∷ t)) = some (pairs (c ∷ t))

-- `struct.pack(">I", value & 0xFFFFFFFF)`
unfoldable pub int_to_bytes2 : ℤ → Bytes
int_to_bytes2 value =
    let v = low_bits 32 value in v / 2 ^ 24 ∷ v / 2 ^ 16 % 256 ∷ v / 2 ^ 8 % 256 ∷ v % 256 ∷ []

-- `int.from_bytes(bs, "big")`, onto what was read before.
unfoldable pub from_big_endian : ℕ → Bytes → ℕ
from_big_endian acc [] = acc
from_big_endian acc (b ∷ bs) = from_big_endian (acc * 256 + b) bs

-- `int.from_bytes(part, "big", signed=True)`: signed at the width of the bytes that are there.
unfoldable pub signed_of : Bytes → ℤ
unfolding from_big_endian
signed_of part =
    let v = from_big_endian 0 part in
    let width = 2 ^ (8 * length part) in if ltb (2 * v) width then pos v else sub_ℕ v width

unfoldable pub bytes_to_int2 : Bytes → ℕ → ℤ
unfolding signed_of
bytes_to_int2 bs offset = signed_of (take 4 (drop offset bs))

unfoldable pub contact : List Bytes → Bytes
contact [] = []
contact (part ∷ parts) = part ++ contact parts

unfoldable pub byte_list_to_bytes : List ℤ → Bytes
byte_list_to_bytes values = map byte_of values
