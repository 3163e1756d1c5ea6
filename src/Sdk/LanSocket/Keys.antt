-- ===== src/Sdk/LanSocket/Keys.antt =====
-- sdk/lan_socket.py: the keys hidden in the security content, a bitmap.
use pypopur.Prelude.{
  [], ◌-◌, ◌&&◌, List, ◌+◌, Bool, ◌∷◌, ◌*◌, suc, ◌%◌, ◌^◌, ℕ, ◌/◌, ◌||◌, zero, drop, get_or, take,
  length, leb, ltb, ◌==◌, if◌then◌else◌,
}
use pypopur.Prelude.Eq.{text_eq}
use pypopur.Dps.Payload.{byte}
use pypopur.Py.{Bytes, Result, ◌>>=◌, index_error, ok, Exception, raise}
use pypopur.Sdk.LanSocket.{content}
pub mod Total

hash_from : ℕ → Bytes → ℕ
hash_from h [] = h
hash_from h (b ∷ bs) = hash_from ((31 * h + b) % 2 ^ 32) bs

-- `abs` of the hash as a signed word.
unfoldable pub java_hash : Bytes → ℕ
unfolding hash_from
java_hash bs = let h = hash_from 0 bs in if leb (2 ^ 31) h then 2 ^ 32 - h else h

-- Little-endian, `struct.unpack("<I", bs[at:at + 4])` and `"<H"`.
abbrev pub le_word : ℕ → Bytes → ℕ
le_word at bs =
    get_or bs at 0
    + 256 * get_or bs (at + 1) 0
    + 2 ^ 16 * get_or bs (at + 2) 0
    + 2 ^ 24 * get_or bs (at + 3) 0

abbrev le_half : ℕ → Bytes → ℕ
le_half at bs = get_or bs at 0 + 256 * get_or bs (at + 1) 0

-- `pixels[i]`
abbrev pixel_at : Bytes → ℕ → Result Exception ℕ
pixel_at [] i = raise index_error
pixel_at (p ∷ pixels) zero = ok p
pixel_at (p ∷ pixels) (suc i) = pixel_at pixels i

-- The lowest bits of `count` pixels from the cursor on, the first the lowest.
read_bits : ℕ → Bytes → ℕ → Result Exception ℕ
read_bits zero pixels cursor = ok 0
read_bits (suc count) pixels cursor = do
  pixel ← pixel_at pixels cursor
  higher ← read_bits count pixels (cursor + 1)
  ok (pixel % 2 + 2 * higher)

-- `_stego_read_byte`: the byte, and the cursor after it.
unfoldable pub stego_read_byte : Bytes → ℕ → ℕ → Result Exception (ℕ × ℕ)
unfolding read_bits
stego_read_byte pixels plen cursor =
    let at = if leb plen cursor then cursor % plen else cursor in
    read_bits 8 pixels at >>= λ (byte : ℕ). ok (byte, at + 8)

stego_read_bytes : ℕ → Bytes → ℕ → ℕ → Result Exception (Bytes × ℕ)
unfolding stego_read_byte
stego_read_bytes zero pixels plen cursor = ok ([], cursor)
stego_read_bytes (suc n) pixels plen cursor = do
  (byte, cursor) ← stego_read_byte pixels plen cursor
  (rest, cursor) ← stego_read_bytes n pixels plen cursor
  ok (byte ∷ rest, cursor)

unfoldable pub stego_read_string : Bytes → ℕ → ℕ → Result Exception (Bytes × ℕ)
unfolding stego_read_byte stego_read_bytes
stego_read_string pixels plen cursor = do
  (n, cursor) ← stego_read_byte pixels plen cursor
  stego_read_bytes n pixels plen cursor

read_pairs : ℕ → Bytes → ℕ → ℕ → Result Exception (List (Bytes × Bytes))
unfolding stego_read_string
read_pairs zero pixels plen cursor = ok []
read_pairs (suc n) pixels plen cursor = do
  (first, cursor) ← stego_read_string pixels plen cursor
  (second, cursor) ← stego_read_string pixels plen cursor
  rest ← read_pairs n pixels plen cursor
  ok ((first, second) ∷ rest)

-- The layout behind the chosen pixel: its pairs are read and dropped.
unfoldable pub read_shares : Bytes → ℕ → ℕ → Result Exception (ℕ × List Bytes)
unfolding stego_read_byte read_pairs
read_shares pixels plen cursor = stego_read_byte pixels plen cursor >>= λ (c : ℕ × ℕ).
    if leb 1 c.0 && leb c.0 5
    then (stego_read_byte pixels plen c.1 >>= λ (p : ℕ × ℕ).
        read_pairs (p.0 * c.0) pixels plen (p.1 + 0x20) >>= λ (shares : List (Bytes × Bytes)).
        ok (1, []))
    else ok (0x15, [])

abbrev valid_header : Bytes → Bool
valid_header content =
    leb 0x36 (length content)
    && text_eq (take 2 content) (b'B' ∷ b'M' ∷ [])
    && leb 0x4800 (le_word 2 content)
    && ltb (le_word 2 content) 0x200001
    && leb (le_word 0xa content) (le_word 2 content - 0x36)
    && (le_half 0x1c content == 24 || le_half 0x1c content == 32)
    && le_word 0x1e content == 0

-- What follows the validation: the chosen pixel tells the layout.
unfoldable pub read_layout : Bytes → Bytes → ℕ → Result Exception (ℕ × List Bytes)
unfolding java_hash read_shares
read_layout key pixels plen =
    let off = (java_hash key % plen / 2) % plen in
    pixel_at pixels off >>= λ (v : ℕ).
    if ltb 2 v
    then ok (0x15, [])
    else if v == 1
    then ok (0x0b, [])
    else read_shares pixels plen (off + 1)

-- The file size is at least 0x4800, so that it is subtracted from without a sign.
unfoldable pub read_keys_from_content : Bytes → Bytes → Result Exception (ℕ × List Bytes)
unfolding read_layout
read_keys_from_content key content =
    let pixels = drop 0x36 content in
    let plen = le_word 2 content - le_word 0xa content in
    if valid_header content && ltb 0 plen && leb plen (length pixels)
    then read_layout key pixels plen
    else ok (0x15, [])
