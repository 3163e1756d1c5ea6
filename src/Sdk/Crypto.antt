-- ===== src/Sdk/Crypto.antt =====
-- sdk/crypto.py: the ciphers and checksums as the wire formats use them.
pub mod Laws
pub mod Base64
use pypopur.Prelude.{
  Bool, some, [], Option, ◌^◌, ◌++◌, false, ◌∷◌, map, ◌||◌, ◌&&◌, true, none, ◌-◌, ℕ, ◌%◌, drop,
  replicate, take, length, ◌==◌, if◌then◌else◌, ltb,
}
use pypopur.Prelude.Int.{ℤ, negsuc, pos, sub_ℕ}
use pypopur.Py.{Bytes, Chars}
use pypopur.Py.Base64.{sextet, a2b_base64, b64encode}
use pypopur.Py.Hex.{hex}
use pypopur.Py.Text.{is_empty, int_of_text}
use pypopur.Sdk.HexUtil.{upper_char}
use mathlib.Core.Option

-- The functions of the libraries; `none` where they raise. `utf8` encodes a text, `utf8_decode`
-- decodes with replacement and `utf8_strict` without.
pub record CryptoLib : Type 0 where
  pub utf8 : Chars → Bytes
  pub utf8_decode : Bytes → Chars
  pub utf8_strict : Bytes → Option Chars
  pub md5_hexdigest : Bytes → Chars
  pub zlib_crc32 : Bytes → ℕ
  pub pkcs7_pad : Bytes → Bytes
  pub pkcs7_unpad : Bytes → Option Bytes
  pub ecb_encrypt : (key bs : Bytes) → Option Bytes
  pub ecb_decrypt : (key bs : Bytes) → Option Bytes
  pub gcm_encrypt : (key nonce bs aad : Bytes) → Option Bytes
  pub gcm_decrypt : (key nonce bs aad : Bytes) → Option Bytes

-- `str.upper` of ASCII.
abbrev pub upper : Chars → Chars
upper text = map upper_char text

-- A byte of `bytes(...)`: other integers raise.
abbrev to_byte : Option ℤ → Option ℕ
to_byte none = none
to_byte (some (pos n)) = if ltb n 256 then some n else none
to_byte (some (negsuc n)) = none

cons_opt : Option ℕ → Option Bytes → Option Bytes
cons_opt (some b) (some bs) = some (b ∷ bs)
cons_opt _ _ = none

-- `AESUtil.hex2byte`; `none` also for an odd number of digits, where the code gives `None` and its
-- callers raise.
unfoldable pub hex2byte : Chars → Option Bytes
unfolding cons_opt int_of_text
hex2byte [] = some []
hex2byte (a ∷ []) = none
hex2byte (a ∷ b ∷ t) = cons_opt (to_byte (int_of_text 16 (a ∷ b ∷ []))) (hex2byte t)

abbrev known : Option ℕ → Bool
known none = false
known (some v) = true

abbrev in_alphabet : ℕ → Bool
in_alphabet c = known (sextet c) || c == b'='

filter_alphabet : Bytes → Bytes
filter_alphabet [] = []
filter_alphabet (c ∷ t) = let rest = filter_alphabet t in if in_alphabet c then c ∷ rest else rest

-- `filtered += b"=" * (-len(filtered) % 4)`
abbrev pad_quads : Bytes → Bytes
pad_quads bs = bs ++ replicate ((4 - length bs % 4) % 4) b'='

rstrip_pads : Bytes → Bytes
rstrip_pads [] = []
rstrip_pads (c ∷ t) =
    let rest = rstrip_pads t in if c == b'=' && is_empty rest then [] else c ∷ rest

-- `base64_decode`; `none` where the second attempt raises too.
unfoldable pub base64_decode : Bytes → Option Bytes
unfolding filter_alphabet rstrip_pads a2b_base64 sextet
base64_decode bs =
    let filtered = pad_quads (filter_alphabet bs) in
    elim (a2b_base64 filtered) [
      | some out ↦ some out
      | none ↦ a2b_base64 (pad_quads (rstrip_pads filtered))
    ]

module _ (lib : CryptoLib) where
  unfoldable pub md5_upper : Chars → Chars
  md5_upper text = upper (lib.md5_hexdigest (lib.utf8 text))

  -- The checksum as a signed word.
  unfoldable pub crc32 : Bytes → ℤ
  crc32 bs =
      if ltb 0x7fffffff (lib.zlib_crc32 bs)
      then sub_ℕ (lib.zlib_crc32 bs) (2 ^ 32)
      else pos (lib.zlib_crc32 bs)

  unfoldable pub aes_ecb_encrypt : (key bs : Bytes) → Option Bytes
  aes_ecb_encrypt key bs = lib.ecb_encrypt key (lib.pkcs7_pad bs)

  unfoldable pub aes_ecb_decrypt : (key bs : Bytes) → Option Bytes
  aes_ecb_decrypt key bs = elim (lib.ecb_decrypt key bs) [
    | none ↦ none
    | some padded ↦ lib.pkcs7_unpad padded
  ]

  -- `AESUtil.encrypt`, of bytes that are already encoded.
  unfoldable pub encrypt_hex_upper : (key bs : Bytes) → Option Chars
  unfolding aes_ecb_encrypt hex upper_char
  encrypt_hex_upper key bs = Option.map (λ ct. upper (hex ct)) (aes_ecb_encrypt key bs)

  -- `AESUtil.encrypt_with_base64`
  unfoldable pub encrypt_with_base64 : (key bs : Bytes) → Option Chars
  unfolding aes_ecb_encrypt b64encode
  encrypt_with_base64 key bs = Option.map b64encode (aes_ecb_encrypt key bs)

  -- `AESUtil.decrypt`
  unfoldable pub decrypt_hex : Bytes → Chars → Option Chars
  unfolding aes_ecb_decrypt hex2byte
  decrypt_hex key text = elim (hex2byte text) [
    | none ↦ none
    | some ct ↦ Option.map lib.utf8_decode (aes_ecb_decrypt key ct)
  ]

  -- `AESUtil.decrypt_with_base64`, of a text that is already encoded.
  unfoldable pub decrypt_with_base64 : (key bs : Bytes) → Option Chars
  unfolding base64_decode aes_ecb_decrypt
  decrypt_with_base64 key bs = elim (base64_decode bs) [
    | none ↦ none
    | some ct ↦ Option.map lib.utf8_decode (aes_ecb_decrypt key ct)
  ]

  -- `AESUtil.decrypt_bytes`
  unfoldable pub decrypt_bytes : (key bs : Bytes) → Option Chars
  unfolding aes_ecb_decrypt
  decrypt_bytes key bs = Option.map lib.utf8_decode (aes_ecb_decrypt key bs)

  -- `nonce` is what `secrets.token_bytes(12)` gives.
  unfoldable pub gcm_encrypt_appended_nonce : (nonce key bs aad : Bytes) → Option Bytes
  gcm_encrypt_appended_nonce nonce key bs aad =
      Option.map (λ ct. nonce ++ ct) (lib.gcm_encrypt key nonce bs aad)

  unfoldable pub gcm_decrypt_appended_nonce : (key bs aad : Bytes) → Option Bytes
  gcm_decrypt_appended_nonce key bs aad = lib.gcm_decrypt key (take 12 bs) (drop 12 bs) aad
