-- ===== src/Sdk/Crypto/Laws.antt =====
-- sdk/crypto.py: what is encrypted is decrypted.
use pypopur.Prelude.{arith, ◌^◌, ◌≡◌, some, ◌<◌, length}
use pypopur.Py.{Bytes, Chars}
use pypopur.Sdk.Crypto.{
  gcm_encrypt_appended_nonce, aes_ecb_encrypt, gcm_decrypt_appended_nonce, crc32, aes_ecb_decrypt,
  CryptoLib,
}
use pypopur.Sdk.Java.{to_int32}
use pypopur.Sdk.LanSocket.RoundTrip.{drop_of, take_of}
use mathlib.Core.Option

-- What the code relies on of the libraries.
pub record CryptoLaws (lib : CryptoLib) : Type 0 where
  pub utf8_decode-utf8 : (text : Chars) → lib.utf8_decode (lib.utf8 text) ≡ text
  pub utf8_strict-utf8 : (text : Chars) → lib.utf8_strict (lib.utf8 text) ≡ some text
  pub pkcs7_unpad-pkcs7_pad : (bs : Bytes) → lib.pkcs7_unpad (lib.pkcs7_pad bs) ≡ some bs
  pub ecb_decrypt-ecb_encrypt :
      (key bs ct : Bytes) → lib.ecb_encrypt key bs ≡ some ct → lib.ecb_decrypt key ct ≡ some bs
  pub gcm_decrypt-gcm_encrypt :
      (key nonce bs aad ct : Bytes)
      → lib.gcm_encrypt key nonce bs aad ≡ some ct
      → lib.gcm_decrypt key nonce ct aad ≡ some bs
  pub zlib_crc32_lt : (bs : Bytes) → lib.zlib_crc32 bs < 2 ^ 32

module _ (lib : CryptoLib) (laws : CryptoLaws lib) where
  pub aes_ecb_decrypt-aes_ecb_encrypt :
      (key bs ct : Bytes)
      → aes_ecb_encrypt lib key bs ≡ some ct
      → aes_ecb_decrypt lib key ct ≡ some bs
  unfolding aes_ecb_encrypt aes_ecb_decrypt
  aes_ecb_decrypt-aes_ecb_encrypt key bs ct h =
      rw (aes_ecb_decrypt, laws.ecb_decrypt-ecb_encrypt key (lib.pkcs7_pad bs) ct h)
        (laws.pkcs7_unpad-pkcs7_pad bs)

  -- A signed checksum is a Java `int`.
  pub to_int32-crc32 : (bs : Bytes) → to_int32 (crc32 lib bs) ≡ crc32 lib bs
  unfolding to_int32 crc32
  to_int32-crc32 bs = ground (arith, laws.zlib_crc32_lt bs)

  pub gcm_decrypt_appended_nonce-gcm_encrypt_appended_nonce :
      (nonce key bs aad enc : Bytes)
      → length nonce ≡ 12
      → gcm_encrypt_appended_nonce lib nonce key bs aad ≡ some enc
      → gcm_decrypt_appended_nonce lib key enc aad ≡ some bs
  unfolding gcm_encrypt_appended_nonce gcm_decrypt_appended_nonce
  gcm_decrypt_appended_nonce-gcm_encrypt_appended_nonce nonce key bs aad enc twelve h =
      let (ct, sealed, e) = (Option.map-eq-some_iff _ (lib.gcm_encrypt key nonce bs aad)).0 h in
      rw (gcm_decrypt_appended_nonce, ← e, take_of 12 nonce ct twelve, drop_of 12 nonce ct twelve)
        (laws.gcm_decrypt-gcm_encrypt key nonce bs aad ct sealed)
