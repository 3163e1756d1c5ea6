-- ===== src/Tests/Mqtt.antt =====
-- The MQTT payloads and base64, on concrete messages.
use pypopur.Prelude.{
  none, ◌%◌, ◌++◌, Option, ◌^◌, ◌∷◌, refl, sym, arith, [], true, some, ◌≡◌, false, replicate,
  length,
}
use pypopur.Prelude.Dict.{get, put}
use pypopur.Prelude.Eq.{text_Eq}
use pypopur.Prelude.Int.{eq_ℤ, pos}
use pypopur.Py.{raise, ok, Bytes}
use pypopur.Py.Base64.{b64encode}
use pypopur.Py.Text.{codes, text_of_int}
use pypopur.Sdk.Crypto.{
  aes_ecb_decrypt, aes_ecb_encrypt, crc32, CryptoLib, decrypt_bytes, base64_decode,
  gcm_encrypt_appended_nonce,
}
use pypopur.Sdk.Crypto.Base64.{base64_decode-b64encode}
use pypopur.Sdk.Crypto.Laws.{CryptoLaws}
use pypopur.Sdk.Dedup.{is_data_updated_so, lookup, not_low_power, check_so, MessageCache}
use pypopur.Sdk.FastJson.{upper_escapes}
use pypopur.Sdk.HexUtil.{
  from_big_endian, int_to_bytes2, upper_char, signed_of, check_hex_char, bytes_to_int2,
}
use pypopur.Sdk.LanSocket.{starts_with}
use pypopur.Sdk.MqttFraming.{
  repeat_command, crc_s_o_data, JsonLib, DedupFn, build_payload_2_3, parse_inbound_1_1, bean,
  protocol_or_raise, Obj, build_payload_1_1, build_payload_2_2, nested, parse_inbound_2_3,
  parse_inbound_2_2,
}
use pypopur.Sdk.MqttFraming.RoundTrip.{delivered, parse_inbound_2_2-build_payload_2_2}
use pypopur.Sdk.MqttFraming.RoundTrip.Gcm.{parse_inbound_2_3-build_payload_2_3}
use pypopur.Sdk.MqttFraming.RoundTrip.Keyed.{parse_inbound_1_1-build_payload_1_1}
use pypopur.Sdk.MqttFraming.RoundTrip.Repeat.{cache_dedup, parse_inbound_2_2_twice, dev_id_of}

-- A library that hides nothing, and texts of ASCII.
abbrev pub toy_crypto : CryptoLib
toy_crypto = record {
  utf8 = λ t. t;
  utf8_decode = λ bs. bs;
  utf8_strict = λ bs. some bs;
  md5_hexdigest = λ bs. replicate 32 b'0';
  zlib_crc32 = λ bs. length bs % 2 ^ 32;
  pkcs7_pad = λ bs. bs;
  pkcs7_unpad = λ bs. some bs;
  ecb_encrypt = λ key bs. some bs;
  ecb_decrypt = λ key bs. some bs;
  gcm_encrypt = λ key nonce bs aad. some bs;
  gcm_decrypt = λ key nonce bs aad. some bs;
}

pub toy_crypto-CryptoLaws : CryptoLaws toy_crypto
toy_crypto-CryptoLaws = record {
  utf8_decode-utf8 = λ t. refl;
  utf8_strict-utf8 = λ t. refl;
  pkcs7_unpad-pkcs7_pad = λ bs. refl;
  ecb_decrypt-ecb_encrypt = λ key bs ct e. sym e;
  gcm_decrypt-gcm_encrypt = λ key nonce bs aad ct e. sym e;
  zlib_crc32_lt = λ bs. omega arith;
}

abbrev message : Obj
message = bean (nested (codes "[]")) (pos 5) (pos 9)

abbrev json : JsonLib
json = record {
  dumps_object = λ obj. codes "{}";
  dumps_entry = λ e. codes "[]";
  parse_object = λ t. some message;
  parse_entry = λ t. some (nested t);
}

no_escape : upper_escapes (json.dumps_object message) ≡ json.dumps_object message
unfolding upper_escapes
no_escape = refl

-- A backslash in a text is written twice, and what follows it is taken for an escape.
literal_escape : upper_escapes (codes "\\\\u00ab") ≡ codes "\\\\u00AB"
unfolding upper_escapes check_hex_char upper_char
literal_escape = refl

abbrev cache : MessageCache
cache = record { s_store = []; so_store = [] }

abbrev listener : Option (DedupFn MessageCache)
listener = some (cache_dedup none 100)

abbrev payload_2_2 : Bytes
payload_2_2 = codes "2.2" ++ (0 ∷ 0 ∷ 0 ∷ 10 ∷ 0 ∷ 0 ∷ 0 ∷ 1 ∷ 0 ∷ 0 ∷ 0 ∷ 2 ∷ codes "{}")

built_2_2 :
    build_payload_2_2 toy_crypto json (codes "k") (codes "2.2") message (pos 1) (pos 2)
    ≡ ok payload_2_2
unfolding build_payload_2_2 upper_escapes aes_ecb_encrypt crc_s_o_data crc32 int_to_bytes2
built_2_2 = refl

parse_inbound_2_2-build_payload_2_2_example :
    parse_inbound_2_2 toy_crypto json listener (codes "k") payload_2_2 (codes "d") cache
    ≡ delivered toy_crypto toy_crypto-CryptoLaws json listener
        (pos 1)
        (pos 2)
        (pos 5)
        message
        (codes "d")
        cache
parse_inbound_2_2-build_payload_2_2_example =
    parse_inbound_2_2-build_payload_2_2 toy_crypto toy_crypto-CryptoLaws json listener (codes "k")
      (codes "2.2") (nested (codes "[]")) (pos 5) (pos 9) (pos 1) (pos 2) payload_2_2 (codes "d")
      cache refl refl no_escape refl built_2_2

accepted_2_2 :
    (parse_inbound_2_2 toy_crypto json listener (codes "k") payload_2_2 (codes "d") cache).0
    ≡ ok (pos 5, message)
unfolding parse_inbound_2_2 is_data_updated_so check_so lookup get put decrypt_bytes aes_ecb_decrypt
    starts_with crc32 bytes_to_int2 protocol_or_raise signed_of from_big_endian text_of_int
    not_low_power
accepted_2_2 = refl

nonzero_2_2 : eq_ℤ (bytes_to_int2 payload_2_2 11) (pos 0) ≡ false
unfolding bytes_to_int2 signed_of from_big_endian
nonzero_2_2 = refl

known_2_2 : not_low_power none (dev_id_of (codes "d")) ≡ true
unfolding not_low_power
known_2_2 = refl

parse_inbound_2_2_twice_example :
    (parse_inbound_2_2 toy_crypto json
      (some (cache_dedup none 2000))
      (codes "k")
      payload_2_2
      (codes "d")
      (parse_inbound_2_2 toy_crypto json listener (codes "k") payload_2_2 (codes "d") cache).1).0
    ≡ raise (repeat_command (bytes_to_int2 payload_2_2 7) (bytes_to_int2 payload_2_2 11))
parse_inbound_2_2_twice_example =
    parse_inbound_2_2_twice toy_crypto json none (codes "k") payload_2_2 (codes "d") 100 2000 cache
      (pos 5, message) nonzero_2_2 known_2_2 refl accepted_2_2

abbrev head : Bytes
head = codes "2.3" ++ (0 ∷ 0 ∷ 0 ∷ 1 ∷ 0 ∷ 0 ∷ 0 ∷ 2 ∷ 0 ∷ [])

abbrev payload_2_3 : Bytes
payload_2_3 = head ++ (replicate 12 4 ++ codes "{}")

built_2_3 :
    build_payload_2_3 toy_crypto json
      (replicate 12 4)
      (codes "k")
      (codes "2.3")
      message
      (pos 1)
      (pos 2)
    ≡ ok payload_2_3
unfolding build_payload_2_3 upper_escapes gcm_encrypt_appended_nonce int_to_bytes2
built_2_3 = refl

parse_inbound_2_3-build_payload_2_3_example :
    parse_inbound_2_3 toy_crypto json listener (codes "k") payload_2_3 (codes "d") cache
    ≡ delivered toy_crypto toy_crypto-CryptoLaws json listener
        (pos 1)
        (pos 2)
        (pos 5)
        message
        (codes "d")
        cache
parse_inbound_2_3-build_payload_2_3_example =
    parse_inbound_2_3-build_payload_2_3 toy_crypto toy_crypto-CryptoLaws json listener
      (replicate 12 4) (codes "k") (codes "2.3") (nested (codes "[]")) (pos 5) (pos 9) (pos 1)
      (pos 2) payload_2_3 (codes "d") cache refl refl refl no_escape refl built_2_3

parse_inbound_1_1-build_payload_1_1_example :
    parse_inbound_1_1 toy_crypto json listener
      (codes "k")
      (build_payload_1_1 toy_crypto json (codes "k") message (pos 1) (pos 2))
      (codes "d")
      cache
    ≡ delivered toy_crypto toy_crypto-CryptoLaws json listener
        (pos 1)
        (pos 2)
        (pos 5)
        message
        (codes "d")
        cache
parse_inbound_1_1-build_payload_1_1_example =
    parse_inbound_1_1-build_payload_1_1 toy_crypto toy_crypto-CryptoLaws json listener (codes "k")
      (nested (codes "[]")) (pos 5) (pos 9) (pos 1) (pos 2) (codes "d") cache refl no_escape refl

base64_decode-b64encode_example : base64_decode (b64encode (1 ∷ 200 ∷ [])) ≡ some (1 ∷ 200 ∷ [])
base64_decode-b64encode_example =
    base64_decode-b64encode (1 ∷ 200 ∷ []) (omega arith, (omega arith, tt))
