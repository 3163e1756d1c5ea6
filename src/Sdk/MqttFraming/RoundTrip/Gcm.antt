-- ===== src/Sdk/MqttFraming/RoundTrip/Gcm.antt =====
-- sdk/mqtt_framing.py: the payloads of 2.3, whose head is authenticated with the ciphertext.
use mathlib.Core.List.{append_assoc}
use pypopur.Prelude.{
  Option, refl, some, ◌∙◌, ◌∷◌, ap, arith, [], false, ◌≡◌, sym, ◌++◌, length, length-append, take,
  drop,
}
use pypopur.Prelude.Int.{ℤ}
use pypopur.Dps.System.Encode.{payload}
use pypopur.Py.{Chars, ok, Bytes}
use pypopur.Py.Text.{is_empty}
use pypopur.Sdk.Crypto.{gcm_decrypt_appended_nonce, CryptoLib}
use pypopur.Sdk.Crypto.Laws.{CryptoLaws, gcm_decrypt_appended_nonce-gcm_encrypt_appended_nonce}
use pypopur.Sdk.FastJson.{upper_escapes}
use pypopur.Sdk.HexUtil.{bytes_to_int2, int_to_bytes2}
use pypopur.Sdk.HexUtil.RoundTrip.{length-int_to_bytes2}
use pypopur.Sdk.Java.{to_int32}
use pypopur.Sdk.LanSocket.RoundTrip.{drop_of, take_of}
use pypopur.Sdk.MqttFraming.{
  object_text, bean, Obj, DedupFn, Entry, JsonLib, parsed_text, parse_inbound_2_3,
  build_payload_2_3,
}
use pypopur.Sdk.MqttFraming.RoundTrip.{
  field_lem, delivered, built_cases, parsed_text_lem, protocol_lem,
}

module _ (version : Bytes) (three : length version ≡ 3) (s o : ℤ) (enc : Bytes) where
  abbrev head : Bytes
  head = version ++ (int_to_bytes2 s ++ (int_to_bytes2 o ++ 0 ∷ []))

  length-head : length head ≡ 12
  length-head = omega (
    arith,
    length-append version (int_to_bytes2 s ++ (int_to_bytes2 o ++ 0 ∷ [])),
    length-append (int_to_bytes2 s) (int_to_bytes2 o ++ 0 ∷ []),
    length-append (int_to_bytes2 o) (0 ∷ []),
    length-int_to_bytes2 s,
    length-int_to_bytes2 o,
  )

  at_s : head ++ enc ≡ version ++ (int_to_bytes2 s ++ (int_to_bytes2 o ++ 0 ∷ [] ++ enc))
  at_s =
      append_assoc version (int_to_bytes2 s ++ (int_to_bytes2 o ++ 0 ∷ [])) enc
      ∙ ap (λ (bs : Bytes). version ++ bs)
          (append_assoc (int_to_bytes2 s) (int_to_bytes2 o ++ 0 ∷ []) enc)

  at_o : head ++ enc ≡ version ++ int_to_bytes2 s ++ (int_to_bytes2 o ++ (0 ∷ [] ++ enc))
  at_o =
      at_s
      ∙ ap (λ (bs : Bytes). version ++ (int_to_bytes2 s ++ bs))
          (append_assoc (int_to_bytes2 o) (0 ∷ []) enc)
      ∙ sym (append_assoc version (int_to_bytes2 s) _)

  length-front : length (version ++ int_to_bytes2 s) ≡ 7
  length-front = omega (arith, length-append version (int_to_bytes2 s), length-int_to_bytes2 s)

  head_lem :
      (bytes_to_int2 (head ++ enc) 3 ≡ to_int32 s)
      × (bytes_to_int2 (head ++ enc) 7 ≡ to_int32 o)
      × (take 12 (head ++ enc) ≡ head)
      × (drop 12 (head ++ enc) ≡ enc)
  head_lem = (
    field_lem 3 version _ (head ++ enc) s at_s three,
    field_lem 7 (version ++ int_to_bytes2 s) _ (head ++ enc) o at_o length-front,
    take_of 12 head enc length-head,
    drop_of 12 head enc length-head,
  )

module _ (lib : CryptoLib) (laws : CryptoLaws lib) (json : JsonLib) {S : Type 0}
    (dedup : Option (DedupFn S)) where
  parse_2_3_lem :
      (local_key : Chars) (payload head enc : Bytes) (s o : ℤ) (topic : Chars) (state : S)
      (result : ℤ × Obj) (plain : Bytes)
      → bytes_to_int2 payload 3 ≡ to_int32 s
      → bytes_to_int2 payload 7 ≡ to_int32 o
      → take 12 payload ≡ head
      → drop 12 payload ≡ enc
      → gcm_decrypt_appended_nonce lib (lib.utf8 local_key) enc head ≡ some plain
      → parsed_text lib json (some (lib.utf8_decode plain)) ≡ ok result
      → parse_inbound_2_3 lib json dedup local_key payload topic state
        ≡ delivered lib laws json dedup s o result.0 result.1 topic state
  unfolding parse_inbound_2_3
  parse_2_3_lem local_key payload head enc s o topic state result plain h3 h7 t12 d12 opened
        parses =
      rw (parse_inbound_2_3, h3, h7, t12, d12, opened, parses) refl

  -- A 2.3 payload, sealed under a nonce of twelve bytes, gives back the bean and its protocol, if
  -- the message is no repeat; a repeat raises 12003. The JSON library reads what it wrote of
  -- the bean, which is not empty and has no escape with a lower-case digit that `upper_escapes`
  -- would change, and the version takes three bytes.
  pub parse_inbound_2_3-build_payload_2_3 :
      (nonce : Bytes) (local_key pv : Chars) (bean_data : Entry) (protocol t s o : ℤ)
      (payload : Bytes) (topic : Chars) (state : S)
      → length nonce ≡ 12
      → length (lib.utf8 pv) ≡ 3
      → json.parse_object (json.dumps_object (bean bean_data protocol t))
        ≡ some (bean bean_data protocol t)
      → upper_escapes (json.dumps_object (bean bean_data protocol t))
        ≡ json.dumps_object (bean bean_data protocol t)
      → is_empty (json.dumps_object (bean bean_data protocol t)) ≡ false
      → build_payload_2_3 lib json nonce local_key pv (bean bean_data protocol t) s o ≡ ok payload
      → parse_inbound_2_3 lib json dedup local_key payload topic state
        ≡ delivered lib laws json dedup s o protocol (bean bean_data protocol t) topic state
  unfolding build_payload_2_3
  parse_inbound_2_3-build_payload_2_3 nonce local_key pv bean_data protocol t s o payload topic
        state twelve three reads plain legible built =
      let obj : Obj = bean bean_data protocol t in
      let (enc, sealed, e) = built_cases lib laws json _ _ payload built in
      let (f3, f7, t12, d12) = head_lem (lib.utf8 pv) three s o enc in
      rw (← e) (
        parse_2_3_lem local_key _ (head (lib.utf8 pv) three s o enc) enc s o topic state
          (protocol, obj) (lib.utf8 (object_text json obj)) f3 f7 t12 d12
          (gcm_decrypt_appended_nonce-gcm_encrypt_appended_nonce lib laws nonce (lib.utf8 local_key)
            (lib.utf8 (object_text json obj)) (head (lib.utf8 pv) three s o enc) enc twelve sealed)
          (rw (laws.utf8_decode-utf8 (object_text json obj)) (
            parsed_text_lem lib laws json obj protocol reads plain legible
              (protocol_lem lib laws json bean_data protocol t))))
