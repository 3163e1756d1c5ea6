-- ===== src/Sdk/MqttFraming/RoundTrip.antt =====
-- sdk/mqtt_framing.py: a payload that was built is parsed to the object that it was built from.
pub mod Repeat
pub mod Gcm
pub mod Keyed
use mathlib.Core.List.{append_assoc}
use pypopur.Prelude.{
  ◌∙◌, sym, arith, ◌++◌, none, false, some, ℕ, ◌≡◌, true, refl, Option, length, drop, length-append,
  if◌then◌else◌,
}
use pypopur.Prelude.Dict.{get}
use pypopur.Prelude.Int.{eq_ℤ, ℤ}
use pypopur.Dps.System.Encode.{payload}
use pypopur.Py.{raise, ok, ◌>>=◌, Chars, Bytes}
use pypopur.Py.Text.{is_empty}
use pypopur.Sdk.Crypto.{CryptoLib, crc32, decrypt_bytes}
use pypopur.Sdk.Crypto.Laws.{to_int32-crc32, aes_ecb_decrypt-aes_ecb_encrypt, CryptoLaws}
use pypopur.Sdk.FastJson.{upper_escapes}
use pypopur.Sdk.HexUtil.{bytes_to_int2, int_to_bytes2}
use pypopur.Sdk.HexUtil.RoundTrip.{bytes_to_int2-int_to_bytes2, drop-append, length-int_to_bytes2}
use pypopur.Sdk.Java.{to_int32}
use pypopur.Sdk.MqttFraming.{
  raised, repeat_command, Entry, build_payload_2_2, bean, parsed_text, crc_s_o_data,
  parse_inbound_2_2, Obj, object_text, Parsed, repeated, JsonLib, protocol_or_raise, DedupFn,
}
use mathlib.Core.Option

eq_ℤ_refl : (z : ℤ) → eq_ℤ z z ≡ true
eq_ℤ_refl z = ground arith

drop_lem :
    (n : ℕ) (front back all : Bytes) → all ≡ front ++ back → length front ≡ n → drop n all ≡ back
drop_lem n front back all e long = rw (e, ← long) (drop-append front back)

pub field_lem :
    (n : ℕ) (front back all : Bytes) (z : ℤ)
    → all ≡ front ++ (int_to_bytes2 z ++ back)
    → length front ≡ n
    → bytes_to_int2 all n ≡ to_int32 z
field_lem n front back all z e long = rw (e, ← long) (bytes_to_int2-int_to_bytes2 front back z)

-- The payloads of 1.1 and 2.2: three bytes of version, three words and the rest.
module _ (version : Bytes) (three : length version ≡ 3) (c s o : ℤ) (rest : Bytes) where
  abbrev framed : Bytes
  framed = version ++ (int_to_bytes2 c ++ (int_to_bytes2 s ++ (int_to_bytes2 o ++ rest)))

  seven : length (version ++ int_to_bytes2 c) ≡ 7
  seven = omega (arith, length-append version (int_to_bytes2 c), length-int_to_bytes2 c)

  after_crc : framed ≡ version ++ int_to_bytes2 c ++ (int_to_bytes2 s ++ (int_to_bytes2 o ++ rest))
  after_crc = sym (append_assoc version (int_to_bytes2 c) _)

  after_s : framed ≡ version ++ int_to_bytes2 c ++ int_to_bytes2 s ++ (int_to_bytes2 o ++ rest)
  after_s = after_crc ∙ sym (append_assoc (version ++ int_to_bytes2 c) (int_to_bytes2 s) _)

  after_o : framed ≡ version ++ int_to_bytes2 c ++ int_to_bytes2 s ++ int_to_bytes2 o ++ rest
  after_o =
      after_s
      ∙ sym (append_assoc (version ++ int_to_bytes2 c ++ int_to_bytes2 s) (int_to_bytes2 o) rest)

  eleven : length (version ++ int_to_bytes2 c ++ int_to_bytes2 s) ≡ 11
  eleven = omega (
    arith,
    length-append (version ++ int_to_bytes2 c) (int_to_bytes2 s),
    length-int_to_bytes2 s,
    seven,
  )

  fifteen : length (version ++ int_to_bytes2 c ++ int_to_bytes2 s ++ int_to_bytes2 o) ≡ 15
  fifteen = omega (
    arith,
    length-append (version ++ int_to_bytes2 c ++ int_to_bytes2 s) (int_to_bytes2 o),
    length-int_to_bytes2 o,
    eleven,
  )

  framed_lem :
      (bytes_to_int2 framed 3 ≡ to_int32 c)
      × (bytes_to_int2 framed 7 ≡ to_int32 s)
      × (bytes_to_int2 framed 11 ≡ to_int32 o)
      × (drop 7 framed ≡ int_to_bytes2 s ++ (int_to_bytes2 o ++ rest))
      × (drop 15 framed ≡ rest)
  framed_lem = (
    field_lem 3 version _ framed c refl three,
    field_lem 7 (version ++ int_to_bytes2 c) _ framed s after_crc seven,
    field_lem 11 (version ++ int_to_bytes2 c ++ int_to_bytes2 s) rest framed o after_s eleven,
    drop_lem 7 (version ++ int_to_bytes2 c) _ framed after_crc seven,
    drop_lem 15 _ rest framed after_o fifteen,
  )

module _ (lib : CryptoLib) (laws : CryptoLaws lib) (json : JsonLib) where
  built_cases :
      (o : Option Bytes) (f : Bytes → Bytes) (payload : Bytes)
      → (raised o >>= λ (ct : Bytes). ok (f ct)) ≡ ok payload
      → (ct : Bytes) × (o ≡ some ct) × (f ct ≡ payload)
  built_cases none f payload h = cc
  built_cases (some ct) f payload h = (ct, refl, cc)

  protocol_lem :
      (bean_data : Entry) (protocol t : ℤ)
      → protocol_or_raise (bean bean_data protocol t) ≡ ok protocol
  unfolding protocol_or_raise get
  protocol_lem bean_data protocol t = refl

  -- The text of an object with a protocol is parsed to it.
  parsed_text_lem :
      (obj : Obj) (protocol : ℤ)
      → json.parse_object (json.dumps_object obj) ≡ some obj
      → upper_escapes (json.dumps_object obj) ≡ json.dumps_object obj
      → is_empty (json.dumps_object obj) ≡ false
      → protocol_or_raise obj ≡ ok protocol
      → parsed_text lib json (some (object_text json obj)) ≡ ok (protocol, obj)
  parsed_text_lem obj protocol reads plain legible has = rw (plain, legible, reads, has) refl

  module _ {S : Type 0} (dedup : Option (DedupFn S)) where
    -- What a parser gives of a payload that was built with these numbers.
    abbrev pub delivered : (s o protocol : ℤ) → Obj → Chars → S → Parsed × S
    delivered s o protocol obj topic state =
        let (hit, after) = repeated dedup topic (to_int32 s) (to_int32 o) state in
        (
          if hit then raise (repeat_command (to_int32 s) (to_int32 o)) else ok (protocol, obj),
          after,
        )

    parse_2_2_lem :
        (local_key : Chars) (payload body rest : Bytes) (s o crc : ℤ) (topic : Chars) (state : S)
        (result : ℤ × Obj)
        → bytes_to_int2 payload 3 ≡ to_int32 crc
        → bytes_to_int2 payload 7 ≡ to_int32 s
        → bytes_to_int2 payload 11 ≡ to_int32 o
        → drop 7 payload ≡ body
        → drop 15 payload ≡ rest
        → eq_ℤ (crc32 lib body) (to_int32 crc) ≡ true
        → parsed_text lib json (decrypt_bytes lib (lib.utf8 local_key) rest) ≡ ok result
        → parse_inbound_2_2 lib json dedup local_key payload topic state
          ≡ delivered s o result.0 result.1 topic state
    unfolding parse_inbound_2_2
    parse_2_2_lem local_key payload body rest s o crc topic state result h3 h7 h11 d7 d15 fine
          parses =
        rw (parse_inbound_2_2, h3, h7, h11, d7, d15, fine, parses) refl

    -- A 2.2 payload gives back the bean and its protocol, if the message is no repeat; a repeat
    -- raises 12003. The deduplication is asked with `s` and `o` as Java `int`s. The JSON library
    -- reads what it wrote of the bean, which is not empty and has no escape with a lower-case digit
    -- that `upper_escapes` would change, and the version takes three bytes.
    pub parse_inbound_2_2-build_payload_2_2 :
        (local_key pv : Chars) (bean_data : Entry) (protocol t s o : ℤ) (payload : Bytes)
        (topic : Chars) (state : S)
        → length (lib.utf8 pv) ≡ 3
        → json.parse_object (json.dumps_object (bean bean_data protocol t))
          ≡ some (bean bean_data protocol t)
        → upper_escapes (json.dumps_object (bean bean_data protocol t))
          ≡ json.dumps_object (bean bean_data protocol t)
        → is_empty (json.dumps_object (bean bean_data protocol t)) ≡ false
        → build_payload_2_2 lib json local_key pv (bean bean_data protocol t) s o ≡ ok payload
        → parse_inbound_2_2 lib json dedup local_key payload topic state
          ≡ delivered s o protocol (bean bean_data protocol t) topic state
    unfolding build_payload_2_2 crc_s_o_data decrypt_bytes
    parse_inbound_2_2-build_payload_2_2 local_key pv bean_data protocol t s o payload topic state
          three reads plain legible built =
        let obj : Obj = bean bean_data protocol t in
        let (ct, sealed, e) = built_cases _ _ payload built in
        let body : Bytes = int_to_bytes2 s ++ (int_to_bytes2 o ++ ct) in
        let (f3, f7, f11, d7, d15) = framed_lem (lib.utf8 pv) three (crc32 lib body) s o ct in
        let opened : decrypt_bytes lib (lib.utf8 local_key) ct ≡ some (object_text json obj) =
          rw
            (
              decrypt_bytes,
              aes_ecb_decrypt-aes_ecb_encrypt lib laws _ _ ct sealed,
              laws.utf8_decode-utf8 (object_text json obj),
            )
            refl in
        rw (← e) (
          parse_2_2_lem local_key _ body ct s o (crc32 lib body) topic state (protocol, obj) f3 f7
            f11 d7 d15 (rw (to_int32-crc32 lib laws body) (eq_ℤ_refl (crc32 lib body)))
            (rw opened (
              parsed_text_lem obj protocol reads plain legible
                (protocol_lem bean_data protocol t))))
