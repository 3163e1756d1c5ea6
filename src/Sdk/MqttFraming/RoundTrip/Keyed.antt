-- ===== src/Sdk/MqttFraming/RoundTrip/Keyed.antt =====
-- sdk/mqtt_framing.py: the payloads of 1.1, which a checksum with the key protects.
use mathlib.Core.Path.{subst}
use pypopur.Prelude.{false, ap, some, arith, true, ◌++◌, refl, sym, Option, ◌∙◌, ◌≡◌, drop}
use pypopur.Prelude.Dict.{get}
use pypopur.Prelude.Int.{eq_ℤ, ℤ}
use pypopur.Dps.System.Encode.{payload}
use pypopur.Py.{ok, Bytes, Chars}
use pypopur.Py.Text.{is_empty, codes}
use pypopur.Sdk.Crypto.{crc32, CryptoLib}
use pypopur.Sdk.Crypto.Laws.{CryptoLaws}
use pypopur.Sdk.FastJson.{upper_escapes}
use pypopur.Sdk.HexUtil.{int_to_bytes2, signed_of, bytes_to_int2}
use pypopur.Sdk.HexUtil.RoundTrip.{signed_of-int_to_bytes2}
use pypopur.Sdk.Java.{to_int32, low_bits}
use pypopur.Sdk.MqttFraming.{
  object_text, Obj, DedupFn, flag_entry, parse_inbound_1_1, JsonLib, text_entry, nested,
  whole_number, null_entry, bean, crc_s_o_data_key, Entry, parsed_text, without_nulls,
  build_payload_1_1, protocol_or_raise, real_number,
}
use pypopur.Sdk.MqttFraming.RoundTrip.{delivered, eq_ℤ_refl, framed_lem, parsed_text_lem}

same_bits : (z : ℤ) → low_bits 32 (to_int32 z) ≡ low_bits 32 z
unfolding to_int32
same_bits z = ground arith

int_to_bytes2-to_int32 : (z : ℤ) → int_to_bytes2 (to_int32 z) ≡ int_to_bytes2 z
unfolding int_to_bytes2
int_to_bytes2-to_int32 z = rw (same_bits z) refl

module _ (lib : CryptoLib) (laws : CryptoLaws lib) (json : JsonLib) where
  keyed_protocol :
      (bean_data : Entry) (protocol t : ℤ)
      → protocol_or_raise (without_nulls (bean bean_data protocol t)) ≡ ok protocol
  unfolding protocol_or_raise get
  keyed_protocol null_entry protocol t = refl
  keyed_protocol (text_entry v) protocol t = refl
  keyed_protocol (flag_entry b) protocol t = refl
  keyed_protocol (whole_number z) protocol t = refl
  keyed_protocol (real_number f v) protocol t = refl
  keyed_protocol (nested v) protocol t = refl

  abbrev keyed_crc : (s o : ℤ) → Bytes → Chars → ℤ
  keyed_crc s o rest key =
      crc32 lib
        (int_to_bytes2 s ++ (int_to_bytes2 o ++ (int_to_bytes2 (crc32 lib rest) ++ lib.utf8 key)))

  same_crc :
      (s o : ℤ) (rest : Bytes) (key : Chars)
      → crc_s_o_data_key lib json (to_int32 s) (to_int32 o) rest key
        ≡ int_to_bytes2 (keyed_crc s o rest key)
  unfolding crc_s_o_data_key
  same_crc s o rest key =
      let tail : Bytes = int_to_bytes2 (crc32 lib rest) ++ lib.utf8 key in
      ap (λ (a : Bytes). int_to_bytes2 (crc32 lib (a ++ (int_to_bytes2 (to_int32 o) ++ tail))))
        (int_to_bytes2-to_int32 s)
      ∙ ap (λ (a : Bytes). int_to_bytes2 (crc32 lib (int_to_bytes2 s ++ (a ++ tail))))
          (int_to_bytes2-to_int32 o)

  matches :
      (s o : ℤ) (rest : Bytes) (key : Chars)
      → eq_ℤ
          (signed_of (crc_s_o_data_key lib json (to_int32 s) (to_int32 o) rest key))
          (to_int32 (keyed_crc s o rest key))
        ≡ true
  matches s o rest key =
      let e =
        ap signed_of (same_crc s o rest key) ∙ signed_of-int_to_bytes2 (keyed_crc s o rest key) in
      subst (λ (z : ℤ). eq_ℤ z (to_int32 (keyed_crc s o rest key)) ≡ true) (sym e)
        (eq_ℤ_refl (to_int32 (keyed_crc s o rest key)))

  module _ {S : Type 0} (dedup : Option (DedupFn S)) where
    parse_1_1_lem :
        (local_key : Chars) (payload rest : Bytes) (s o crc : ℤ) (topic : Chars) (state : S)
        (result : ℤ × Obj)
        → bytes_to_int2 payload 3 ≡ to_int32 crc
        → bytes_to_int2 payload 7 ≡ to_int32 s
        → bytes_to_int2 payload 11 ≡ to_int32 o
        → drop 15 payload ≡ rest
        → eq_ℤ
            (signed_of (crc_s_o_data_key lib json (to_int32 s) (to_int32 o) rest local_key))
            (to_int32 crc)
          ≡ true
        → parsed_text lib json (some (lib.utf8_decode rest)) ≡ ok result
        → parse_inbound_1_1 lib json dedup local_key payload topic state
          ≡ delivered lib laws json dedup s o result.0 result.1 topic state
    unfolding parse_inbound_1_1
    parse_1_1_lem local_key payload rest s o crc topic state result h3 h7 h11 d15 fine parses =
        rw (parse_inbound_1_1, h3, h7, h11, d15, fine, parses) refl

    -- A 1.1 payload gives back the bean, without a field that is null, and its protocol, if the
    -- message is no repeat; a repeat raises 12003. The JSON library reads what it wrote of
    -- the bean, which is not empty and has no escape with a lower-case digit that `upper_escapes`
    -- would change.
    pub parse_inbound_1_1-build_payload_1_1 :
        (local_key : Chars) (bean_data : Entry) (protocol t s o : ℤ) (topic : Chars) (state : S)
        → json.parse_object (json.dumps_object (without_nulls (bean bean_data protocol t)))
          ≡ some (without_nulls (bean bean_data protocol t))
        → upper_escapes (json.dumps_object (without_nulls (bean bean_data protocol t)))
          ≡ json.dumps_object (without_nulls (bean bean_data protocol t))
        → is_empty (json.dumps_object (without_nulls (bean bean_data protocol t))) ≡ false
        → parse_inbound_1_1 lib json dedup local_key
            (build_payload_1_1 lib json local_key (bean bean_data protocol t) s o)
            topic
            state
          ≡ delivered lib laws json dedup s o protocol
              (without_nulls (bean bean_data protocol t))
              topic
              state
    unfolding build_payload_1_1
    parse_inbound_1_1-build_payload_1_1 local_key bean_data protocol t s o topic state reads plain
          legible =
        let obj : Obj = without_nulls (bean bean_data protocol t) in
        let rest : Bytes = lib.utf8 (object_text json obj) in
        let crc : ℤ = keyed_crc s o rest local_key in
        let (f3, f7, f11, d7, d15) = framed_lem (codes "1.1") refl crc s o rest in
        parse_1_1_lem local_key _ rest s o crc topic state (protocol, obj) f3 f7 f11 d15
          (matches s o rest local_key)
          (rw (laws.utf8_decode-utf8 (object_text json obj)) (
            parsed_text_lem lib laws json obj protocol reads plain legible
              (keyed_protocol bean_data protocol t)))
