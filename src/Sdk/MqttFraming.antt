-- ===== src/Sdk/MqttFraming.antt =====
-- sdk/mqtt_framing.py, sdk/mqtt_sign.py: the payloads of the MQTT messages.
pub mod RoundTrip
pub mod Dispatch
pub mod Inbound
use pypopur.Prelude.{
  Bool, false, ◌∷◌, none, some, ◌++◌, Option, true, [], take, drop, if◌then◌else◌,
}
use pypopur.Prelude.Dict.{get, Dict}
use pypopur.Prelude.Eq.{text_Eq}
use pypopur.Prelude.Int.{eq_ℤ, pos, ℤ}
use pypopur.Dps.System.Encode.{payload}
use pypopur.Py.{int_of_float, Chars, ok, Exception, Float, raise, ◌>>=◌, Result, Bytes}
use pypopur.Py.Text.{is_empty, codes, int_of_text, text_of_int}
use pypopur.Resolver.Status.{shown}
use pypopur.Sdk.Crypto.{
  gcm_encrypt_appended_nonce, crc32, gcm_decrypt_appended_nonce, aes_ecb_encrypt, decrypt_bytes,
  CryptoLib,
}
use pypopur.Sdk.FastJson.{upper_escapes}
use pypopur.Sdk.HexUtil.{signed_of, int_to_bytes2, bytes_to_int2}
use mathlib.Core.Option

-- `MqttFrameError` by its code, and any other exception.
pub data MqttError : Type 0 where
  aes_bytes_null sign_null local_key_null : MqttError
  parsing_failure signature_mismatch no_protocol : MqttError
  repeat_command : (s o : ℤ) → MqttError
  uncaught : MqttError

-- An entry of a JSON object as the code looks at it: a number that is no integer comes with its
-- text, an array or an object with its JSON text.
pub data Entry : Type 0 where
  null_entry : Entry
  text_entry : Chars → Entry
  flag_entry : Bool → Entry
  whole_number : ℤ → Entry
  real_number : Float → Chars → Entry
  nested : Chars → Entry

abbrev pub Obj : Type 0
Obj = Dict Chars Entry

-- `{"data": ..., "protocol": ..., "t": ...}`
abbrev pub bean : Entry → (protocol t : ℤ) → Obj
bean bean_data protocol t =
    (codes "data", bean_data)
    ∷ (codes "protocol", whole_number protocol)
    ∷ (codes "t", whole_number t)
    ∷ []

-- Without the fields that are `None`.
abbrev pub without_nulls : Obj → Obj
without_nulls [] = []
without_nulls ((key, null_entry) ∷ obj) = without_nulls obj
without_nulls ((key, e) ∷ obj) = (key, e) ∷ without_nulls obj

abbrev pub text_is_empty : Option Chars → Bool
text_is_empty none = true
text_is_empty (some t) = is_empty t

abbrev pub raised {ℓ} : {A : Type ℓ} → Option A → Result MqttError A
raised none = raise uncaught
raised (some a) = ok a

-- `obj.get(key)`, where `None` and a missing key are the same.
abbrev pub entry_of : Obj → Chars → Entry
entry_of obj key = elim (get key obj) [ none ↦ null_entry | some e ↦ e ]

-- `_get_string`
unfoldable pub get_string : Obj → Chars → Option Chars
get_string obj key = elim (entry_of obj key) [
  | null_entry ↦ none
  | text_entry v ↦ some v
  | flag_entry b ↦ some (if b then codes "true" else codes "false")
  | whole_number z ↦ some (text_of_int z)
  | real_number f shown ↦ some shown
  | nested shown ↦ some shown
]

abbrev int_or_zero : Result Exception ℤ → Result MqttError ℤ
int_or_zero (ok z) = ok z
int_or_zero (raise e) = raise uncaught

-- `_get_int_value`
unfoldable pub get_int_value : Obj → Chars → Result MqttError ℤ
unfolding int_of_float int_of_text
get_int_value obj key = elim (entry_of obj key) [
  | null_entry ↦ ok (pos 0)
  | text_entry v ↦ elim (int_of_text 10 v) [ none ↦ ok (pos 0) | some z ↦ ok z ]
  | flag_entry b ↦ ok (if b then pos 1 else pos 0)
  | whole_number z ↦ ok z
  | real_number f shown ↦ int_or_zero (int_of_float f)
  | nested shown ↦ ok (pos 0)
]

-- `int(obj["protocol"])`, or the error of a missing one.
unfoldable pub protocol_or_raise : Obj → Result MqttError ℤ
unfolding int_of_float int_of_text
protocol_or_raise obj = elim (entry_of obj (codes "protocol")) [
  | null_entry ↦ raise no_protocol
  | text_entry v ↦ raised (int_of_text 10 v)
  | flag_entry b ↦ ok (if b then pos 1 else pos 0)
  | whole_number z ↦ ok z
  | real_number f shown ↦ int_or_zero (int_of_float f)
  | nested shown ↦ raise uncaught
]

-- The JSON library: `dumps` of an object and of an entry with the settings of `to_json_string`, and
-- `loads`; `none` where it raises.
pub record JsonLib : Type 0 where
  pub dumps_object : Obj → Chars
  pub dumps_entry : Entry → Chars
  pub parse_object : Chars → Option Obj
  pub parse_entry : Chars → Option Entry

-- `to_json_string` of an object and of an entry.
abbrev pub object_text : JsonLib → Obj → Chars
object_text json obj = upper_escapes (json.dumps_object obj)

abbrev pub entry_text : JsonLib → Entry → Chars
entry_text json e = upper_escapes (json.dumps_entry e)

-- `isDataUpdated` of the listener, which keeps a state.
abbrev pub DedupFn : Type 0 → Type 0
DedupFn S = Chars → ℤ → ℤ → S → Bool × S

-- `dedup is not None and dedup(topic_id, s, o)`
abbrev pub repeated : {S : Type 0} → Option (DedupFn S) → Chars → ℤ → ℤ → S → Bool × S
repeated none topic s o state = (false, state)
repeated (some dedup) topic s o state = dedup topic s o state

abbrev pub Parsed : Type 0
Parsed = Result MqttError (ℤ × Obj)

module _ (lib : CryptoLib) (json : JsonLib) where
  unfoldable pub crc_s_o_data : ℤ → ℤ → Bytes → Bytes
  unfolding crc32 int_to_bytes2
  crc_s_o_data s o bs = int_to_bytes2 (crc32 lib (int_to_bytes2 s ++ (int_to_bytes2 o ++ bs)))

  unfoldable pub crc_s_o_data_key : ℤ → ℤ → Bytes → Chars → Bytes
  unfolding crc32 int_to_bytes2
  crc_s_o_data_key s o bs key = int_to_bytes2 (
      crc32 lib
        (int_to_bytes2 s ++ (int_to_bytes2 o ++ (int_to_bytes2 (crc32 lib bs) ++ lib.utf8 key))))

  -- `obj` is the bean of the data, the protocol and the time.
  unfoldable pub build_payload_1_1 : Chars → Obj → (s o : ℤ) → Bytes
  unfolding crc_s_o_data_key int_to_bytes2
  build_payload_1_1 local_key obj s o =
      let bs = lib.utf8 (object_text json (without_nulls obj)) in
      codes "1.1"
      ++ (crc_s_o_data_key s o bs local_key ++ (int_to_bytes2 s ++ (int_to_bytes2 o ++ bs)))

  unfoldable pub build_payload_2_2 : Chars → Chars → Obj → (s o : ℤ) → Result MqttError Bytes
  unfolding crc_s_o_data int_to_bytes2 aes_ecb_encrypt
  build_payload_2_2 local_key pv obj s o =
      raised (aes_ecb_encrypt lib (lib.utf8 local_key) (lib.utf8 (object_text json obj)))
      >>= λ (ct : Bytes).
          ok (lib.utf8 pv ++ (crc_s_o_data s o ct ++ (int_to_bytes2 s ++ (int_to_bytes2 o ++ ct))))

  abbrev pub head_2_3 : Chars → (s o : ℤ) → Bytes
  head_2_3 pv s o = lib.utf8 pv ++ (int_to_bytes2 s ++ (int_to_bytes2 o ++ 0 ∷ []))

  unfoldable pub build_payload_2_3 :
      (nonce : Bytes) → Chars → Chars → Obj → (s o : ℤ) → Result MqttError Bytes
  unfolding int_to_bytes2 gcm_encrypt_appended_nonce
  build_payload_2_3 nonce local_key pv obj s o =
      raised (
        gcm_encrypt_appended_nonce lib nonce (lib.utf8 local_key) (lib.utf8 (object_text json obj))
          (head_2_3 pv s o))
      >>= λ (enc : Bytes). ok (head_2_3 pv s o ++ enc)

  -- The end of every parser: the text is parsed, and its protocol read.
  abbrev pub parsed_text : Option Chars → Parsed
  parsed_text plain =
      if text_is_empty plain
      then raise parsing_failure
      else (elim plain [
        | none ↦ raise parsing_failure
        | some shown ↦ raised (json.parse_object shown)
      ]
          >>= λ (obj : Obj). protocol_or_raise obj >>= λ (p : ℤ). ok (p, obj))

  module _ {S : Type 0} (dedup : Option (DedupFn S)) where
    unfoldable pub parse_inbound_2_3 : Chars → Bytes → Chars → S → Parsed × S
    unfolding bytes_to_int2 gcm_decrypt_appended_nonce protocol_or_raise
    parse_inbound_2_3 local_key payload topic_id state =
        let s = bytes_to_int2 payload 3 in
        let o = bytes_to_int2 payload 7 in
        let (hit, after) = repeated dedup topic_id s o state in
        let plain =
          gcm_decrypt_appended_nonce lib (lib.utf8 local_key) (drop 12 payload) (take 12 payload) in
        (
          if hit
              then raise (repeat_command s o)
              else parsed_text (Option.map lib.utf8_decode plain),
          after,
        )

    unfoldable pub parse_inbound_2_2 : Chars → Bytes → Chars → S → Parsed × S
    unfolding bytes_to_int2 decrypt_bytes protocol_or_raise crc32
    parse_inbound_2_2 local_key payload topic_id state =
        let s = bytes_to_int2 payload 7 in
        let o = bytes_to_int2 payload 11 in
        let (hit, after) = repeated dedup topic_id s o state in
        (
          if hit
              then raise (repeat_command s o)
              else if eq_ℤ (crc32 lib (drop 7 payload)) (bytes_to_int2 payload 3)
              then parsed_text (decrypt_bytes lib (lib.utf8 local_key) (drop 15 payload))
              else raise signature_mismatch,
          after,
        )

    unfoldable pub parse_inbound_1_1 : Chars → Bytes → Chars → S → Parsed × S
    unfolding bytes_to_int2 protocol_or_raise crc_s_o_data_key signed_of
    parse_inbound_1_1 local_key payload topic_id state =
        let s = bytes_to_int2 payload 7 in
        let o = bytes_to_int2 payload 11 in
        let (hit, after) = repeated dedup topic_id s o state in
        let bs = drop 15 payload in
        (
          if hit
              then raise (repeat_command s o)
              else if eq_ℤ (signed_of (crc_s_o_data_key s o bs local_key)) (bytes_to_int2 payload 3)
              then parsed_text (some (lib.utf8_decode bs))
              else raise signature_mismatch,
          after,
        )
