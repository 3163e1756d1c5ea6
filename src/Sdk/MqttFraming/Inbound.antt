-- ===== src/Sdk/MqttFraming/Inbound.antt =====
-- sdk/mqtt_framing.py: the dispatch of an inbound message.
use pypopur.Prelude.{
  not, ℕ, false, List, Option, ◌∷◌, some, true, [], ◌&&◌, Bool, none, take, if◌then◌else◌,
}
use pypopur.Prelude.Dict.{put}
use pypopur.Prelude.Eq.{text_eq, text_Eq}
use pypopur.Prelude.Int.{pos, eq_ℤ, ℤ}
use pypopur.Dps.System.Encode.{payload}
use pypopur.Py.{Chars, raise, Result, Bytes, ok, ◌>>=◌}
use pypopur.Py.Text.{codes, is_empty, lower}
use pypopur.Sdk.Crypto.{CryptoLib, decrypt_hex}
use pypopur.Sdk.LanSocket.{starts_with}
use pypopur.Sdk.MqttFraming.{
  parse_inbound_1_1, get_string, raised, sign_null, Parsed, MqttError, JsonLib, DedupFn, Obj,
  local_key_null, get_int_value, Entry, parse_inbound_2_2, uncaught, parse_inbound_2_3,
}
use pypopur.Sdk.MqttFraming.Dispatch.{parse_inbound_2_1, sign_json}

abbrev smart_mb_in_prefix : Chars
smart_mb_in_prefix = codes "smart/mb/in/"

abbrev or_empty : Option Chars → Chars
or_empty none = []
or_empty (some t) = t

-- What the dispatch calls: the float parser, as `float(text) >= tenths / 10` where `none` is the
-- `ValueError`, and the local key of a topic.
pub record Callbacks : Type 0 where
  pub float_at_least : Chars → ℕ → Option Bool
  pub get_local_key : Chars → Option Chars

module _ (lib : CryptoLib) (json : JsonLib) (calls : Callbacks) where
  -- `_check_pv_version`
  unfoldable pub check_pv_version : Chars → ℕ → Result MqttError Bool
  check_pv_version pv tenths =
      if is_empty pv then ok false else raised (calls.float_at_least pv tenths)

  unfoldable pub deal_with_device_topic_signed : ℤ → Chars → Obj → Parsed
  unfolding get_string sign_json lower decrypt_hex
  deal_with_device_topic_signed protocol topic obj =
      let sign = or_empty (get_string obj (codes "sign")) in
      elim (calls.get_local_key topic) [
        | none ↦ raise local_key_null
        | some local_key ↦
            if is_empty local_key
            then raise local_key_null
            else if text_eq (lower (sign_json lib json obj local_key)) (lower sign)
            then (elim (get_string obj (codes "data")) [
              | none ↦ raise uncaught
              | some enc ↦ raised (decrypt_hex lib (lib.utf8 local_key) enc)
            ]
                >>= λ (plain : Chars). raised (json.parse_entry plain) >>= λ (e : Entry).
                    ok (protocol, put (codes "data") e obj))
            else raise sign_null
      ]

  unfoldable pub deal_with_device_topic : Chars → Obj → Parsed
  unfolding get_int_value get_string deal_with_device_topic_signed
  deal_with_device_topic topic obj = get_int_value obj (codes "protocol") >>= λ (protocol : ℤ).
      if not (eq_ℤ protocol (pos 16))
        && text_eq (or_empty (get_string obj (codes "pv"))) (codes "2.0")
      then deal_with_device_topic_signed protocol topic obj
      else ok (protocol, obj)

  -- A payload that starts with a brace: a JSON envelope.
  unfoldable pub dispatch_json : Chars → Bytes → Parsed
  unfolding starts_with deal_with_device_topic get_int_value
  dispatch_json topic payload = raised (lib.utf8_strict payload) >>= λ (decoded : Chars).
      raised (json.parse_object decoded) >>= λ (obj : Obj).
      if starts_with smart_mb_in_prefix topic
      then deal_with_device_topic topic obj
      else (get_int_value obj (codes "protocol") >>= λ (p : ℤ). ok (p, obj))

  module _ {S : Type 0} (dedup : Option (DedupFn S)) where
    abbrev pub Version : Type 0
    Version = Result MqttError Bool

    -- The decoder that the version asks for; no result below 1.1.
    unfoldable pub decode_by :
        (v23 v22 v21 v11 : Version)
        → Chars
        → Bytes
        → Chars
        → S
        → Result MqttError (Option (ℤ × Obj)) × S
    unfolding parse_inbound_2_3 parse_inbound_2_2 parse_inbound_2_1 parse_inbound_1_1
    decode_by (raise e) v22 v21 v11 local_key payload topic state = (raise e, state)
    decode_by (ok true) v22 v21 v11 local_key payload topic state =
        let (r, after) = parse_inbound_2_3 lib json dedup local_key payload topic state in
        (r >>= λ (p : ℤ × Obj). ok (some p), after)
    decode_by (ok false) (raise e) v21 v11 local_key payload topic state = (raise e, state)
    decode_by (ok false) (ok true) v21 v11 local_key payload topic state =
        let (r, after) = parse_inbound_2_2 lib json dedup local_key payload topic state in
        (r >>= λ (p : ℤ × Obj). ok (some p), after)
    decode_by (ok false) (ok false) (raise e) v11 local_key payload topic state = (raise e, state)
    decode_by (ok false) (ok false) (ok true) v11 local_key payload topic state =
        (parse_inbound_2_1 lib json local_key payload >>= λ (p : ℤ × Obj). ok (some p), state)
    decode_by (ok false) (ok false) (ok false) (raise e) local_key payload topic state =
        (raise e, state)
    decode_by (ok false) (ok false) (ok false) (ok true) local_key payload topic state =
        let (r, after) = parse_inbound_1_1 lib json dedup local_key payload topic state in
        (r >>= λ (p : ℤ × Obj). ok (some p), after)
    decode_by (ok false) (ok false) (ok false) (ok false) local_key payload topic state =
        (ok none, state)

    unfoldable pub decode_versioned :
        Chars → Chars → Bytes → Chars → S → Result MqttError (Option (ℤ × Obj)) × S
    unfolding check_pv_version decode_by
    decode_versioned version local_key payload topic state =
        decode_by (check_pv_version version 23) (check_pv_version version 22)
          (check_pv_version version 21) (check_pv_version version 11) local_key payload topic state

    abbrev pub cons_result :
        Option (ℤ × Obj) → Result MqttError (List (ℤ × Obj)) → Result MqttError (List (ℤ × Obj))
    cons_result p (raise e) = raise e
    cons_result none (ok ps) = ok ps
    cons_result (some p) (ok ps) = ok (p ∷ ps)

    -- The decoder runs once for each prefix that the topic starts with; the first error ends it.
    unfoldable pub decode_prefixes :
        List Chars → Chars → Chars → Bytes → Chars → S → Result MqttError (List (ℤ × Obj)) × S
    unfolding decode_versioned starts_with
    decode_prefixes [] version local_key payload topic state = (ok [], state)
    decode_prefixes (p ∷ prefixes) version local_key payload topic state =
        let (r, after) = decode_versioned version local_key payload topic state in
        let (rest, last) = decode_prefixes prefixes version local_key payload topic after in
        let skipped = decode_prefixes prefixes version local_key payload topic state in
        if starts_with p topic
        then elim r [ raise e ↦ (raise e, after) | ok found ↦ (cons_result found rest, last) ]
        else skipped

    unfoldable pub dispatch_inbound_message :
        Chars → Option Bytes → List Chars → S → Result MqttError (List (ℤ × Obj)) × S
    unfolding dispatch_json decode_prefixes starts_with
    dispatch_inbound_message topic none prefixes state = (ok [], state)
    dispatch_inbound_message topic (some payload) prefixes state =
        let version = lib.utf8_decode (take 3 payload) in
        if starts_with (codes "{") version
        then (dispatch_json topic payload >>= λ (p : ℤ × Obj). ok (p ∷ []), state)
        else elim (calls.get_local_key topic) [
          | none ↦ (ok [], state)
          | some local_key ↦
              if is_empty local_key
              then (ok [], state)
              else decode_prefixes prefixes version local_key payload topic state
        ]
