-- ===== src/Sdk/MqttFraming/Dispatch.antt =====
-- sdk/mqtt_framing.py, sdk/mqtt_sign.py: the signed payloads, and the choice of the builder.
use pypopur.Prelude.{
  not, Bool, none, true, ◌||◌, ◌++◌, ◌&&◌, some, [], ◌∷◌, List, ℕ, Option, false, drop, take, ltb,
  if◌then◌else◌, ◌==◌,
}
use pypopur.Prelude.Eq.{text_eq, text_Eq}
use pypopur.Prelude.Int.{ℤ}
use pypopur.Dps.System.Encode.{payload}
use pypopur.Py.{Result, raise, ok, Bytes, Chars, ◌>>=◌}
use pypopur.Py.Text.{is_empty, text_of_int, lower, codes}
use pypopur.Resolver.Status.{shown}
use pypopur.Sdk.Crypto.{
  decrypt_with_base64, encrypt_hex_upper, CryptoLib, encrypt_with_base64, md5_upper,
}
use pypopur.Sdk.MqttFraming.{
  raised, null_entry, Parsed, real_number, whole_number, JsonLib, bean, aes_bytes_null, sign_null,
  MqttError, Obj, parsed_text, object_text, text_entry, build_payload_1_1, build_payload_2_2,
  build_payload_2_3, signature_mismatch, Entry, protocol_or_raise, flag_entry, nested, entry_text,
}

-- `text[8:24]`
abbrev middle : Chars → Chars
middle shown = take 16 (drop 8 shown)

-- `_java_str`
abbrev java_str : Entry → Chars
java_str null_entry = codes "null"
java_str (text_entry v) = v
java_str (flag_entry b) = if b then codes "true" else codes "false"
java_str (whole_number z) = text_of_int z
java_str (real_number f shown) = shown
java_str (nested shown) = shown

-- The order of texts by their code points.
before : Chars → Chars → Bool
before [] b = true
before (x ∷ a) [] = false
before (x ∷ a) (y ∷ b) = if ltb x y then true else if x == y then before a b else false

insert_key : Chars × Chars → List (Chars × Chars) → List (Chars × Chars)
unfolding before
insert_key (k, v) [] = (k, v) ∷ []
insert_key (k, v) ((j, w) ∷ rest) =
    let on = insert_key (k, v) rest in if before k j then (k, v) ∷ (j, w) ∷ rest else (j, w) ∷ on

-- `sorted(...)` of items, whose keys differ.
unfoldable pub sort_items : List (Chars × Chars) → List (Chars × Chars)
unfolding insert_key
sort_items [] = []
sort_items (p ∷ rest) = insert_key p (sort_items rest)

-- The entries that `sign_json` signs.
unfoldable pub signed_items : Obj → List (Chars × Chars)
signed_items [] = []
signed_items ((key, null_entry) ∷ obj) = signed_items obj
signed_items ((key, e) ∷ obj) =
    let rest = signed_items obj in
    if text_eq key (codes "sign") then rest else (key, java_str e) ∷ rest

-- `"".join(f"{k}={v}||")` over the values that are not empty.
unfoldable pub canonical : List (Chars × Chars) → Chars
canonical [] = []
canonical ((k, v) ∷ rest) =
    let on = canonical rest in if is_empty v then on else k ++ (b'=' ∷ v ++ (b'|' ∷ b'|' ∷ on))

unfoldable pub is_sign_key : Chars → Bool
is_sign_key key =
    text_eq key (codes "pv")
    || text_eq key (codes "t")
    || text_eq key (codes "data")
    || text_eq key (codes "gwId")
    || text_eq key (codes "protocol")

abbrev signable : Chars × Option Chars → Option Chars
signable (key, none) = none
signable (key, some v) =
    if is_sign_key key && not (is_empty v) then some (key ++ b'=' ∷ v) else none

-- `"||".join(...)`
unfoldable pub join_bars : List Chars → Chars
join_bars [] = []
join_bars (piece ∷ []) = piece
join_bars (piece ∷ q ∷ rest) = piece ++ (b'|' ∷ b'|' ∷ join_bars (q ∷ rest))

unfoldable pub whitelisted : List (Chars × Option Chars) → List Chars
unfolding is_sign_key
whitelisted [] = []
whitelisted (item ∷ items) =
    let rest = whitelisted items in elim (signable item) [ none ↦ rest | some piece ↦ piece ∷ rest ]

module _ (lib : CryptoLib) (json : JsonLib) where
  unfoldable pub sign_json : Obj → Chars → Chars
  unfolding signed_items sort_items canonical md5_upper
  sign_json obj key = md5_upper lib (canonical (sort_items (signed_items obj)) ++ key)

  -- `sign_map` of values that come in the order of their keys.
  unfoldable pub sign_map : List (Chars × Option Chars) → Chars → Chars
  unfolding whitelisted join_bars md5_upper
  sign_map values key = md5_upper lib (join_bars (whitelisted values) ++ (b'|' ∷ b'|' ∷ key))

  -- The keys of the bean in their order: data, gwId, protocol, pv, t.
  unfoldable pub sign_publish_bean :
      (enc gw_id : Option Chars) (protocol : ℤ) (pv : Option Chars) (t : ℤ) → Chars → Chars
  unfolding sign_map lower
  sign_publish_bean enc gw_id protocol pv t key = lower (
      sign_map
        ((codes "data", enc)
          ∷ (codes "gwId", gw_id)
          ∷ (codes "protocol", some (text_of_int protocol))
          ∷ (codes "pv", pv)
          ∷ (codes "t", some (text_of_int t))
          ∷ [])
        key)

  unfoldable pub sign_data_pv : (pv enc key : Chars) → Chars
  unfolding md5_upper lower
  sign_data_pv pv enc key = middle (
      lower
        (md5_upper lib (codes "data=" ++ (enc ++ (codes "||pv=" ++ (pv ++ (codes "||" ++ key)))))))

  unfoldable pub build_payload_2_0 :
      (local_key pv : Chars) → Entry → Chars → (protocol t : ℤ) → Result MqttError Bytes
  unfolding encrypt_hex_upper sign_publish_bean
  build_payload_2_0 local_key pv bean_data gw_id protocol t =
      raised (encrypt_hex_upper lib (lib.utf8 local_key) (lib.utf8 (entry_text json bean_data)))
      >>= λ (enc : Chars). ok (
          lib.utf8 (
            object_text json (
              (codes "data", text_entry enc)
              ∷ (codes "gwId", text_entry gw_id)
              ∷ (codes "protocol", whole_number protocol)
              ∷ (codes "pv", text_entry pv)
              ∷ (
                codes "sign",
                text_entry (
                    lower
                      (sign_publish_bean (some enc) (some gw_id) protocol (some pv) t local_key)),
              )
              ∷ (codes "t", whole_number t)
              ∷ [])))

  unfoldable pub build_payload_2_1 :
      (local_key pv : Chars) → Entry → (protocol t sn : ℤ) → Result MqttError Bytes
  unfolding encrypt_with_base64 sign_data_pv
  build_payload_2_1 local_key pv bean_data protocol t sn =
      raised (
        encrypt_with_base64 lib (lib.utf8 local_key) (
          lib.utf8 (
            object_text json (
              (codes "data", bean_data)
              ∷ (codes "protocol", whole_number protocol)
              ∷ (codes "s", whole_number sn)
              ∷ (codes "t", whole_number t)
              ∷ []))))
      >>= λ (enc : Chars).
          if is_empty enc
          then raise aes_bytes_null
          else if is_empty (sign_data_pv pv enc local_key)
          then raise sign_null
          else ok (lib.utf8 (pv ++ (sign_data_pv pv enc local_key ++ enc)))

  unfoldable pub parse_inbound_2_1 : Chars → Bytes → Parsed
  unfolding sign_data_pv decrypt_with_base64 protocol_or_raise
  parse_inbound_2_1 local_key payload = raised (lib.utf8_strict payload) >>= λ (shown : Chars).
      if text_eq (sign_data_pv (take 3 shown) (drop 19 shown) local_key) (take 16 (drop 3 shown))
      then parsed_text lib json
          (decrypt_with_base64 lib (lib.utf8 local_key) (lib.utf8 (drop 19 shown)))
      else raise signature_mismatch

  -- `float(pv) >= tenths / 10`; `none` is the `ValueError`.
  module _ (float_at_least : Chars → ℕ → Option Bool) where
    -- `_at_least`
    abbrev at_least : Chars → ℕ → Bool
    at_least pv tenths = elim (float_at_least pv tenths) [ none ↦ false | some b ↦ b ]

    unfoldable pub build_mqtt_publish :
        (nonce : Bytes) (pv local_key : Chars)
        → Entry
        → Chars
        → (protocol t s o : ℤ) → Result MqttError Bytes
    unfolding build_payload_2_3 build_payload_2_2 build_payload_2_1 build_payload_2_0
        build_payload_1_1
    build_mqtt_publish nonce pv local_key bean_data gw_id protocol t s o =
        if at_least pv 23
        then build_payload_2_3 lib json nonce local_key pv (bean bean_data protocol t) s o
        else if at_least pv 22
        then build_payload_2_2 lib json local_key pv (bean bean_data protocol t) s o
        else if at_least pv 21
        then build_payload_2_1 local_key pv bean_data protocol t s
        else if at_least pv 20
        then build_payload_2_0 local_key pv bean_data gw_id protocol t
        else ok (build_payload_1_1 lib json local_key (bean bean_data protocol t) s o)
