-- ===== src/Sdk/LanFraming.antt =====
-- sdk/lan_framing.py: the requests of the LAN link, assembled per version of the protocol.
pub mod Body
use pypopur.Prelude.{
  List, ◌++◌, ℕ, [], false, Bool, Option, ◌∷◌, some, none, replicate, drop, take, if◌then◌else◌,
  ◌==◌,
}
use pypopur.Prelude.Eq.{text_eq, text_Eq}
use pypopur.Prelude.Int.{pos, ℤ}
use pypopur.Py.{Chars, raise, Result, ok, Bytes, ◌>>=◌}
use pypopur.Py.Text.{lower, codes, is_empty}
use pypopur.Resolver.Status.{shown}
use pypopur.Sdk.Crypto.{
  encrypt_hex_upper, encrypt_with_base64, aes_ecb_encrypt, CryptoLib, md5_upper,
}
use pypopur.Sdk.FastJson.{upper_escapes}
use pypopur.Sdk.HexUtil.{int_to_bytes2}
use mathlib.Core.Option

-- `HRequest`
pub record HRequest : Type 0 where
  pub dev_id : Chars
  pub type : ℤ
  pub bs : Bytes
  pub t : ℤ

-- `LocalControlSpec`; `J` are the values that the JSON library writes.
pub record LocalControlSpec (J : Type 0) : Type 0 where
  pub dev_id : Chars
  pub frame_type : ℤ
  pub data_object : J
  pub lpv : Chars
  pub local_key : Option Chars
  pub s : ℤ
  pub o : ℤ
  pub t : ℤ
  pub protocol : ℤ

-- `SignatureError`, and any other exception.
pub data RequestError : Type 0 where
  signature_error uncaught : RequestError

-- The JSON library: `dumps` of a value, `none` where it raises; a whole number and an object.
pub record JsonText (J : Type 0) : Type 0 where
  pub dumps : J → Option Chars
  pub number : ℤ → J
  pub members : List (Chars × J) → J

unfoldable pub to_json_string : {J : Type 0} → JsonText J → J → Option Chars
unfolding upper_escapes
to_json_string json v = Option.map upper_escapes (json.dumps v)

-- `float(text) >= tenths / 10`; `none` where the text is no number.
abbrev pub FloatAtLeast : Type 0
FloatAtLeast = Chars → (tenths : ℕ) → Option Bool

-- `version.replace("v", "")`
unfoldable pub without_v : Chars → Chars
without_v [] = []
without_v (c ∷ t) = let rest = without_v t in if c == b'v' then rest else c ∷ rest

abbrev holds : Option Bool → Bool
holds none = false
holds (some b) = b

unfoldable pub is_hgw_version_equals : Option Chars → Chars → Bool
unfolding without_v
is_hgw_version_equals none expected = false
is_hgw_version_equals (some []) expected = false
is_hgw_version_equals (some (c ∷ t)) expected = text_eq (without_v (c ∷ t)) expected

unfoldable pub check_hgw_version : FloatAtLeast → Option Chars → ℕ → Bool
unfolding without_v
check_hgw_version at_least none tenths = false
check_hgw_version at_least (some []) tenths = false
check_hgw_version at_least (some (c ∷ t)) tenths = holds (at_least (without_v (c ∷ t)) tenths)

abbrev pub raised {ℓ} : {A : Type ℓ} → Option A → Result RequestError A
raised none = raise uncaught
raised (some a) = ok a

-- `if not text_is_empty(local_key)`
abbrev pub key_given : Option Chars → Option Chars
key_given none = none
key_given (some []) = none
key_given (some (c ∷ t)) = some (c ∷ t)

abbrev or_empty : Option Chars → Chars
or_empty none = []
or_empty (some t) = t

-- What the body of versions 3.2 and up begins with.
abbrev pub request_head : CryptoLib → Chars → (s o : ℤ) → Bytes
request_head lib lpv s o = lib.utf8 lpv ++ (replicate 4 0 ++ (int_to_bytes2 s ++ int_to_bytes2 o))

module _ (lib : CryptoLib) {J : Type 0} (json : JsonText J) where
  abbrev pub to_json_bytes : J → Option Bytes
  to_json_bytes v = Option.map lib.utf8 (to_json_string json v)

  abbrev plain_request : LocalControlSpec J → Bytes → HRequest
  plain_request spec bs = record {
    dev_id = spec.dev_id;
    type = spec.frame_type;
    bs = bs;
    t = pos 0;
  }

  unfoldable pub base_request : LocalControlSpec J → Result RequestError HRequest
  base_request spec =
      raised (to_json_bytes spec.data_object) >>= λ (bs : Bytes). ok (plain_request spec bs)

  -- The text of the body is encrypted and encoded; where a step raises, the body stays.
  abbrev sealed_text : (Bytes → Bytes → Option Chars) → Chars → Bytes → Bytes
  sealed_text cipher key bs = elim (lib.utf8_strict bs) [
    | none ↦ bs
    | some shown ↦ elim (cipher (lib.utf8 key) (lib.utf8 shown)) [
      | none ↦ bs
      | some enc ↦ lib.utf8 enc
    ]
  ]

  abbrev encrypt_with : (Bytes → Bytes → Option Chars) → HRequest → Option Chars → HRequest
  encrypt_with cipher request local_key = elim (key_given local_key) [
    | none ↦ request
    | some key ↦ record request { bs = sealed_text cipher key request.bs }
  ]

  unfoldable pub encrypt_hex : HRequest → Option Chars → HRequest
  unfolding encrypt_hex_upper
  encrypt_hex request local_key = encrypt_with (encrypt_hex_upper lib) request local_key

  unfoldable pub encrypt_base64 : HRequest → Option Chars → HRequest
  unfolding encrypt_with_base64
  encrypt_base64 request local_key = encrypt_with (encrypt_with_base64 lib) request local_key

  unfoldable pub sign_lpv : (lpv shown local_key : Chars) → Chars
  unfolding md5_upper lower
  sign_lpv lpv shown local_key =
      let digest =
        md5_upper lib
          (codes "data=" ++ (shown ++ (codes "||lpv=" ++ (lpv ++ (codes "||" ++ local_key))))) in
      take 16 (drop 8 (lower digest))

  unfoldable pub assemble_3_4 : LocalControlSpec J → Result RequestError HRequest
  unfolding int_to_bytes2
  assemble_3_4 spec =
      let inner = json.members (
        (codes "protocol", json.number spec.protocol)
        ∷ (codes "data", spec.data_object)
        ∷ (codes "t", json.number spec.t)
        ∷ []) in
      raised (to_json_bytes inner) >>= λ (bs : Bytes).
      ok (plain_request spec (request_head lib spec.lpv spec.s spec.o ++ bs))

  -- The body under a key, or in the clear without one.
  abbrev pub payload_3_2 : Option Chars → Chars → Option Bytes
  payload_3_2 local_key shown = elim (key_given local_key) [
    | none ↦ some (lib.utf8 shown)
    | some key ↦ aes_ecb_encrypt lib (lib.utf8 key) (lib.utf8 shown)
  ]

  unfoldable pub assemble_3_2 : LocalControlSpec J → Result RequestError HRequest
  unfolding int_to_bytes2 aes_ecb_encrypt
  assemble_3_2 spec = raised (to_json_string json spec.data_object) >>= λ (shown : Chars).
      raised (payload_3_2 spec.local_key shown) >>= λ (bs : Bytes).
      ok (plain_request spec (request_head lib spec.lpv spec.s spec.o ++ bs))

  abbrev signed_request : LocalControlSpec J → HRequest → Chars → Result RequestError HRequest
  signed_request spec request sign =
      if is_empty sign
      then raise signature_error
      else ok (record request { bs = lib.utf8 spec.lpv ++ (lib.utf8 sign ++ request.bs) })

  unfoldable pub assemble_3_1 : LocalControlSpec J → Result RequestError HRequest
  unfolding base_request encrypt_base64 sign_lpv
  assemble_3_1 spec = base_request spec >>= λ (plain : HRequest).
      let request = encrypt_base64 plain spec.local_key in
      raised (lib.utf8_strict request.bs) >>= λ (shown : Chars).
      signed_request spec request (sign_lpv spec.lpv shown (or_empty spec.local_key))

  unfoldable pub assemble_1_1 : LocalControlSpec J → Result RequestError HRequest
  unfolding base_request encrypt_hex
  assemble_1_1 spec =
      base_request spec >>= λ (request : HRequest). ok (encrypt_hex request spec.local_key)

  unfoldable pub assemble_default : LocalControlSpec J → Result RequestError HRequest
  unfolding base_request encrypt_hex
  assemble_default spec =
      base_request spec >>= λ (request : HRequest). ok (encrypt_hex request spec.local_key)

  unfoldable pub assemble_request : FloatAtLeast → LocalControlSpec J → Result RequestError HRequest
  unfolding check_hgw_version is_hgw_version_equals assemble_3_4 assemble_3_2 assemble_3_1
      assemble_1_1 assemble_default
  assemble_request at_least spec =
      if check_hgw_version at_least (some spec.lpv) 34
      then assemble_3_4 spec
      else if check_hgw_version at_least (some spec.lpv) 32
      then assemble_3_2 spec
      else if check_hgw_version at_least (some spec.lpv) 31
      then assemble_3_1 spec
      else if is_hgw_version_equals (some spec.lpv) (codes "1.1")
      then assemble_1_1 spec
      else assemble_default spec
