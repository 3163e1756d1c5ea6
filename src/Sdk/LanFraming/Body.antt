-- ===== src/Sdk/LanFraming/Body.antt =====
-- sdk/lan_framing.py: the numbers and the text in the body of a request.
use mathlib.Core.List.{append_assoc}
use pypopur.Prelude.{
  false, ap, arith, ◌≡◌, true, some, sym, ◌∷◌, ◌++◌, ◌∙◌, ℕ, ◌+◌, refl, take, drop, length,
  replicate, length-append,
}
use pypopur.Prelude.Int.{ℤ, pos}
use pypopur.Py.{Chars, ok, Bytes}
use pypopur.Resolver.Status.{shown}
use pypopur.Sdk.Crypto.{decrypt_bytes, CryptoLib, aes_ecb_encrypt}
use pypopur.Sdk.Crypto.Laws.{aes_ecb_decrypt-aes_ecb_encrypt, CryptoLaws}
use pypopur.Sdk.HexUtil.{bytes_to_int2, int_to_bytes2}
use pypopur.Sdk.HexUtil.RoundTrip.{length-int_to_bytes2}
use pypopur.Sdk.Java.{to_int32}
use pypopur.Sdk.LanFraming.{
  assemble_request, JsonText, LocalControlSpec, to_json_string, request_head, HRequest,
  FloatAtLeast, check_hgw_version, assemble_3_2,
}
use pypopur.Sdk.LanSocket.Link.{written}
use pypopur.Sdk.LanSocket.RoundTrip.{drop_of, take_of}
use pypopur.Sdk.MqttFraming.RoundTrip.{field_lem}

module _ (lib : CryptoLib) (laws : CryptoLaws lib) {J : Type 0} (json : JsonText J) where
  -- The version, four zeros, two words and the rest.
  layout_lem :
      (lpv : Chars) (s o : ℤ) (rest : Bytes)
      → (let bs = request_head lib lpv s o ++ rest in
          let n = length (lib.utf8 lpv) in
          (take n bs ≡ lib.utf8 lpv)
          × (bytes_to_int2 bs (n + 4) ≡ to_int32 s)
          × (bytes_to_int2 bs (n + 8) ≡ to_int32 o)
          × (drop (n + 12) bs ≡ rest))
  layout_lem lpv s o rest =
      let version : Bytes = lib.utf8 lpv in
      let zeros : Bytes = replicate 4 0 in
      let n : ℕ = length version in
      let whole : Bytes = request_head lib lpv s o ++ rest in
      let first : whole ≡ version ++ (zeros ++ (int_to_bytes2 s ++ (int_to_bytes2 o ++ rest))) =
        rw
          (
            append_assoc version (zeros ++ (int_to_bytes2 s ++ int_to_bytes2 o)) rest,
            append_assoc zeros (int_to_bytes2 s ++ int_to_bytes2 o) rest,
            append_assoc (int_to_bytes2 s) (int_to_bytes2 o) rest,
          )
          refl in
      let second : whole ≡ version ++ zeros ++ (int_to_bytes2 s ++ (int_to_bytes2 o ++ rest)) =
        first ∙ sym (append_assoc version zeros _) in
      let third : whole ≡ version ++ zeros ++ int_to_bytes2 s ++ (int_to_bytes2 o ++ rest) =
        second ∙ sym (append_assoc (version ++ zeros) (int_to_bytes2 s) _) in
      let fourth : whole ≡ version ++ zeros ++ int_to_bytes2 s ++ int_to_bytes2 o ++ rest =
        third ∙ sym (append_assoc (version ++ zeros ++ int_to_bytes2 s) (int_to_bytes2 o) _) in
      let four : length (version ++ zeros) ≡ n + 4 = length-append version zeros in
      let eight : length (version ++ zeros ++ int_to_bytes2 s) ≡ n + 8 =
        omega (
          arith,
          four,
          length-append (version ++ zeros) (int_to_bytes2 s),
          length-int_to_bytes2 s,
        ) in
      let twelve : length (version ++ zeros ++ int_to_bytes2 s ++ int_to_bytes2 o) ≡ n + 12 =
        omega (
          arith,
          eight,
          length-append (version ++ zeros ++ int_to_bytes2 s) (int_to_bytes2 o),
          length-int_to_bytes2 o,
        ) in
      (
        ap (take n) first ∙ take_of n version _ refl,
        field_lem (n + 4) (version ++ zeros) _ whole s second four,
        field_lem (n + 8) (version ++ zeros ++ int_to_bytes2 s) _ whole o third eight,
        ap (drop (n + 12)) fourth ∙ drop_of (n + 12) _ rest twelve,
      )

  chosen_lem :
      (at_least : FloatAtLeast) (spec : LocalControlSpec J) (k : ℕ) (ks shown : Chars) (ct : Bytes)
      → check_hgw_version at_least (some spec.lpv) 34 ≡ false
      → check_hgw_version at_least (some spec.lpv) 32 ≡ true
      → spec.local_key ≡ some (k ∷ ks)
      → to_json_string json spec.data_object ≡ some shown
      → aes_ecb_encrypt lib (lib.utf8 (k ∷ ks)) (lib.utf8 shown) ≡ some ct
      → assemble_request lib json at_least spec
        ≡ ok (record {
          dev_id = spec.dev_id;
          type = spec.frame_type;
          bs = request_head lib spec.lpv spec.s spec.o ++ ct;
          t = pos 0;
        })
  unfolding assemble_request assemble_3_2
  chosen_lem at_least spec k ks shown ct not_34 is_32 keyed written enc =
      rw (assemble_request, not_34, is_32, written, keyed, enc) refl

  decrypted_lem :
      (key shown : Chars) (ct : Bytes)
      → aes_ecb_encrypt lib (lib.utf8 key) (lib.utf8 shown) ≡ some ct
      → decrypt_bytes lib (lib.utf8 key) ct ≡ some shown
  unfolding decrypt_bytes
  decrypted_lem key shown ct enc =
      rw
        (
          decrypt_bytes,
          aes_ecb_decrypt-aes_ecb_encrypt lib laws (lib.utf8 key) (lib.utf8 shown) ct enc,
        )
        (ap some (laws.utf8_decode-utf8 shown))

  -- The request for a version from 3.2 on and below 3.4, with a key, is assembled, and its body
  -- gives everything back: the version at its start, the two numbers as Java ints four and eight
  -- bytes after it, and the JSON text of the data, decrypted, from twelve bytes after it on. The
  -- data is written as JSON and encrypted without an exception.
  pub assemble_request-decrypt_bytes :
      (at_least : FloatAtLeast) (spec : LocalControlSpec J) (k : ℕ) (ks shown : Chars) (ct : Bytes)
      → check_hgw_version at_least (some spec.lpv) 34 ≡ false
      → check_hgw_version at_least (some spec.lpv) 32 ≡ true
      → spec.local_key ≡ some (k ∷ ks)
      → to_json_string json spec.data_object ≡ some shown
      → aes_ecb_encrypt lib (lib.utf8 (k ∷ ks)) (lib.utf8 shown) ≡ some ct
      → (let n = length (lib.utf8 spec.lpv) in
          (request : HRequest) × (assemble_request lib json at_least spec ≡ ok request)
          × (take n request.bs ≡ lib.utf8 spec.lpv)
          × (bytes_to_int2 request.bs (n + 4) ≡ to_int32 spec.s)
          × (bytes_to_int2 request.bs (n + 8) ≡ to_int32 spec.o)
          × (decrypt_bytes lib (lib.utf8 (k ∷ ks)) (drop (n + 12) request.bs) ≡ some shown))
  assemble_request-decrypt_bytes at_least spec k ks shown ct not_34 is_32 keyed written enc =
      let (version, s, o, rest) = layout_lem spec.lpv spec.s spec.o ct in
      let back =
        ap (decrypt_bytes lib (lib.utf8 (k ∷ ks))) rest ∙ decrypted_lem (k ∷ ks) shown ct enc in
      (
        _,
        chosen_lem at_least spec k ks shown ct not_34 is_32 keyed written enc,
        version,
        s,
        o,
        back,
      )
