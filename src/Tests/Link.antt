-- ===== src/Tests/Link.antt =====
-- The links of the LAN and their requests, on concrete frames.
use pypopur.Prelude.{
  ◌≡◌, some, refl, false, ◌⊎◌, arith, suc, true, none, ◌++◌, List, [], ◌∷◌, drop, take, replicate,
  leb,
}
use pypopur.Prelude.Eq.{text_Eq}
use pypopur.Prelude.Int.{pos}
use pypopur.Py.{Bytes, ok, Chars}
use pypopur.Py.Text.{codes}
use pypopur.Sdk.Crypto.{aes_ecb_decrypt, decrypt_bytes, aes_ecb_encrypt}
use pypopur.Sdk.FastJson.{upper_escapes}
use pypopur.Sdk.HexUtil.{contact, bytes_to_int2}
use pypopur.Sdk.Java.{to_int32}
use pypopur.Sdk.LanFraming.{
  assemble_request, HRequest, JsonText, LocalControlSpec, check_hgw_version, to_json_string,
  FloatAtLeast,
}
use pypopur.Sdk.LanFraming.Body.{assemble_request-decrypt_bytes}
use pypopur.Sdk.LanSocket.{Conn, pack_keyed, pack_55aa, Frame, read_frame, content}
use pypopur.Sdk.LanSocket.Link.{
  v3_4, send_55aa, handshake_error, send_session, inbound_payload, Upcall, verify_key, LinkError,
  Link, next_seq, handshake_success,
}
use pypopur.Sdk.LanSocket.Link.Authentic.{negotiate-Authentic, Authentic}
use pypopur.Sdk.LanSocket.Link.Delivery.{send_session-inbound_payload}
use pypopur.Sdk.LanSocket.Link.Negotiate.{
  negotiate, after_send, negotiate_34, xor_bytes, unless, or_raise,
}
use pypopur.Sdk.LanSocket.Parse.{outcome}
use pypopur.Sdk.LanSocket.Table.{new_link, reader_turn}
use pypopur.Sdk.LanSocket.Table.Online.{reader_turn-Delivered, Delivered}
use pypopur.Sdk.LanSocket.Udp.{framed, unpack}
use pypopur.Sdk.LanSocket.Udp.Framed.{unpack-pack_55aa}
use pypopur.Tests.Lan.{toy_ciphers-CipherLaws, packed_55aa, toy_ciphers, frame_55aa}
use pypopur.Tests.Mqtt.{toy_crypto, toy_crypto-CryptoLaws}

abbrev device : Chars
device = codes "d"

abbrev fresh_link : Link
fresh_link = new_link device v3_4 (some (1 ∷ [])) 0

abbrev secured : Link
secured = record fresh_link { session_key = some (6 ∷ []) }

abbrev frame_keyed : Bytes
frame_keyed =
    0 ∷ 0 ∷ 0x55 ∷ 0xaa ∷ 0 ∷ 0 ∷ 0 ∷ 1 ∷ 0 ∷ 0 ∷ 0 ∷ 7 ∷ 0 ∷ 0 ∷ 0 ∷ 38 ∷ 9 ∷ 8 ∷ []
    ++ (replicate 32 7 ++ (0 ∷ 0 ∷ 0xaa ∷ 0x55 ∷ []))

abbrev in_chunks : Conn
in_chunks = record { buf = []; sock = take 20 frame_keyed ∷ drop 20 frame_keyed ∷ [] }

packed_keyed :
    pack_55aa toy_ciphers (suc secured.seq) 7 (9 ∷ 8 ∷ []) (some (6 ∷ [])) none ≡ some frame_keyed
unfolding pack_55aa pack_keyed
packed_keyed = refl

encrypted : aes_ecb_encrypt toy_crypto (6 ∷ []) (9 ∷ 8 ∷ []) ≡ some (9 ∷ 8 ∷ [])
unfolding aes_ecb_encrypt
encrypted = refl

arrives_keyed : content in_chunks ≡ frame_keyed ++ []
unfolding contact
arrives_keyed = refl

send_session-inbound_payload_example :
    (send_session toy_ciphers true toy_crypto [] 7 (9 ∷ 8 ∷ []) secured
      ≡ (ok (pos 0), record secured { seq = 1; sent = frame_keyed ∷ [] }))
    × (outcome (read_frame toy_ciphers (verify_key secured) true in_chunks)
        ≡ ok (record { seq = 1; cmd = 7; retcode = 0; payload = 9 ∷ 8 ∷ []; auth_ok = true }, []))
    × (inbound_payload toy_crypto secured (9 ∷ 8 ∷ []) ≡ some (9 ∷ 8 ∷ []))
send_session-inbound_payload_example =
    send_session-inbound_payload toy_ciphers toy_ciphers-CipherLaws toy_crypto toy_crypto-CryptoLaws
      [] 7 6 [] (9 ∷ 8 ∷ []) (9 ∷ 8 ∷ []) frame_keyed [] secured secured in_chunks refl refl refl
      refl encrypted packed_keyed (omega arith) (omega arith, (omega arith, tt)) arrives_keyed

abbrev answer : Frame
answer = record {
  seq = 1;
  cmd = 4;
  retcode = 0;
  payload = replicate 16 5 ++ replicate 32 7;
  auth_ok = true;
}

abbrev negotiated_link : Link × List Upcall
negotiated_link =
    negotiate toy_ciphers toy_crypto true true true [] [] (1 ∷ []) (replicate 16 3) (some answer)
      fresh_link

negotiates :
    (negotiated_link.1 ≡ handshake_success device ∷ [])
    × (negotiated_link.0.session_key ≡ some (replicate 16 6))
unfolding negotiate negotiate_34 after_send or_raise unless send_55aa pack_55aa pack_keyed next_seq
    aes_ecb_encrypt aes_ecb_decrypt xor_bytes
negotiates = (refl, refl)

negotiate-Authentic_example :
    ((negotiated_link.0.session_key ≡ none)
      × ((e : LinkError) × (negotiated_link.1 ≡ handshake_error device e ∷ [])))
    ⊎ (Authentic toy_ciphers toy_crypto v3_4 (1 ∷ []) (replicate 16 3) (some answer)
        × (negotiated_link.1 ≡ handshake_success device ∷ []))
negotiate-Authentic_example =
    negotiate-Authentic toy_ciphers toy_crypto true true (1 ∷ []) (replicate 16 3) fresh_link [] []
      (some answer)

reader_turn-Delivered_example :
    Delivered toy_crypto secured answer ((reader_turn toy_crypto 5 answer secured).0)
reader_turn-Delivered_example = reader_turn-Delivered toy_crypto 5 answer secured refl

-- A JSON library of texts.
abbrev texts : JsonText Chars
texts = record { dumps = λ t. some t; number = λ z. codes "0"; members = λ m. codes "{}" }

abbrev at_least_33 : FloatAtLeast
at_least_33 t tenths = some (leb tenths 33)

abbrev request : LocalControlSpec Chars
request = record {
  dev_id = device;
  frame_type = pos 13;
  data_object = codes "[]";
  lpv = codes "3.3";
  local_key = some (codes "k");
  s = pos 1;
  o = pos 2;
  t = pos 0;
  protocol = pos 5;
}

not_34 : check_hgw_version at_least_33 (some request.lpv) 34 ≡ false
unfolding check_hgw_version
not_34 = refl

is_32 : check_hgw_version at_least_33 (some request.lpv) 32 ≡ true
unfolding check_hgw_version
is_32 = refl

json_written : to_json_string texts request.data_object ≡ some (codes "[]")
unfolding to_json_string upper_escapes
json_written = refl

sealed : aes_ecb_encrypt toy_crypto (codes "k") (codes "[]") ≡ some (codes "[]")
unfolding aes_ecb_encrypt
sealed = refl

assemble_request-decrypt_bytes_example :
    (made : HRequest) × (assemble_request toy_crypto texts at_least_33 request ≡ ok made)
    × (take 3 made.bs ≡ codes "3.3")
    × (bytes_to_int2 made.bs 7 ≡ to_int32 (pos 1))
    × (bytes_to_int2 made.bs 11 ≡ to_int32 (pos 2))
    × (decrypt_bytes toy_crypto (codes "k") (drop 15 made.bs) ≡ some (codes "[]"))
assemble_request-decrypt_bytes_example =
    assemble_request-decrypt_bytes toy_crypto toy_crypto-CryptoLaws texts at_least_33 request b'k'
      [] (codes "[]") (codes "[]") not_34 is_32 refl json_written sealed

unpack-pack_55aa_example :
    unpack toy_ciphers ((1 ∷ []) ∷ []) (frame_55aa ++ 5 ∷ []) ≡ framed 7 3 (9 ∷ 8 ∷ [])
unpack-pack_55aa_example =
    unpack-pack_55aa toy_ciphers toy_ciphers-CipherLaws ((1 ∷ []) ∷ []) 1 7 3 (9 ∷ 8 ∷ [])
      frame_55aa (5 ∷ []) packed_55aa
