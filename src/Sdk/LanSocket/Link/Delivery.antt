-- ===== src/Sdk/LanSocket/Link/Delivery.antt =====
-- sdk/lan_socket.py: what one end of a link sends, the other end reads.
use pypopur.Prelude.{
  true, [], ◌≤◌, suc, some, ◌∙◌, ◌≡◌, ap, ◌∷◌, none, Option, ℕ, ◌+◌, refl, ◌++◌, length,
}
use pypopur.Prelude.Int.{pos}
use pypopur.Py.{Bytes, ok}
use pypopur.Sdk.Crypto.{aes_ecb_encrypt, CryptoLib}
use pypopur.Sdk.Crypto.Laws.{CryptoLaws, aes_ecb_decrypt-aes_ecb_encrypt}
use pypopur.Sdk.LanSocket.{Conn, content, max_payload_length, pack_55aa, Ciphers, read_frame}
use pypopur.Sdk.LanSocket.Link.{
  inbound_payload, verify_key, legacy, next_seq, written, send_55aa, send_session, Link, v3_5_1,
  v3_4, v3_5, Proto,
}
use pypopur.Sdk.LanSocket.Parse.{outcome}
use pypopur.Sdk.LanSocket.RoundTrip.{CipherLaws, read_frame-pack_55aa}
use pypopur.Sdk.LanSocket.Stream.{Flowing}

on_34 {ℓ} :
    {A : Type ℓ} (p : Proto) (a b c d : A)
    → p ≡ v3_4
    → elim p [ legacy ↦ a | v3_4 ↦ b | v3_5 ↦ c | v3_5_1 ↦ d ] ≡ b
on_34 p a b c d e = rw e refl

on_some {ℓ κ} :
    {A : Type ℓ} {B : Type κ} (o : Option A) (b : B) (f : A → B) (x : A)
    → o ≡ some x
    → elim o [ none ↦ b | some a ↦ f a ] ≡ f x
on_some o b f x e = rw e refl

module _ (ciphers : Ciphers) (cipher_laws : CipherLaws ciphers) (lib : CryptoLib)
    (laws : CryptoLaws lib) where
  sent_lem :
      (iv : Bytes) (cmd : ℕ) (k : ℕ) (ks bs ct frame : Bytes) (link : Link)
      → link.proto ≡ v3_4
      → link.session_key ≡ some (k ∷ ks)
      → aes_ecb_encrypt lib (k ∷ ks) bs ≡ some ct
      → pack_55aa ciphers (suc link.seq) cmd ct (some (k ∷ ks)) none ≡ some frame
      → send_session ciphers true lib iv cmd bs link
        ≡ (ok (pos 0), record link { seq = suc link.seq; sent = link.sent ++ frame ∷ [] })
  unfolding send_session send_55aa next_seq
  sent_lem iv cmd k ks bs ct frame link is_34 keyed enc packed =
      on_34 link.proto _ _ _ _ is_34
      ∙ on_some link.session_key _ _ _ keyed
      ∙ on_some (aes_ecb_encrypt lib (k ∷ ks) bs) _ _ _ enc
      ∙ ap (λ o. written true o (next_seq link)) packed

  verify_key_lem :
      (peer : Link) (k : ℕ) (ks : Bytes)
      → peer.proto ≡ v3_4
      → peer.session_key ≡ some (k ∷ ks)
      → verify_key peer ≡ some (k ∷ ks)
  unfolding verify_key
  verify_key_lem peer k ks is_34 keyed = rw (is_34, keyed) refl

  inbound_lem :
      (peer : Link) (key bs ct : Bytes)
      → peer.proto ≡ v3_4
      → peer.session_key ≡ some key
      → aes_ecb_encrypt lib key bs ≡ some ct
      → inbound_payload lib peer ct ≡ some bs
  unfolding inbound_payload
  inbound_lem peer key bs ct is_34 keyed enc =
      rw (is_34, keyed) (aes_ecb_decrypt-aes_ecb_encrypt lib laws key bs ct enc)

  -- A payload that is sent over a 3.4 link with a session key arrives: `send_session` writes one
  -- frame under the next number; another end with the same protocol and key, which expects no return
  -- code, reads that frame with a valid trailer under its `verify_key`, in whatever chunks it comes,
  -- and decrypts its payload to what was sent. The key is not empty, the payload is encrypted and
  -- packed without an exception, and the body is not over the cap.
  pub send_session-inbound_payload :
      (iv : Bytes) (cmd : ℕ) (k : ℕ) (ks bs ct frame rest : Bytes) (link peer : Link) (conn : Conn)
      → link.proto ≡ v3_4
      → link.session_key ≡ some (k ∷ ks)
      → peer.proto ≡ v3_4
      → peer.session_key ≡ some (k ∷ ks)
      → aes_ecb_encrypt lib (k ∷ ks) bs ≡ some ct
      → pack_55aa ciphers (suc link.seq) cmd ct (some (k ∷ ks)) none ≡ some frame
      → length ct + 36 ≤ max_payload_length
      → Flowing conn.sock
      → content conn ≡ frame ++ rest
      → (send_session ciphers true lib iv cmd bs link
          ≡ (ok (pos 0), record link { seq = suc link.seq; sent = link.sent ++ frame ∷ [] }))
        × (outcome (read_frame ciphers (verify_key peer) true conn)
            ≡ ok (
              record { seq = suc link.seq; cmd = cmd; retcode = 0; payload = ct; auth_ok = true },
              rest,
            ))
        × (inbound_payload lib peer ct ≡ some bs)
  send_session-inbound_payload iv cmd k ks bs ct frame rest link peer conn is_34 keyed peer_34
        peer_keyed enc packed under_cap flowing arrives =
      (
        sent_lem iv cmd k ks bs ct frame link is_34 keyed enc packed,
        rw (verify_key_lem peer k ks peer_34 peer_keyed) (
            read_frame-pack_55aa ciphers cipher_laws (suc link.seq) cmd ct (some (k ∷ ks)) none
              frame [] rest conn refl packed under_cap tt flowing arrives),
        inbound_lem peer (k ∷ ks) bs ct peer_34 peer_keyed enc,
      )
