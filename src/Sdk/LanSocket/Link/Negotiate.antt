-- ===== src/Sdk/LanSocket/Link/Negotiate.antt =====
-- sdk/lan_socket.py: the negotiation of the session key, and the heartbeats.
use Prim.Native.Nat.{bit_xor}
use pypopur.Prelude.{
  Option, ◌||◌, zero, [], ◌-◌, false, none, true, Bool, ◌∷◌, ℕ, not, some, ◌+◌, suc, List, take,
  length, drop, leb, ltb, if◌then◌else◌, ◌==◌,
}
use pypopur.Prelude.Eq.{text_eq}
use pypopur.Prelude.Int.{negsuc, ℤ, pos}
use pypopur.Dps.System.Encode.{payload}
use pypopur.Py.{Bytes, ok, raise}
use pypopur.Sdk.Crypto.{aes_ecb_encrypt, aes_ecb_decrypt, CryptoLib}
use pypopur.Sdk.LanSocket.{Frame, Ciphers}
use pypopur.Sdk.LanSocket.Link.{
  uncaught, hmac_mismatch, send_6699, Link, timed_out, sess_key_neg_start, Proto, bad_response,
  handshake_success, sess_key_neg_finish, LinkError, v3_4, send_failed, send_heartbeat, send_55aa,
  Upcall, sess_key_neg_resp, Step, handshake_error, close_link,
}

-- `bytes(a ^ b for a, b in zip(...))`
unfoldable pub xor_bytes : Bytes → Bytes → Bytes
xor_bytes [] bs = []
xor_bytes (a ∷ t) [] = []
xor_bytes (a ∷ t) (b ∷ bs) = bit_xor a b ∷ xor_bytes t bs

-- What follows a send, which raises if the frame was not taken.
unfoldable pub after_send : Step ℤ → (Link → Step (Unit {0})) → Step (Unit {0})
after_send (raise e, link) on = (raise e, link)
after_send (ok (pos zero), link) on = on link
after_send (ok (pos (suc n)), link) on = (raise send_failed, link)
after_send (ok (negsuc n), link) on = (raise send_failed, link)

unfoldable pub or_raise {ℓ} :
    {A : Type ℓ} → LinkError → Option A → Link → (A → Step (Unit {0})) → Step (Unit {0})
or_raise e none link on = (raise e, link)
or_raise e (some a) link on = on a

unfoldable pub unless : LinkError → (bad : Bool) → Link → Step (Unit {0}) → Step (Unit {0})
unless e bad link on = if bad then (raise e, link) else on

abbrev keyed : Bytes → Link → Step (Unit {0})
keyed session link = (ok tt, record link { session_key = some (take 16 session) })

-- `cmd != SESS_KEY_NEG_RESP or not ok or len(payload) < least`
abbrev pub ill_response : Frame → (least : ℕ) → Bool
ill_response f least =
    not (f.cmd == sess_key_neg_resp) || not f.auth_ok || ltb (length f.payload) least

-- The upcall is only for the link that is still the device's.
abbrev pub told : (current : Bool) → Step (Unit {0}) → Link × List Upcall
told current (ok u, link) = (
  record link { negotiating = false },
  if current then handshake_success link.dev_id ∷ [] else [],
)
told current (raise e, link) = (
  record link { negotiating = false },
  if current then handshake_error link.dev_id e ∷ [] else [],
)

module _ (ciphers : Ciphers) (lib : CryptoLib) (first_writable last_writable : Bool) where
  -- From the device's nonce and its proof that it has the key.
  abbrev pub finish_34 : (real_key local_nonce plain : Bytes) → Link → Step (Unit {0})
  finish_34 real_key local_nonce plain link =
      let remote = take 16 plain in
      let proof = take 32 (drop 16 plain) in
      unless hmac_mismatch (not (text_eq (ciphers.hmac_sha256 real_key local_nonce) proof)) link (
        or_raise uncaught (aes_ecb_encrypt lib real_key (ciphers.hmac_sha256 real_key remote)) link
          (λ finish.
            after_send
              (send_55aa ciphers last_writable sess_key_neg_finish finish (some real_key) link)
              (λ link.
                or_raise uncaught (lib.ecb_encrypt real_key (xor_bytes local_nonce remote)) link
                  (λ session. keyed session link))))

  -- `_negotiate_34`; the response is what the queue gives in time.
  unfoldable pub negotiate_34 :
      (real_key local_nonce : Bytes) → Option Frame → Link → Step (Unit {0})
  unfolding send_55aa aes_ecb_encrypt aes_ecb_decrypt xor_bytes
  negotiate_34 real_key local_nonce response link =
      or_raise uncaught (aes_ecb_encrypt lib real_key local_nonce) link (λ start.
        after_send (send_55aa ciphers first_writable sess_key_neg_start start (some real_key) link)
          (λ link. or_raise timed_out response link (λ f.
            unless bad_response (ill_response f 16) link (
              or_raise uncaught (aes_ecb_decrypt lib real_key f.payload) link
                (λ plain. finish_34 real_key local_nonce plain link)))))

  abbrev pub finish_35 : (last_iv real_key local_nonce payload : Bytes) → Link → Step (Unit {0})
  finish_35 last_iv real_key local_nonce payload link =
      let remote = take 16 payload in
      let proof = take 32 (drop 16 payload) in
      unless hmac_mismatch (not (text_eq (ciphers.hmac_sha256 real_key local_nonce) proof)) link (
        after_send
          (send_6699 ciphers last_writable last_iv sess_key_neg_finish
            (ciphers.hmac_sha256 real_key remote) real_key link)
          (λ link.
            or_raise uncaught
              (ciphers.gcm_encrypt real_key (take 12 local_nonce) (xor_bytes local_nonce remote) [])
              link (λ session. keyed session link)))

  -- `_negotiate_35`; the two nonces are those of the frames.
  unfoldable pub negotiate_35 :
      (first_iv last_iv real_key local_nonce : Bytes) → Option Frame → Link → Step (Unit {0})
  unfolding send_6699 xor_bytes
  negotiate_35 first_iv last_iv real_key local_nonce response link =
      after_send
        (send_6699 ciphers first_writable first_iv sess_key_neg_start local_nonce real_key link)
        (λ link. or_raise timed_out response link (λ f.
          unless bad_response (ill_response f 48) link
            (finish_35 last_iv real_key local_nonce f.payload link)))

  abbrev pub negotiated :
      Proto
      → (first_iv last_iv real_key local_nonce : Bytes) → Option Frame
      → Link
      → Step (Unit {0})
  negotiated v3_4 first_iv last_iv real_key local_nonce response link =
      negotiate_34 real_key local_nonce response link
  negotiated _ first_iv last_iv real_key local_nonce response link =
      negotiate_35 first_iv last_iv real_key local_nonce response link

  -- `_negotiate`
  unfoldable pub negotiate :
      (current : Bool) (first_iv last_iv real_key local_nonce : Bytes)
      → Option Frame
      → Link
      → Link × List Upcall
  unfolding negotiate_34 negotiate_35
  negotiate current first_iv last_iv real_key local_nonce response link =
      told current (negotiated link.proto first_iv last_iv real_key local_nonce response link)

abbrev timed_out_close : Link → Step (List Upcall)
timed_out_close link = let (link, upcalls) = close_link true (negsuc 1) link in (ok upcalls, link)

abbrev beaten : Step ℤ → Step (List Upcall)
beaten (raise e, link) = (raise e, link)
beaten (ok code, link) = (ok [], link)

-- What the heartbeat loop does with a link at the time `now`; the intervals are in milliseconds.
unfoldable pub heartbeat :
    (ciphers : Ciphers)
    → CryptoLib
    → (writable : Bool) (iv : Bytes) (now hb_interval hb_timeout : ℕ) → Link
    → Step (List Upcall)
unfolding send_heartbeat close_link
heartbeat ciphers lib writable iv now hb_interval hb_timeout link =
    if not link.online || link.closed
    then (ok [], link)
    else if ltb (hb_timeout + hb_interval) (now - link.last_rx)
    then timed_out_close link
    else if leb hb_interval (now - link.last_hb)
    then beaten (send_heartbeat ciphers writable lib iv (record link { last_hb = now }))
    else (ok [], link)
