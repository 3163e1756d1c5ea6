-- ===== src/Sdk/LanSocket/Link/Authentic.antt =====
-- sdk/lan_socket.py: a session key is taken only from a device that proves that it has the key.
use pypopur.Prelude.{
  inl, refl, true, zero, none, inr, Option, some, suc, arith, ◌≡◌, ap, Bool, ◌⊎◌, not, false, ◌∷◌,
  [], take, drop,
}
use pypopur.Prelude.Eq.{text_eq}
use pypopur.Prelude.Int.{pos, negsuc, ℤ}
use pypopur.Py.{raise, ok, Bytes}
use pypopur.Sdk.Crypto.{aes_ecb_decrypt, CryptoLib}
use pypopur.Sdk.LanSocket.{Frame, Ciphers}
use pypopur.Sdk.LanSocket.Link.{
  v3_5_1, v3_5, Proto, send_6699, handshake_success, written, Step, next_seq, v3_4, LinkError,
  legacy, send_55aa, handshake_error, Link,
}
use pypopur.Sdk.LanSocket.Link.Negotiate.{
  unless, ill_response, negotiate_35, after_send, negotiate, or_raise, negotiate_34, finish_34,
  told, finish_35, negotiated,
}

-- The response carries the keyed hash of the nonce that was sent.
abbrev Proof : Ciphers → CryptoLib → Proto → (real_key local_nonce : Bytes) → Frame → Type 0
Proof ciphers lib v3_4 real_key local_nonce f =
    (plain : Bytes) × (aes_ecb_decrypt lib real_key f.payload ≡ some plain)
    × (ill_response f 16 ≡ false)
    × (text_eq (ciphers.hmac_sha256 real_key local_nonce) (take 32 (drop 16 plain)) ≡ true)
Proof ciphers lib _ real_key local_nonce f =
    (ill_response f 48 ≡ false)
    × (text_eq (ciphers.hmac_sha256 real_key local_nonce) (take 32 (drop 16 f.payload)) ≡ true)

-- The response came, and proves that the device has the key.
abbrev pub Authentic :
    Ciphers → CryptoLib → Proto → (real_key local_nonce : Bytes) → Option Frame → Type 0
Authentic ciphers lib proto real_key local_nonce response =
    (f : Frame) × (response ≡ some f) × Proof ciphers lib proto real_key local_nonce f

not-false : {b : Bool} → not b ≡ false → b ≡ true
not-false h = ground arith

module _ (P : Type 0) (start : Link) where
  abbrev Same : Link → Type 0
  Same link = (link.session_key ≡ start.session_key) × (link.dev_id ≡ start.dev_id)

  abbrev Held : Step (Unit {0}) → Type 0
  Held (raise e, link) = Same link
  Held (ok u, link) = P × (link.dev_id ≡ start.dev_id)

  after_send-Held :
      (sent : Step ℤ) (on : Link → Step (Unit {0}))
      → Same (sent.1)
      → ((link : Link) → Same link → Held (on link))
      → Held (after_send sent on)
  unfolding after_send
  after_send-Held (raise e, link) on same h = same
  after_send-Held (ok (pos zero), link) on same h = h link same
  after_send-Held (ok (pos (suc n)), link) on same h = same
  after_send-Held (ok (negsuc n), link) on same h = same

  or_raise-Held {ℓ} :
      {A : Type ℓ} (e : LinkError) (o : Option A) (link : Link) (on : A → Step (Unit {0}))
      → Same link
      → ((a : A) → o ≡ some a → Held (on a))
      → Held (or_raise e o link on)
  unfolding or_raise
  or_raise-Held e none link on same h = same
  or_raise-Held e (some a) link on same h = h a refl

  unless-Held :
      (e : LinkError) (bad : Bool) (link : Link) (on : Step (Unit {0}))
      → Same link
      → (bad ≡ false → Held on)
      → Held (unless e bad link on)
  unfolding unless
  unless-Held e true link on same h = same
  unless-Held e false link on same h = h refl

  written-Same :
      (writable : Bool) (frame : Option Bytes) (link : Link)
      → Same link
      → Same ((written writable frame link).1)
  written-Same writable none link same = same
  written-Same true (some frame) link same = same
  written-Same false (some frame) link same = same

  told-Held :
      (step : Step (Unit {0}))
      → Held step
      → (let (link, upcalls) = told true step in
          ((link.session_key ≡ start.session_key)
            × ((e : LinkError) × (upcalls ≡ handshake_error start.dev_id e ∷ [])))
          ⊎ (P × (upcalls ≡ handshake_success start.dev_id ∷ [])))
  told-Held (raise e, link) (key, dev) = inl (key, (e, ap (λ d. handshake_error d e ∷ []) dev))
  told-Held (ok u, link) (p, dev) = inr (p, ap (λ d. handshake_success d ∷ []) dev)

module _ (ciphers : Ciphers) (lib : CryptoLib) (first_writable last_writable : Bool)
    (real_key local_nonce : Bytes) (start : Link) where
  finish_34-Held :
      (P : Type 0) (plain : Bytes) (link : Link)
      → Same P start link
      → (text_eq (ciphers.hmac_sha256 real_key local_nonce) (take 32 (drop 16 plain)) ≡ true → P)
      → Held P start
          (finish_34 ciphers lib first_writable last_writable real_key local_nonce plain link)
  unfolding send_55aa next_seq
  finish_34-Held P plain link same h = unless-Held P start _ _ link _ same (λ matches.
      or_raise-Held P start _ _ link _ same (λ finish made.
        after_send-Held P start _ _ (written-Same P start last_writable _ (next_seq link) same)
          (λ link same.
            or_raise-Held P start _ _ link _ same
              (λ session made. (h (not-false matches), same.1)))))

  negotiate_34-Held :
      (response : Option Frame)
      → Held (Authentic ciphers lib v3_4 real_key local_nonce response) start (
          negotiate_34 ciphers lib first_writable last_writable real_key local_nonce response start)
  unfolding negotiate_34 send_55aa next_seq
  negotiate_34-Held response =
      let P : Type 0 = Authentic ciphers lib v3_4 real_key local_nonce response in
      or_raise-Held P start _ _ start _ (refl, refl)
        (λ sealed made.
          after_send-Held P start _ _
            (written-Same P start first_writable _ (next_seq start) (refl, refl))
            (λ link same. or_raise-Held P start _ response link _ same (λ f came.
              unless-Held P start _ _ link _ same (λ well_formed.
                or_raise-Held P start _ _ link _ same (λ plain opened.
                  finish_34-Held P plain link same
                    (λ matches. (f, came, (plain, opened, well_formed, matches))))))))

  finish_35-Held :
      (P : Type 0) (last_iv bs : Bytes) (link : Link)
      → Same P start link
      → (text_eq (ciphers.hmac_sha256 real_key local_nonce) (take 32 (drop 16 bs)) ≡ true → P)
      → Held P start
          (finish_35 ciphers lib first_writable last_writable last_iv real_key local_nonce bs link)
  unfolding send_6699 next_seq
  finish_35-Held P last_iv bs link same h = unless-Held P start _ _ link _ same (λ matches.
      after_send-Held P start _ _ (written-Same P start last_writable _ (next_seq link) same)
        (λ link same.
          or_raise-Held P start _ _ link _ same (λ session made. (h (not-false matches), same.1))))

  negotiate_35-Held :
      (P : Type 0) (first_iv last_iv : Bytes) (response : Option Frame)
      → ((f : Frame)
          → response ≡ some f
          → ill_response f 48 ≡ false
          → text_eq (ciphers.hmac_sha256 real_key local_nonce) (take 32 (drop 16 f.payload)) ≡ true
          → P)
      → Held P start (
          negotiate_35 ciphers lib first_writable last_writable first_iv last_iv real_key
            local_nonce response start)
  unfolding negotiate_35 send_6699 next_seq
  negotiate_35-Held P first_iv last_iv response h =
      after_send-Held P start _ _
        (written-Same P start first_writable _ (next_seq start) (refl, refl))
        (λ link same. or_raise-Held P start _ response link _ same (λ f came.
          unless-Held P start _ _ link _ same
            (λ well_formed. finish_35-Held P last_iv f.payload link same (h f came well_formed))))

  by_proto :
      (first_iv last_iv : Bytes) (response : Option Frame) (proto : Proto)
      → Held (Authentic ciphers lib proto real_key local_nonce response) start (
          negotiated ciphers lib first_writable last_writable proto first_iv last_iv real_key
            local_nonce response start)
  by_proto first_iv last_iv response v3_4 = negotiate_34-Held response
  by_proto first_iv last_iv response legacy =
      negotiate_35-Held _ first_iv last_iv response (λ f came good h. (f, came, (good, h)))
  by_proto first_iv last_iv response v3_5 =
      negotiate_35-Held _ first_iv last_iv response (λ f came good h. (f, came, (good, h)))
  by_proto first_iv last_iv response v3_5_1 =
      negotiate_35-Held _ first_iv last_iv response (λ f came good h. (f, came, (good, h)))

  -- On the device's current link `negotiate` ends in one of two ways. Either the session key stays
  -- what it was and the one upcall reports an error, whichever send, wait, check or cipher failed;
  -- or the one upcall reports success, and then a response came that proves the real key: it is
  -- well formed and carries the keyed hash of the nonce that was sent.
  pub negotiate-Authentic :
      (first_iv last_iv : Bytes) (response : Option Frame)
      → (let (link, upcalls) =
            negotiate ciphers lib first_writable last_writable true first_iv last_iv real_key
              local_nonce response start in
          ((link.session_key ≡ start.session_key)
            × ((e : LinkError) × (upcalls ≡ handshake_error start.dev_id e ∷ [])))
          ⊎ (Authentic ciphers lib start.proto real_key local_nonce response
              × (upcalls ≡ handshake_success start.dev_id ∷ [])))
  unfolding negotiate
  negotiate-Authentic first_iv last_iv response =
      told-Held _ start _ (by_proto first_iv last_iv response start.proto)
