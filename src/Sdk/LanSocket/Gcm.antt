-- ===== src/Sdk/LanSocket/Gcm.antt =====
-- sdk/lan_socket.py: a packed AES-GCM frame is read back from the socket.
use mathlib.Core.List.{append_assoc}
use pypopur.Prelude.{
  ◌&&◌, false, ◌+◌, ◌<◌, refl, some, ℕ, ◌≤◌, Bool, true, ◌≡◌, sym, Option, ◌^◌, arith, ap, ◌∙◌,
  ◌++◌, none, drop, All, length-append, length, if◌then◌else◌, ltb, ltb→lt,
}
use pypopur.Dps.System.Encode.{payload}
use pypopur.Py.{Bytes, ok}
use pypopur.Sdk.HexUtil.{from_big_endian}
use pypopur.Sdk.LanSocket.{
  fits_opt, Conn, be32, pack_6699, header_6699, starts_with, suffix_6699, decrypted, content,
  open_6699, word, retcode_bytes, max_payload_length, Frame, Ciphers, read_frame,
}
use pypopur.Sdk.LanSocket.Parse.{parse_frame, parse_at, parse_found, outcome, parse_6699, seek}
use pypopur.Sdk.LanSocket.Parse.Resync.{read_frame-parse_frame}
use pypopur.Sdk.LanSocket.RoundTrip.{
  is_none, be32_lem, parse_frame-append, take_of, or_zero, drop_of, split_lem, word_lem, CipherLaws,
  guarded,
}
use pypopur.Sdk.LanSocket.Stream.{Flowing}

sealed_cases :
    (o : Option Bytes) (a b c d : Bool) (f : Bytes → Bytes) (frame : Bytes)
    → (elim o [ none ↦ none | some ct ↦ if a && b && c && d then some (f ct) else none ])
      ≡ some frame
    → (ct : Bytes) × (o ≡ some ct)
      × (a ≡ true)
      × (b ≡ true)
      × (c ≡ true)
      × (d ≡ true)
      × (f ct ≡ frame)
sealed_cases none a b c d f frame h = cc
sealed_cases (some ct) a b c d f frame h =
    let (ha, hb, hc, hd, e) = guarded a b c d (f ct) frame h in (ct, refl, ha, hb, hc, hd, e)

module _ (ciphers : Ciphers) (laws : CipherLaws ciphers) where
  header_words :
      (seq cmd size : ℕ)
      → seq < 2 ^ 32
      → cmd < 2 ^ 32
      → size < 2 ^ 32
      → (word 6 (header_6699 seq cmd size) ≡ seq)
        × (word 10 (header_6699 seq cmd size) ≡ cmd)
        × (word 14 (header_6699 seq cmd size) ≡ size)
  unfolding word
  header_words seq cmd size small_seq small_cmd small_size =
      (be32_lem seq small_seq, be32_lem cmd small_cmd, be32_lem size small_size)

  decrypted_lem :
      (key : Bytes) (retcode : Option ℕ) (hdr payload : Bytes)
      → fits_opt retcode ≡ true
      → decrypted ciphers (some key) (is_none retcode) hdr (some (retcode_bytes retcode ++ payload))
        ≡ record {
          seq = word 6 hdr;
          cmd = word 10 hdr;
          retcode = or_zero retcode;
          payload = payload;
          auth_ok = true;
        }
  decrypted_lem key none hdr payload h = refl
  decrypted_lem key (some code) hdr payload h =
      let long : ltb (length (be32 code ++ payload)) 4 ≡ false = ground arith in
      rw (long, word_lem code payload (ltb→lt _ _ h)) refl

  open_6699_lem :
      (seq cmd size : ℕ) (payload key iv ct : Bytes) (retcode : Option ℕ)
      → seq < 2 ^ 32
      → cmd < 2 ^ 32
      → size < 2 ^ 32
      → fits_opt retcode ≡ true
      → length iv ≡ 12
      → ciphers.gcm_encrypt key iv
          (retcode_bytes retcode ++ payload)
          (drop 4 (header_6699 seq cmd size))
        ≡ some ct
      → open_6699 ciphers (some key) (is_none retcode) (header_6699 seq cmd size) (iv ++ ct)
        ≡ record {
          seq = seq;
          cmd = cmd;
          retcode = or_zero retcode;
          payload = payload;
          auth_ok = true;
        }
  unfolding open_6699
  open_6699_lem seq cmd size payload key iv ct retcode small_seq small_cmd small_size small_code
        twelve sealed =
      let inner : Bytes = retcode_bytes retcode ++ payload in
      let aad : Bytes = drop 4 (header_6699 seq cmd size) in
      let long : ltb (length (iv ++ ct)) 28 ≡ false =
        ground (arith, length-append iv ct, laws.length-gcm_encrypt key iv inner aad ct sealed) in
      let (is_seq, is_cmd, is_size) = header_words seq cmd size small_seq small_cmd small_size in
      rw
        (
          long,
          take_of 12 iv ct twelve,
          drop_of 12 iv ct twelve,
          laws.gcm_decrypt-gcm_encrypt key iv inner aad ct sealed,
          decrypted_lem key retcode (header_6699 seq cmd size) payload small_code,
          is_seq,
          is_cmd,
        )
        refl

  parse_6699_lem :
      (size seq cmd : ℕ) (full suffix rest : Bytes) (key : Option Bytes) (no_retcode : Bool)
      → size < 2 ^ 32
      → seq < 2 ^ 32
      → cmd < 2 ^ 32
      → length full ≡ size
      → length suffix ≡ 4
      → size ≤ max_payload_length
      → parse_6699 ciphers key no_retcode (header_6699 seq cmd size ++ (full ++ (suffix ++ rest)))
        ≡ ok (open_6699 ciphers key no_retcode (header_6699 seq cmd size) full, rest)
  unfolding parse_6699
  parse_6699_lem size seq cmd full suffix rest key no_retcode small small_seq small_cmd e four
        under_cap =
      let under : ltb max_payload_length size ≡ false = ground arith in
      let (is_seq, is_cmd, is_size) = header_words seq cmd size small_seq small_cmd small in
      rw
        (
          split_lem 18 (header_6699 seq cmd size) (full ++ (suffix ++ rest)) refl,
          is_size,
          under,
          split_lem size full (suffix ++ rest) e,
          split_lem 4 suffix rest four,
        )
        refl

  seek_6699 :
      (seq cmd size : ℕ) (bs : Bytes)
      → seek (header_6699 seq cmd size ++ bs) ≡ some (header_6699 seq cmd size ++ bs)
  unfolding seek starts_with
  seek_6699 seq cmd size bs = refl

  at_6699 :
      (key : Option Bytes) (no_retcode : Bool) (seq cmd size : ℕ) (bs : Bytes)
      → parse_frame ciphers key no_retcode (header_6699 seq cmd size ++ bs)
        ≡ parse_6699 ciphers key no_retcode (header_6699 seq cmd size ++ bs)
  unfolding parse_frame parse_at word from_big_endian
  at_6699 key no_retcode seq cmd size bs =
      ap (parse_found ciphers key no_retcode) (seek_6699 seq cmd size bs) ∙ refl

  pack_6699_lem :
      (iv : Bytes) (seq cmd : ℕ) (payload key : Bytes) (retcode : Option ℕ) (frame : Bytes)
      → pack_6699 ciphers iv seq cmd payload key retcode ≡ some frame
      → (let inner = retcode_bytes retcode ++ payload in
          let size = 12 + length inner + 16 in
          (ct : Bytes) × (ciphers.gcm_encrypt key iv inner (drop 4 (header_6699 seq cmd size))
            ≡ some ct)
          × (fits_opt retcode ≡ true)
          × (seq < 2 ^ 32)
          × (cmd < 2 ^ 32)
          × (size < 2 ^ 32)
          × (frame ≡ header_6699 seq cmd size ++ (iv ++ (ct ++ be32 suffix_6699))))
  unfolding pack_6699
  pack_6699_lem iv seq cmd payload key retcode frame h =
      let (ct, sealed, code, small_seq, small_cmd, small_size, e) =
        sealed_cases _ _ _ _ _ (λ (ct : Bytes). _) frame h in
      (ct, sealed, code, ltb→lt _ _ small_seq, ltb→lt _ _ small_cmd, ltb→lt _ _ small_size, sym e)

  -- An AES-GCM frame that was packed with a nonce of twelve bytes is read back, if the body is not
  -- over the cap and the reader expects a return code exactly when the frame has one. It may come in
  -- any chunks and after bytes other than 0, which are skipped, and what follows it stays.
  pub read_frame-pack_6699 :
      (iv : Bytes) (seq cmd : ℕ) (payload key : Bytes) (retcode : Option ℕ)
      (frame junk rest : Bytes) (conn : Conn)
      → length iv ≡ 12
      → pack_6699 ciphers iv seq cmd payload key retcode ≡ some frame
      → 12 + length (retcode_bytes retcode ++ payload) + 16 ≤ max_payload_length
      → All (λ b. 0 < b) junk
      → Flowing conn.sock
      → content conn ≡ junk ++ (frame ++ rest)
      → outcome (read_frame ciphers (some key) (is_none retcode) conn)
        ≡ ok (
          record {
            seq = seq;
            cmd = cmd;
            retcode = or_zero retcode;
            payload = payload;
            auth_ok = true;
          },
          rest,
        )
  read_frame-pack_6699 iv seq cmd payload key retcode frame junk rest conn twelve packed under_cap
        skipped flowing arrives =
      let inner : Bytes = retcode_bytes retcode ++ payload in
      let size : ℕ = 12 + length inner + 16 in
      let (ct, sealed, small_code, small_seq, small_cmd, small_size, e) =
        pack_6699_lem iv seq cmd payload key retcode frame packed in
      let full : length (iv ++ ct) ≡ size =
        omega (arith, length-append iv ct, laws.length-gcm_encrypt key iv inner _ ct sealed) in
      let shape : frame ++ rest
          ≡ header_6699 seq cmd size ++ (iv ++ ct ++ (be32 suffix_6699 ++ rest)) =
        rw
          (
            e,
            append_assoc iv (ct ++ be32 suffix_6699) rest,
            append_assoc ct (be32 suffix_6699) rest,
            append_assoc iv ct (be32 suffix_6699 ++ rest),
          )
          refl in
      read_frame-parse_frame ciphers (some key) (is_none retcode) conn flowing
      ∙ ap (parse_frame ciphers (some key) (is_none retcode)) arrives
      ∙ parse_frame-append ciphers laws (some key) (is_none retcode) junk (frame ++ rest) skipped
      ∙ ap (parse_frame ciphers (some key) (is_none retcode)) shape
      ∙ at_6699 (some key) (is_none retcode) seq cmd size (iv ++ ct ++ (be32 suffix_6699 ++ rest))
      ∙ parse_6699_lem size seq cmd (iv ++ ct) (be32 suffix_6699) rest (some key) (is_none retcode)
          small_size small_seq small_cmd full refl under_cap
      ∙ ap (λ (f : Frame). ok (f, rest))
          (open_6699_lem seq cmd size payload key iv ct retcode small_seq small_cmd small_size
            small_code twelve sealed)
