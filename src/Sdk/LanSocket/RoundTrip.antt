-- ===== src/Sdk/LanSocket/RoundTrip.antt =====
-- sdk/lan_socket.py: a packed frame is read back from the socket.
use mathlib.Core.Path.{subst}
use pypopur.Prelude.{
  [], some, ◌++◌, ◌%◌, ◌+◌, ◌-◌, ap, true, ◌&&◌, Option, sym, Bool, ◌∙◌, ◌∷◌, ◌≤◌, ◌≡◌, none, arith,
  ◌<◌, false, refl, ℕ, ◌^◌, length, length-append, take, All, drop, ==_iff, ltb→lt, ltb, some_inj,
  if◌then◌else◌,
}
use pypopur.Prelude.Eq.{text_eq_iff, text_eq}
use pypopur.Dps.System.Encode.{payload}
use pypopur.Py.{Bytes, ok}
use pypopur.Sdk.HexUtil.{from_big_endian}
use pypopur.Sdk.HexUtil.RoundTrip.{drop-append}
use pypopur.Sdk.LanSocket.{
  pack_keyed, fits_opt, content, authentic, truthy, header_55aa, max_payload_length, trailer_len,
  Ciphers, word, starts_with, be32, suffix_55aa, pack_55aa, open_55aa, Frame, trailer,
  retcode_bytes, read_frame, Conn,
}
use pypopur.Sdk.LanSocket.Parse.{
  seek, parse_found, outcome, parse_55aa, parse_frame, parse_at, split_at,
}
use pypopur.Sdk.LanSocket.Parse.Resync.{read_frame-parse_frame}
use pypopur.Sdk.LanSocket.Stream.{Flowing}

-- What the code relies on of the libraries.
pub record CipherLaws (c : Ciphers) : Type 0 where
  pub length-hmac_sha256 : (key bs : Bytes) → length (c.hmac_sha256 key bs) ≡ 32
  pub length-gcm_encrypt :
      (key iv bs aad ct : Bytes)
      → c.gcm_encrypt key iv bs aad ≡ some ct
      → length ct ≡ length bs + 16
  pub gcm_decrypt-gcm_encrypt :
      (key iv bs aad ct : Bytes)
      → c.gcm_encrypt key iv bs aad ≡ some ct
      → c.gcm_decrypt key iv ct aad ≡ some bs

pub be32_lem : (n : ℕ) → n < 2 ^ 32 → from_big_endian 0 (be32 n) ≡ n
unfolding from_big_endian
be32_lem n h = omega arith

pub word_lem : (n : ℕ) (rest : Bytes) → n < 2 ^ 32 → word 0 (be32 n ++ rest) ≡ n
unfolding word
word_lem n rest h = be32_lem n h

pub take-append : (front back : Bytes) → take (length front) (front ++ back) ≡ front
take-append [] back = refl
take-append (b ∷ front) back = rw (take-append front back) refl

pub take_of : (n : ℕ) (front back : Bytes) → length front ≡ n → take n (front ++ back) ≡ front
take_of n front back e = rw (← e) (take-append front back)

pub drop_of : (n : ℕ) (front back : Bytes) → length front ≡ n → drop n (front ++ back) ≡ back
drop_of n front back e = rw (← e) (drop-append front back)

pub split_lem :
    (n : ℕ) (front back : Bytes) → length front ≡ n → split_at n (front ++ back) ≡ ok (front, back)
split_lem n front back e =
    let enough : ltb (length (front ++ back)) n ≡ false =
      ground (arith, length-append front back) in
    rw (enough, take_of n front back e, drop_of n front back e) refl

-- Bytes other than 0 before a frame are skipped.
seek-append : (junk bs : Bytes) → All (λ b. 0 < b) junk → seek (junk ++ bs) ≡ seek bs
unfolding seek starts_with
seek-append [] bs h = refl
seek-append (b ∷ junk) bs (positive, h) = rw (seek-append junk bs h) (ground arith)

abbrev pub or_zero : Option ℕ → ℕ
or_zero none = 0
or_zero (some n) = n

abbrev pub is_none : Option ℕ → Bool
is_none none = true
is_none (some n) = false

pub guarded :
    (a b c d : Bool) (bs frame : Bytes)
    → (if a && b && c && d then some bs else none) ≡ some frame
    → (a ≡ true) × (b ≡ true) × (c ≡ true) × (d ≡ true) × (bs ≡ frame)
guarded true true true true bs frame h = (refl, refl, refl, refl, some_inj h)
guarded true true true false bs frame h = cc
guarded true true false d bs frame h = cc
guarded true false c d bs frame h = cc
guarded false b c d bs frame h = cc

module _ (ciphers : Ciphers) (laws : CipherLaws ciphers) where
  text_eq_refl : (bs : Bytes) → text_eq bs bs ≡ true
  text_eq_refl bs = (text_eq_iff bs bs).1 refl

  length-trailer :
      (key : Option Bytes) (covered : Bytes)
      → length (trailer ciphers key covered ++ be32 suffix_55aa) ≡ trailer_len key
  length-trailer none covered = refl
  length-trailer (some key) covered = omega (
    arith,
    length-append (ciphers.hmac_sha256 key covered) (be32 suffix_55aa),
    laws.length-hmac_sha256 key covered,
  )

  trailer-authentic :
      (key : Option Bytes) (no_retcode : Bool) (covered : Bytes)
      → authentic ciphers key no_retcode covered (trailer ciphers key covered ++ be32 suffix_55aa)
        ≡ true
  trailer-authentic none no_retcode covered =
      (==_iff _ _).1
        (sym (word_lem (ciphers.crc32 covered % 2 ^ 32) (be32 suffix_55aa) (omega arith)))
  trailer-authentic (some key) no_retcode covered =
      rw
        (take_of 32 (ciphers.hmac_sha256 key covered) (be32 suffix_55aa)
          (laws.length-hmac_sha256 key covered))
        (text_eq_refl (ciphers.hmac_sha256 key covered))

  pub header_words :
      (seq cmd size : ℕ)
      → seq < 2 ^ 32
      → cmd < 2 ^ 32
      → size < 2 ^ 32
      → (word 4 (header_55aa seq cmd size) ≡ seq)
        × (word 8 (header_55aa seq cmd size) ≡ cmd)
        × (word 12 (header_55aa seq cmd size) ≡ size)
  unfolding word
  header_words seq cmd size small_seq small_cmd small_size =
      (be32_lem seq small_seq, be32_lem cmd small_cmd, be32_lem size small_size)

  -- The payload of a body that is kept, and its return code.
  pub body_lem :
      (retcode : Option ℕ) (payload rest : Bytes)
      → fits_opt retcode ≡ true
      → (let body = retcode_bytes retcode ++ payload in
          ((if is_none retcode then 0 else word 0 (body ++ rest)) ≡ or_zero retcode)
          × (drop (if is_none retcode then 0 else 4) body ≡ payload))
  body_lem none payload rest h = (refl, refl)
  body_lem (some code) payload rest h = (word_lem code (payload ++ rest) (ltb→lt _ _ h), refl)

  open_55aa_lem :
      (seq cmd size : ℕ) (payload : Bytes) (key : Option Bytes) (retcode : Option ℕ)
      → seq < 2 ^ 32
      → cmd < 2 ^ 32
      → size < 2 ^ 32
      → fits_opt retcode ≡ true
      → (let body = retcode_bytes retcode ++ payload in
          let covered = header_55aa seq cmd size ++ body in
          open_55aa ciphers key
            (is_none retcode)
            (header_55aa seq cmd size)
            (body ++ (trailer ciphers key covered ++ be32 suffix_55aa)))
        ≡ record {
          seq = seq;
          cmd = cmd;
          retcode = or_zero retcode;
          payload = payload;
          auth_ok = true;
        }
  unfolding open_55aa
  open_55aa_lem seq cmd size payload key retcode small_seq small_cmd small_size small_code =
      let body : Bytes = retcode_bytes retcode ++ payload in
      let covered : Bytes = header_55aa seq cmd size ++ body in
      let tail : Bytes = trailer ciphers key covered ++ be32 suffix_55aa in
      let kept : length (body ++ tail) - trailer_len key ≡ length body =
        omega (arith, length-append body tail, length-trailer key covered) in
      let (is_seq, is_cmd, is_size) = header_words seq cmd size small_seq small_cmd small_size in
      let (code, plain) = body_lem retcode payload tail small_code in
      rw
        (
          kept,
          take-append body tail,
          drop-append body tail,
          is_seq,
          is_cmd,
          code,
          plain,
          trailer-authentic key (is_none retcode) covered,
        )
        refl

  parse_55aa_lem :
      (size : ℕ) (seq cmd : ℕ) (full rest : Bytes) (key : Option Bytes) (no_retcode : Bool)
      → size < 2 ^ 32
      → seq < 2 ^ 32
      → cmd < 2 ^ 32
      → length full ≡ size
      → size ≤ max_payload_length
      → trailer_len key + (if no_retcode then 0 else 4) ≤ size
      → parse_55aa ciphers key no_retcode (header_55aa seq cmd size ++ (full ++ rest))
        ≡ ok (open_55aa ciphers key no_retcode (header_55aa seq cmd size) full, rest)
  unfolding parse_55aa
  parse_55aa_lem size seq cmd full rest key no_retcode small small_seq small_cmd e under_cap long =
      let under : ltb max_payload_length size ≡ false = ground arith in
      let holds : ltb (length full) (trailer_len key + (if no_retcode then 0 else 4)) ≡ false =
        ground arith in
      let (is_seq, is_cmd, is_size) = header_words seq cmd size small_seq small_cmd small in
      rw
        (
          split_lem 16 (header_55aa seq cmd size) (full ++ rest) refl,
          is_size,
          under,
          split_lem size full rest e,
          holds,
        )
        refl

  seek_55aa :
      (seq cmd size : ℕ) (bs : Bytes)
      → seek (header_55aa seq cmd size ++ bs) ≡ some (header_55aa seq cmd size ++ bs)
  unfolding seek starts_with
  seek_55aa seq cmd size bs = refl

  at_55aa :
      (key : Option Bytes) (no_retcode : Bool) (seq cmd size : ℕ) (bs : Bytes)
      → parse_frame ciphers key no_retcode (header_55aa seq cmd size ++ bs)
        ≡ parse_55aa ciphers key no_retcode (header_55aa seq cmd size ++ bs)
  unfolding parse_frame parse_at word from_big_endian
  at_55aa key no_retcode seq cmd size bs =
      ap (parse_found ciphers key no_retcode) (seek_55aa seq cmd size bs) ∙ refl

  pub parse_frame-append :
      (key : Option Bytes) (no_retcode : Bool) (junk bs : Bytes)
      → All (λ b. 0 < b) junk
      → parse_frame ciphers key no_retcode (junk ++ bs) ≡ parse_frame ciphers key no_retcode bs
  unfolding parse_frame
  parse_frame-append key no_retcode junk bs h =
      ap (parse_found ciphers key no_retcode) (seek-append junk bs h)

  pub pack_keyed_lem :
      (seq cmd : ℕ) (payload : Bytes) (key : Option Bytes) (retcode : Option ℕ) (frame : Bytes)
      → pack_keyed ciphers seq cmd payload key retcode ≡ some frame
      → (let body = retcode_bytes retcode ++ payload in
          let size = length body + trailer_len key in
          let covered = header_55aa seq cmd size ++ body in
          (fits_opt retcode ≡ true)
          × (seq < 2 ^ 32)
          × (cmd < 2 ^ 32)
          × (size < 2 ^ 32)
          × (frame ≡ covered ++ (trailer ciphers key covered ++ be32 suffix_55aa)))
  unfolding pack_keyed
  pack_keyed_lem seq cmd payload key retcode frame h =
      let (code, small_seq, small_cmd, small_size, e) = guarded _ _ _ _ _ _ h in
      (code, ltb→lt _ _ small_seq, ltb→lt _ _ small_cmd, ltb→lt _ _ small_size, sym e)

  least_lem :
      (retcode : Option ℕ) (payload : Bytes) (key : Option Bytes)
      → trailer_len key + (if is_none retcode then 0 else 4)
        ≤ length (retcode_bytes retcode ++ payload) + trailer_len key
  least_lem none payload key = omega arith
  least_lem (some code) payload key = omega arith

  -- A 55AA frame that was packed is read back: its numbers, its payload and a valid trailer. The
  -- reader has the packer's key, which is not empty, and expects a return code if the frame has one;
  -- the body is not over the cap. It may come in any chunks and after bytes other than 0, which are
  -- skipped, and what follows it stays in the stream.
  pub read_frame-pack_55aa :
      (seq cmd : ℕ) (payload : Bytes) (key : Option Bytes) (retcode : Option ℕ)
      (frame junk rest : Bytes) (conn : Conn)
      → truthy key ≡ key
      → pack_55aa ciphers seq cmd payload key retcode ≡ some frame
      → length (retcode_bytes retcode ++ payload) + trailer_len key ≤ max_payload_length
      → All (λ b. 0 < b) junk
      → Flowing conn.sock
      → content conn ≡ junk ++ (frame ++ rest)
      → outcome (read_frame ciphers key (is_none retcode) conn)
        ≡ ok (
          record {
            seq = seq;
            cmd = cmd;
            retcode = or_zero retcode;
            payload = payload;
            auth_ok = true;
          },
          rest,
        )
  unfolding pack_55aa
  read_frame-pack_55aa seq cmd payload key retcode frame junk rest conn keyed packed under_cap
        skipped flowing arrives =
      let body : Bytes = retcode_bytes retcode ++ payload in
      let size : ℕ = length body + trailer_len key in
      let covered : Bytes = header_55aa seq cmd size ++ body in
      let tail : Bytes = trailer ciphers key covered ++ be32 suffix_55aa in
      let (small_code, small_seq, small_cmd, small_size, e) =
        pack_keyed_lem seq cmd payload key retcode frame (
          subst (λ (k : Option Bytes). pack_keyed ciphers seq cmd payload k retcode ≡ some frame)
            keyed packed) in
      let shape : frame ++ rest ≡ header_55aa seq cmd size ++ (body ++ tail ++ rest) = rw e refl in
      let full : length (body ++ tail) ≡ size =
        omega (arith, length-append body tail, length-trailer key covered) in
      read_frame-parse_frame ciphers key (is_none retcode) conn flowing
      ∙ ap (parse_frame ciphers key (is_none retcode)) arrives
      ∙ parse_frame-append key (is_none retcode) junk (frame ++ rest) skipped
      ∙ ap (parse_frame ciphers key (is_none retcode)) shape
      ∙ at_55aa key (is_none retcode) seq cmd size (body ++ tail ++ rest)
      ∙ parse_55aa_lem size seq cmd (body ++ tail) rest key (is_none retcode) small_size small_seq
          small_cmd full under_cap (least_lem retcode payload key)
      ∙ ap (λ (f : Frame). ok (f, rest))
          (open_55aa_lem seq cmd size payload key retcode small_seq small_cmd small_size small_code)
