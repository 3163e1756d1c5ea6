-- ===== src/Sdk/LanSocket.antt =====
-- sdk/lan_socket.py: the frames of the LAN link, packed and read from a socket.
pub mod Stream
pub mod Parse
pub mod RoundTrip
pub mod Gcm
pub mod Keys
pub mod Link
pub mod Table
pub mod Udp
use Prim.Native.Nat.{min}
use pypopur.Prelude.{
  Option, [], false, some, ◌^◌, zero, ◌/◌, ◌+◌, none, Bool, ◌&&◌, ◌++◌, ◌||◌, ◌∷◌, List, ℕ, suc,
  true, ◌%◌, ◌-◌, drop, length, take, leb, if◌then◌else◌, ◌==◌, ltb,
}
use pypopur.Prelude.Eq.{text_eq}
use pypopur.Py.{Bytes}
use pypopur.Py.Text.{is_empty}
use pypopur.Sdk.HexUtil.{from_big_endian, contact}

abbrev pub prefix_55aa : ℕ
prefix_55aa = 0x55aa

abbrev pub prefix_6699 : ℕ
prefix_6699 = 0x6699

abbrev pub suffix_55aa : ℕ
suffix_55aa = 0xaa55

abbrev pub suffix_6699 : ℕ
suffix_6699 = 0x9966

abbrev pub header_len_55aa : ℕ
header_len_55aa = 16

abbrev pub header_len_6699 : ℕ
header_len_6699 = 18

abbrev pub max_payload_length : ℕ
max_payload_length = 8192

-- The libraries' functions; `none` where they raise.
pub record Ciphers : Type 0 where
  pub crc32 : Bytes → ℕ
  pub hmac_sha256 : Bytes → Bytes → Bytes
  pub gcm_encrypt : (key iv plaintext aad : Bytes) → Option Bytes
  pub gcm_decrypt : (key iv ciphertext aad : Bytes) → Option Bytes

-- `struct.pack(">I", n)` of a number below 2 ** 32.
abbrev pub be32 : ℕ → Bytes
be32 n = n / 2 ^ 24 ∷ n / 2 ^ 16 % 256 ∷ n / 2 ^ 8 % 256 ∷ n % 256 ∷ []

-- `struct.unpack(">I", bs[at:at + 4])[0]`
unfoldable pub word : ℕ → Bytes → ℕ
word at bs = from_big_endian 0 (take 4 (drop at bs))

-- What `struct.pack` accepts as a word.
abbrev pub fits : ℕ → Bool
fits n = ltb n (2 ^ 32)

abbrev pub fits_opt : Option ℕ → Bool
fits_opt none = true
fits_opt (some n) = fits n

abbrev pub retcode_bytes : Option ℕ → Bytes
retcode_bytes none = []
retcode_bytes (some retcode) = be32 retcode

-- `if hmac_key`: an empty key is none.
abbrev pub truthy : Option Bytes → Option Bytes
truthy none = none
truthy (some []) = none
truthy (some (b ∷ bs)) = some (b ∷ bs)

abbrev pub trailer_len : Option Bytes → ℕ
trailer_len none = 8
trailer_len (some key) = 36

abbrev pub header_55aa : (seq cmd size : ℕ) → Bytes
header_55aa seq cmd size = be32 prefix_55aa ++ (be32 seq ++ (be32 cmd ++ be32 size))

abbrev pub header_6699 : (seq cmd size : ℕ) → Bytes
header_6699 seq cmd size = be32 prefix_6699 ++ (0 ∷ 0 ∷ be32 seq ++ (be32 cmd ++ be32 size))

module _ (ciphers : Ciphers) where
  abbrev pub trailer : Option Bytes → Bytes → Bytes
  trailer none covered = be32 (ciphers.crc32 covered % 2 ^ 32)
  trailer (some key) covered = ciphers.hmac_sha256 key covered

  -- The frame under a key that is not empty, or none.
  unfoldable pub pack_keyed : (seq cmd : ℕ) → Bytes → Option Bytes → Option ℕ → Option Bytes
  pack_keyed seq cmd payload key retcode =
      let body = retcode_bytes retcode ++ payload in
      let size = length body + trailer_len key in
      let covered = header_55aa seq cmd size ++ body in
      if fits_opt retcode && fits seq && fits cmd && fits size
      then some (covered ++ (trailer key covered ++ be32 suffix_55aa))
      else none

  -- `none` is the `struct.error` of a number that does not fit.
  unfoldable pub pack_55aa : (seq cmd : ℕ) → Bytes → Option Bytes → Option ℕ → Option Bytes
  unfolding pack_keyed
  pack_55aa seq cmd payload hmac_key retcode = pack_keyed seq cmd payload (truthy hmac_key) retcode

  -- `iv` is what `os.urandom(12)` gives.
  unfoldable pub pack_6699 : (iv : Bytes) (seq cmd : ℕ) → Bytes → Bytes → Option ℕ → Option Bytes
  pack_6699 iv seq cmd plaintext key retcode =
      let inner = retcode_bytes retcode ++ plaintext in
      let size = 12 + length inner + 16 in
      let header = header_6699 seq cmd size in
      elim (ciphers.gcm_encrypt key iv inner (drop 4 header)) [
        | none ↦ none
        | some ct ↦
            if fits_opt retcode && fits seq && fits cmd && fits size
            then some (header ++ (iv ++ (ct ++ be32 suffix_6699)))
            else none
      ]

-- What the socket still gives: the chunk that each `recv` finds. An empty chunk, or no more, is the
-- end of the stream.
pub record Conn : Type 0 where
  pub buf : Bytes
  pub sock : List Bytes

pub data ReadError : Type 0 where
  eof over_cap short_body bad_prefix out_of_fuel : ReadError

-- A read ends with a result or an exception, and leaves the buffer and the socket.
pub data Read {ℓ} (A : Type ℓ) : Type ℓ where
  got : A → Conn → Read A
  failed : ReadError → Conn → Read A

abbrev pub and_then {ℓ κ} : {A : Type ℓ} {B : Type κ} → Read A → (A → Conn → Read B) → Read B
and_then (got a conn) f = f a conn
and_then (failed e conn) f = failed e conn

-- `sock.recv(most)`
unfoldable pub recv : ℕ → List Bytes → Bytes × List Bytes
recv most [] = ([], [])
recv most (chunk ∷ sock) =
    (take most chunk, if is_empty (drop most chunk) then sock else drop most chunk ∷ sock)

-- The loops `while len(buf) < need`, which differ in what they ask for. A round adds a byte at
-- least, so `need` rounds are enough.
unfoldable pub fill : (ask : ℕ → ℕ) (need fuel : ℕ) → Conn → Read (Unit {0})
unfolding recv
fill ask need zero conn =
    if ltb (length conn.buf) need then failed out_of_fuel conn else got tt conn
fill ask need (suc fuel) conn =
    let (chunk, sock) = recv (ask (length conn.buf)) conn.sock in
    let more = fill ask need fuel (record { buf = conn.buf ++ chunk; sock = sock }) in
    if ltb (length conn.buf) need
    then if is_empty chunk then failed eof (record conn { sock = sock }) else more
    else got tt conn

abbrev pub ask_exact : ℕ → ℕ → ℕ
ask_exact n have = min 65536 (n - have)

abbrev pub ask_window : ℕ → ℕ
ask_window have = 65536

abbrev pub cut : ℕ → Unit {0} → Conn → Read Bytes
cut n u conn = got (take n conn.buf) (record conn { buf = drop n conn.buf })

-- `_read_exact`
unfoldable pub read_exact : ℕ → Conn → Read Bytes
unfolding fill
read_exact n conn = and_then (fill (ask_exact n) n n conn) (cut n)

unfoldable pub starts_with : Bytes → Bytes → Bool
starts_with [] bs = true
starts_with (x ∷ p) [] = false
starts_with (x ∷ p) (b ∷ bs) = (x == b) && starts_with p bs

abbrev pub next_index : Option ℕ → Option ℕ
next_index none = none
next_index (some i) = some (suc i)

-- `bs.find(p)`; `none` is -1.
unfoldable pub find : Bytes → Bytes → Option ℕ
unfolding starts_with
find p [] = if starts_with p [] then some 0 else none
find p (b ∷ bs) =
    let later = next_index (find p bs) in if starts_with p (b ∷ bs) then some 0 else later

-- What the resync loop does with its window.
pub data Scan : Type 0 where
  here : Scan
  skip : ℕ → Scan
  slide : Scan

abbrev is_zero_index : Option ℕ → Bool
is_zero_index none = false
is_zero_index (some i) = i == 0

-- `i66 < 0 or i55 <= i66`
abbrev not_before : ℕ → Option ℕ → Bool
not_before i none = true
not_before i (some j) = leb i j

unfoldable pub scan : Option ℕ → Option ℕ → Scan
scan i55 i66 = if is_zero_index i55 || is_zero_index i66 then here else elim i55 [
  | some i ↦ if not_before i i66 then skip i else elim i66 [ none ↦ slide | some j ↦ skip j ]
  | none ↦ elim i66 [ none ↦ slide | some j ↦ skip j ]
]

abbrev pub dropped : ℕ → Conn → Conn
dropped n conn = record conn { buf = drop n conn.buf }

-- The buffer at a known prefix. A round that goes on drops a byte of what is left of the stream.
unfoldable pub resync : ℕ → Conn → Read (Unit {0})
unfolding fill find scan
resync zero conn = failed out_of_fuel conn
resync (suc fuel) conn = and_then (fill ask_window 8 8 conn) (λ u conn.
    let window = take 8 conn.buf in
    elim (scan (find (be32 prefix_55aa) window) (find (be32 prefix_6699) window)) [
      | here ↦ got tt conn
      | skip i ↦ got tt (dropped i conn)
      | slide ↦ resync fuel (dropped 1 conn)
    ])

pub record Frame : Type 0 where
  pub seq : ℕ
  pub cmd : ℕ
  pub retcode : ℕ
  pub payload : Bytes
  pub auth_ok : Bool

-- The bytes that are still to come, those in the buffer first.
abbrev pub content : Conn → Bytes
content conn = conn.buf ++ contact conn.sock

module _ (ciphers : Ciphers) (key : Option Bytes) (no_retcode : Bool) where
  -- The integrity check of the last bytes of a body over what stands before them.
  abbrev pub authentic : Bytes → Bytes → Bool
  authentic covered trailer = elim key [
    | none ↦ (ciphers.crc32 covered % 2 ^ 32) == word 0 trailer
    | some k ↦ text_eq (ciphers.hmac_sha256 k covered) (take 32 trailer)
  ]

  -- A body of 55AA that is long enough, taken apart.
  unfoldable pub open_55aa : Bytes → Bytes → Frame
  unfolding word
  open_55aa hdr body =
      let kept = take (length body - trailer_len key) body in
      let trailer = drop (length body - trailer_len key) body in
      record {
        seq = word 4 hdr;
        cmd = word 8 hdr;
        retcode = if no_retcode then 0 else word 0 body;
        payload = drop (if no_retcode then 0 else 4) kept;
        auth_ok = authentic (hdr ++ kept) trailer;
      }

  abbrev pub blank : Bytes → Bytes → Bool → Frame
  blank hdr payload auth_ok = record {
    seq = word 6 hdr;
    cmd = word 10 hdr;
    retcode = 0;
    payload = payload;
    auth_ok = auth_ok;
  }

  abbrev pub decrypted : Bytes → Option Bytes → Frame
  decrypted hdr none = blank hdr [] false
  decrypted hdr (some raw) =
      if no_retcode || ltb (length raw) 4
      then blank hdr raw true
      else record (blank hdr (drop 4 raw) true) { retcode = word 0 raw }

  unfoldable pub open_6699 : Bytes → Bytes → Frame
  unfolding word
  open_6699 hdr body = elim key [
    | none ↦ blank hdr body false
    | some k ↦
        if ltb (length body) 28
        then blank hdr body false
        else decrypted hdr (ciphers.gcm_decrypt k (take 12 body) (drop 12 body) (drop 4 hdr))
  ]

  abbrev least_body : ℕ
  least_body = trailer_len key + (if no_retcode then 0 else 4)

  unfoldable pub read_55aa : Conn → Read Frame
  unfolding read_exact open_55aa word
  read_55aa conn = and_then (read_exact header_len_55aa conn) (λ hdr conn.
      if ltb max_payload_length (word 12 hdr)
      then failed over_cap conn
      else and_then (read_exact (word 12 hdr) conn) (λ body conn.
        if ltb (length body) least_body
        then failed short_body conn
        else got (open_55aa hdr body) conn))

  unfoldable pub read_6699 : Conn → Read Frame
  unfolding read_exact open_6699 word
  read_6699 conn = and_then (read_exact header_len_6699 conn) (λ hdr conn.
      if ltb max_payload_length (word 14 hdr)
      then failed over_cap conn
      else and_then (read_exact (word 14 hdr) conn) (λ body conn.
        and_then (read_exact 4 conn) (λ suffix conn. got (open_6699 hdr body) conn)))

  -- The frame that starts at the prefix in the buffer.
  unfoldable pub read_at_prefix : Conn → Read Frame
  unfolding read_55aa read_6699 word
  read_at_prefix conn =
      if word 0 conn.buf == prefix_55aa
      then read_55aa conn
      else if word 0 conn.buf == prefix_6699
      then read_6699 conn
      else failed bad_prefix conn

  -- `key` is what `key_fn()` gives once the frame has been read.
  unfoldable pub read_frame : Conn → Read Frame
  unfolding resync read_at_prefix
  read_frame conn =
      and_then (resync (suc (length (content conn))) conn) (λ u at_prefix. read_at_prefix at_prefix)
