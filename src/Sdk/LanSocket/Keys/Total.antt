-- ===== src/Sdk/LanSocket/Keys/Total.antt =====
-- sdk/lan_socket.py: reading the security content.
use native.Mathlib.Nat.{mod-lt}
use pypopur.Prelude.{
  ◌-◌, ◌/◌, ◌&&◌, ◌%◌, List, arith, ◌≡◌, zero, ◌*◌, ◌+◌, ◌≤◌, ℕ, ◌<◌, refl, inl, ◌∷◌, suc, [], inr,
  length, drop, and_split, ltb→lt, Bool-cases, ltb, if◌then◌else◌, ◌==◌, leb,
}
use pypopur.Py.{◌>>=◌, Exception, Bytes, ok, Result}
use pypopur.Sdk.HexUtil.{pairs}
use pypopur.Sdk.LanSocket.{content}
use pypopur.Sdk.LanSocket.Keys.{
  read_keys_from_content, read_shares, java_hash, read_layout, stego_read_string, stego_read_byte,
  stego_read_bytes, valid_header, read_pairs, read_bits, pixel_at, le_word,
}

-- The call returns.
abbrev Returns {ℓ} : {A : Type ℓ} → Result Exception A → Type ℓ
Returns {A = A} r = (a : A) × (r ≡ ok a)

after_lem {ℓ κ} :
    {A : Type ℓ} {B : Type κ} (r : Result Exception A) (f : A → Result Exception B)
    → Returns r
    → ((a : A) → Returns (f a))
    → Returns (r >>= f)
after_lem r f (a, e) on = rw e (on a)

pixel_at_lem : (pixels : Bytes) (i : ℕ) → i < length pixels → Returns (pixel_at pixels i)
pixel_at_lem [] i h = absurd (omega arith)
pixel_at_lem (p ∷ pixels) zero h = (p, refl)
pixel_at_lem (p ∷ pixels) (suc i) h = pixel_at_lem pixels i (omega arith)

read_bits_lem :
    (count : ℕ) (pixels : Bytes) (at : ℕ)
    → at + count ≤ length pixels
    → Returns (read_bits count pixels at)
unfolding read_bits
read_bits_lem zero pixels at h = (0, refl)
read_bits_lem (suc count) pixels at h =
    after_lem (pixel_at pixels at) _ (pixel_at_lem pixels at (omega arith)) (λ pixel.
      after_lem (read_bits count pixels (at + 1)) _
        (read_bits_lem count pixels (at + 1) (omega arith)) (λ higher. (_, refl)))

module _ (pixels : Bytes) (plen : ℕ) (some_pixels : 0 < plen)
    (slack : plen + 7 ≤ length pixels) where
  wrapped : (cursor : ℕ) → (if leb plen cursor then cursor % plen else cursor) < plen
  wrapped cursor = elim (Bool-cases (leb plen cursor)) [
    | inl past ↦ rw past (mod-lt cursor some_pixels)
    | inr inside ↦ rw inside (ground arith)
  ]

  read_byte_lem : (cursor : ℕ) → Returns (stego_read_byte pixels plen cursor)
  unfolding stego_read_byte
  read_byte_lem cursor =
      after_lem _ _ (read_bits_lem 8 pixels _ (omega (arith, wrapped cursor))) (λ b. (_, refl))

  read_bytes_lem : (n cursor : ℕ) → Returns (stego_read_bytes n pixels plen cursor)
  unfolding stego_read_bytes
  read_bytes_lem zero cursor = (([], cursor), refl)
  read_bytes_lem (suc n) cursor =
      after_lem _ _ (read_byte_lem cursor)
        (λ b. after_lem _ _ (read_bytes_lem n b.1) (λ rest. (_, refl)))

  read_string_lem : (cursor : ℕ) → Returns (stego_read_string pixels plen cursor)
  unfolding stego_read_string
  read_string_lem cursor = after_lem _ _ (read_byte_lem cursor) (λ n. read_bytes_lem n.0 n.1)

  read_pairs_lem : (n cursor : ℕ) → Returns (read_pairs n pixels plen cursor)
  unfolding read_pairs
  read_pairs_lem zero cursor = ([], refl)
  read_pairs_lem (suc n) cursor = after_lem _ _ (read_string_lem cursor) (λ a.
      after_lem _ _ (read_string_lem a.1)
        (λ b. after_lem _ _ (read_pairs_lem n b.1) (λ rest. (_, refl))))

  -- A return code other than 0, and no keys.
  abbrev NoKeys : Result Exception (ℕ × List Bytes) → Type 0
  NoKeys r = (rc : ℕ) × (r ≡ ok (rc, [])) × (0 < rc)

  read_shares_lem : (cursor : ℕ) → NoKeys (read_shares pixels plen cursor)
  unfolding read_shares
  read_shares_lem cursor =
      let (c, e) = read_byte_lem cursor in
      let (p, d) = read_byte_lem c.1 in
      let (pairs, f) = read_pairs_lem (p.0 * c.0) (p.1 + 0x20) in
      elim (Bool-cases (leb 1 c.0 && leb c.0 5)) [
        | inl fine ↦ (1, rw (e, fine, d, f) refl, omega arith)
        | inr wrong ↦ (0x15, rw (e, wrong) refl, omega arith)
      ]

  read_layout_lem : (key : Bytes) → NoKeys (read_layout key pixels plen)
  unfolding read_layout
  read_layout_lem key =
      let (v, e) =
        pixel_at_lem pixels ((java_hash key % plen / 2) % plen)
          (omega (arith, mod-lt (java_hash key % plen / 2) some_pixels)) in
      elim (Bool-cases (ltb 2 v)) [
        | inl big ↦ (0x15, rw (e, big) refl, omega arith)
        | inr small ↦ elim (Bool-cases (v == 1)) [
          | inl one ↦ (0x0b, rw (e, small, one) refl, omega arith)
          | inr other ↦
              let (rc, d, positive) = read_shares_lem (((java_hash key % plen / 2) % plen) + 1) in
              (rc, rw (e, small, other) d, positive)
        ]
      ]

-- No keys are ever read: the call gives a return code other than 0, and it raises nothing, if seven
-- pixels follow those that the sizes in the header count.
pub read_keys_from_content_lem :
    (key content : Bytes)
    → (le_word 2 content - le_word 0xa content) + 7 ≤ length (drop 0x36 content)
    → (rc : ℕ) × (read_keys_from_content key content ≡ ok (rc, [])) × (0 < rc)
unfolding read_keys_from_content
read_keys_from_content_lem key content slack =
    let plen : ℕ = le_word 2 content - le_word 0xa content in
    elim (Bool-cases
      (valid_header content && ltb 0 plen && leb plen (length (drop 0x36 content)))) [
        | inl fine ↦
            let positive : 0 < plen = ltb→lt 0 plen (and_split _ _ (and_split _ _ fine).0).1 in
            rw fine (read_layout_lem (drop 0x36 content) plen positive slack key)
        | inr wrong ↦ (0x15, rw wrong refl, omega arith)
      ]
