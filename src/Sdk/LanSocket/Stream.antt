-- ===== src/Sdk/LanSocket/Stream.antt =====
-- sdk/lan_socket.py: what the loops over `sock.recv` read does not depend on the chunks.
use mathlib.Core.List.{append_assoc, append-nil}
use pypopur.Prelude.{
  ◌≤◌, false, ◌∙◌, List, ap, inl, inr, arith, sym, ◌++◌, zero, ◌⊎◌, ◌≡◌, ℕ, ◌+◌, ◌∷◌, suc, refl, [],
  ◌<◌, All, take, drop, take-append-drop, length, length-append, ltb→lt, Bool-cases, ltb,
  if◌then◌else◌,
}
use pypopur.Py.{Bytes}
use pypopur.Py.Text.{is_empty}
use pypopur.Sdk.HexUtil.{contact}
use pypopur.Sdk.LanSocket.{
  recv, eof, Read, content, dropped, fill, ask_exact, failed, Conn, read_exact, got,
}

-- Every chunk holds a byte, so that the stream does not end before its last byte.
abbrev pub Flowing : List Bytes → Type 0
Flowing sock = All (λ chunk. 0 < length chunk) sock

-- A chunk that is cut in two: an empty rest is dropped.
rest_lem :
    (first rest : Bytes) (sock : List Bytes)
    → Flowing sock
    → (let after = if is_empty rest then sock else rest ∷ sock in
        Flowing after × (first ++ contact after ≡ first ++ rest ++ contact sock))
unfolding contact
rest_lem first [] sock flowing = (flowing, rw (append-nil first) refl)
rest_lem first (b ∷ rest) sock flowing =
    ((omega arith, flowing), sym (append_assoc first (b ∷ rest) (contact sock)))

recv_lem :
    (most : ℕ) (b : ℕ) (chunk : Bytes) (sock : List Bytes)
    → 0 < most
    → Flowing sock
    → (let (piece, rest) = recv most ((b ∷ chunk) ∷ sock) in
        (is_empty piece ≡ false)
        × (0 < length piece)
        × Flowing rest
        × (piece ++ contact rest ≡ contact ((b ∷ chunk) ∷ sock)))
unfolding recv contact
recv_lem (suc most) b chunk sock asked flowing =
    let (on, same) = rest_lem (b ∷ take most chunk) (drop most chunk) sock flowing in
    (
      refl,
      omega arith,
      on,
      same ∙ ap (λ (bs : Bytes). b ∷ bs ++ contact sock) (take-append-drop most chunk),
    )
recv_lem zero b chunk sock asked flowing = absurd (omega arith)

abbrev pub Same : Conn → Conn → Type 0
Same conn after = Flowing after.sock × (content after ≡ content conn)

-- The loop ends with enough bytes, or the stream is too short.
abbrev pub Filled : ℕ → Conn → Read (Unit {0}) → Type 0
Filled need conn result =
    ((after : Conn) × (result ≡ got tt after) × (need ≤ length after.buf) × Same conn after)
    ⊎ ((after : Conn) × (result ≡ failed eof after) × (length (content conn) < need))

Filled-same :
    (need : ℕ) (before conn : Conn) {result : Read (Unit {0})}
    → content before ≡ content conn
    → Filled need before result
    → Filled need conn result
Filled-same need before conn e (inl (after, ends, long, (on, same))) =
    inl (after, ends, long, (on, same ∙ e))
Filled-same need before conn e (inr (after, ends, short)) = inr (after, ends, rw (← e) short)

pub fill_lem :
    (ask : ℕ → ℕ) (need fuel : ℕ) (buf : Bytes) (sock : List Bytes)
    → ((have : ℕ) → have < need → 0 < ask have)
    → need ≤ length buf + fuel
    → Flowing sock
    → Filled need
        (record { buf = buf; sock = sock })
        (fill ask need fuel (record { buf = buf; sock = sock }))
unfolding fill recv contact
fill_lem ask need zero buf sock asks enough flowing =
    inl (record { buf = buf; sock = sock }, ground arith, omega arith, (flowing, refl))
fill_lem ask need (suc fuel) buf [] asks enough flowing =
    elim (Bool-cases (ltb (length buf) need)) [
      | inr enough_read ↦
          inl (record { buf = buf; sock = [] }, rw enough_read refl, ground arith, (tt, refl))
      | inl short ↦
          inr
            (record { buf = buf; sock = [] }, rw short refl, rw (append-nil buf) (ltb→lt _ _ short))
    ]
fill_lem ask need (suc fuel) buf ([] ∷ sock) asks enough flowing = absurd (omega (arith, flowing.0))
fill_lem ask need (suc fuel) buf ((b ∷ chunk) ∷ sock) asks enough flowing =
    elim (Bool-cases (ltb (length buf) need)) [
      | inr enough_read ↦ inl (
        record { buf = buf; sock = (b ∷ chunk) ∷ sock },
        rw enough_read refl,
        ground arith,
        (flowing, refl),
      )
      | inl short ↦
          let (full, more, on, same) =
            recv_lem (ask (length buf)) b chunk sock (asks (length buf) (ltb→lt _ _ short))
              flowing.1 in
          let piece : Bytes = (recv (ask (length buf)) ((b ∷ chunk) ∷ sock)).0 in
          let rest : List Bytes = (recv (ask (length buf)) ((b ∷ chunk) ∷ sock)).1 in
          let enough_left : need ≤ length (buf ++ piece) + fuel =
            omega (arith, length-append buf piece) in
          rw (short, full)
            (Filled-same need (record { buf = buf ++ piece; sock = rest })
              (record { buf = buf; sock = (b ∷ chunk) ∷ sock })
              (append_assoc buf piece (contact rest) ∙ ap (λ (bs : Bytes). buf ++ bs) same)
              (fill_lem ask need fuel (buf ++ piece) rest asks enough_left on))
    ]

pub take_front :
    (n : ℕ) (front back : Bytes) → n ≤ length front → take n (front ++ back) ≡ take n front
take_front zero front back h = refl
take_front (suc n) [] back h = absurd (omega arith)
take_front (suc n) (b ∷ front) back h = rw (take_front n front back (omega arith)) refl

pub drop_front :
    (n : ℕ) (front back : Bytes) → n ≤ length front → drop n (front ++ back) ≡ drop n front ++ back
drop_front zero front back h = refl
drop_front (suc n) [] back h = absurd (omega arith)
drop_front (suc n) (b ∷ front) back h = drop_front n front back (omega arith)

-- A read of `n` bytes takes the first `n` of the stream, or the stream is too short.
abbrev pub Taken : ℕ → Conn → Read Bytes → Type 0
Taken n conn result =
    ((after : Conn) × (result ≡ got (take n (content conn)) after)
      × (n ≤ length (content conn))
      × Flowing after.sock
      × (content after ≡ drop n (content conn)))
    ⊎ ((after : Conn) × (result ≡ failed eof after) × (length (content conn) < n))

pub read_exact_lem : (n : ℕ) (conn : Conn) → Flowing conn.sock → Taken n conn (read_exact n conn)
unfolding read_exact
read_exact_lem n conn flowing =
    elim (fill_lem (ask_exact n) n n conn.buf conn.sock (λ have h. omega arith) (omega arith)
      flowing) [
        | inl (after, ends, long, (on, same)) ↦ inl (
          dropped n after,
          rw (ends, ← same, take_front n after.buf (contact after.sock) long) refl,
          rw (← same) (omega (arith, length-append after.buf (contact after.sock))),
          on,
          rw (← same) (sym (drop_front n after.buf (contact after.sock) long)),
        )
        | inr (after, ends, short) ↦ inr (after, rw ends refl, short)
      ]
