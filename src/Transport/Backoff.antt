-- ===== src/Transport/Backoff.antt =====
-- A dead primary is left alone for the backoff, however many operations there are.
use pypopur.Prelude.{
  ◌<◌, false, ◌∙◌, List, inl, ◌∷◌, ◌≡◌, [], refl, ◌++◌, some, inr, ℕ, Option, ◌+◌, All, lt→ltb, ltb,
}
use pypopur.Prelude.Eq.{nat_Eq}
use pypopur.Py.{raise, Result-cases}
use pypopur.Transport.{FallbackTransport, Transport, read_dps, DpMap, write_dps}

-- An operation, with the clock's readings that it makes.
pub data Operation : Type 0 where
  reading : ℕ → ℕ → Option (List ℕ) → Operation
  writing : ℕ → ℕ → DpMap → Operation

abbrev pub starts_at : Operation → ℕ
starts_at (reading now later ids) = now
starts_at (writing now later values) = now

module _ {E : Type 0} (P F : Transport E) (backoff : ℕ) where
  unfoldable pub run :
      List Operation → FallbackTransport P F backoff → FallbackTransport P F backoff
  run [] t = t
  run (reading now later ids ∷ operations) t =
      run operations (read_dps P F backoff now later ids t).1
  run (writing now later values ∷ operations) t =
      run operations (write_dps P F backoff now later values t).1

  -- Neither the primary nor what is known of it changes between two states.
  abbrev pub SamePrimary : FallbackTransport P F backoff → FallbackTransport P F backoff → Type 0
  SamePrimary t u =
      (u.primary ≡ t.primary)
      × (u.primary_retry_at ≡ t.primary_retry_at)
      × (u.last_error ≡ t.last_error)
      × (u.told ≡ t.told)

  read_in_window :
      (now later : ℕ) (ids : Option (List ℕ)) (t : FallbackTransport P F backoff)
      → now < t.primary_retry_at
      → SamePrimary t (read_dps P F backoff now later ids t).1
  unfolding read_dps
  read_in_window now later ids t h = rw (lt→ltb now t.primary_retry_at h) (refl, refl, refl, refl)

  write_in_window :
      (now later : ℕ) (values : DpMap) (t : FallbackTransport P F backoff)
      → now < t.primary_retry_at
      → SamePrimary t (write_dps P F backoff now later values t).1
  unfolding write_dps
  write_in_window now later values t h =
      rw (lt→ltb now t.primary_retry_at h) (refl, refl, refl, refl)

  SamePrimary-trans :
      (t u w : FallbackTransport P F backoff) → SamePrimary t u → SamePrimary u w → SamePrimary t w
  SamePrimary-trans t u w (a, b, c, d) (a', b', c', d') = (a' ∙ a, b' ∙ b, c' ∙ c, d' ∙ d)

  -- However many reads and writes start before `primary_retry_at`, the primary is not touched, no
  -- error is recorded and the window is not moved.
  pub run_in_window :
      (operations : List Operation) (t : FallbackTransport P F backoff)
      → All (λ o. starts_at o < t.primary_retry_at) operations
      → SamePrimary t (run operations t)
  unfolding run
  run_in_window [] t h = (refl, refl, refl, refl)
  run_in_window (reading now later ids ∷ operations) t (first, h) =
      let u = (read_dps P F backoff now later ids t).1 in
      let same = read_in_window now later ids t first in
      SamePrimary-trans t u (run operations u) same (run_in_window operations u (rw same.1 h))
  run_in_window (writing now later values ∷ operations) t (first, h) =
      let u = (write_dps P F backoff now later values t).1 in
      let same = write_in_window now later values t first in
      SamePrimary-trans t u (run operations u) same (run_in_window operations u (rw same.1 h))

  after_refusal :
      (t : FallbackTransport P F backoff) (now later : ℕ) (values : DpMap) (err : E)
      → ltb now t.primary_retry_at ≡ false
      → (P.write_dps values t.primary).0 ≡ raise err
      → let u = (write_dps P F backoff now later values t).1 in
        (u.primary ≡ (P.close (P.write_dps values t.primary).1).1)
        × (u.primary_retry_at ≡ later + backoff)
        × (u.last_error ≡ some err)
        × (u.told ≡ t.told ++ err ∷ [])
  unfolding write_dps
  after_refusal t now later values err alive refused =
      elim (Result-cases (F.write_dps values t.fallback).0) [
        | inl (d, r) ↦ rw (alive, refused) (rw r (refl, refl, refl, refl))
        | inr (x, r) ↦ rw (alive, refused) (rw r (refl, refl, refl, refl))
      ]

  -- A write that the primary refuses closes the primary, tells the error once, and opens a window
  -- of `backoff` in which no read or write touches the primary again.
  pub write_dps-refused :
      (t : FallbackTransport P F backoff) (now later : ℕ) (values : DpMap) (err : E)
      (operations : List Operation)
      → ltb now t.primary_retry_at ≡ false
      → (P.write_dps values t.primary).0 ≡ raise err
      → All (λ o. starts_at o < later + backoff) operations
      → let u = run operations (write_dps P F backoff now later values t).1 in
        (u.primary ≡ (P.close (P.write_dps values t.primary).1).1)
        × (u.primary_retry_at ≡ later + backoff)
        × (u.last_error ≡ some err)
        × (u.told ≡ t.told ++ err ∷ [])
  write_dps-refused t now later values err operations alive refused h =
      let u = (write_dps P F backoff now later values t).1 in
      let (a, b, c, d) = after_refusal t now later values err alive refused in
      let (a', b', c', d') = run_in_window operations u (rw b h) in (a' ∙ a, b' ∙ b, c' ∙ c, d' ∙ d)
