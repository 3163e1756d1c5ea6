-- ===== src/Transport/Reads.antt =====
-- What a read returns, and which channel a write reached.
use pypopur.Prelude.{
  refl, List, ◌≡◌, false, inl, ℕ, Option, ap, ◌∙◌, some, ◌∷◌, none, inr, [], All, Bool-cases,
  Option-cases, ltb,
}
use pypopur.Prelude.Dict.{get, get-update, or_other, IsDict, update}
use pypopur.Prelude.Eq.{nat_Eq}
use pypopur.Py.{Result, ok, Result-cases, Value, raise}
use pypopur.Transport.{
  FallbackTransport, read_dps, Transport, fallback_channel, Done, primary_channel, DpMap, write_dps,
  Channel, missing_ids, done, fill_gaps,
}

abbrev pub Present : {A : Type 0} → Option A → Type 0
Present none = ⊥
Present (some a) = Unit

module _ {A : Type 0} where
  Present-or_left : (o o' : Option A) → Present o → Present (or_other o o')
  Present-or_left none o' h = absurd h
  Present-or_left (some a) o' h = tt

  Present-or_right : (o o' : Option A) → Present o' → Present (or_other o o')
  Present-or_right none o' h = h
  Present-or_right (some a) o' h = tt

  All-map_to : (P Q : A → Type 0) (xs : List A) → ((x : A) → P x → Q x) → All P xs → All Q xs
  All-map_to P Q [] f h = tt
  All-map_to P Q (x ∷ xs) f (h, hs) = (f x h, All-map_to P Q xs f hs)

module _ (i : ℕ) (ids : List ℕ) (result : DpMap) where
  missing_ids-none : get i result ≡ none → missing_ids (i ∷ ids) result ≡ i ∷ missing_ids ids result
  unfolding missing_ids
  missing_ids-none e = rw (missing_ids, e) refl

  missing_ids-some :
      (v : Value) → get i result ≡ some v → missing_ids (i ∷ ids) result ≡ missing_ids ids result
  unfolding missing_ids
  missing_ids-some v e = rw (missing_ids, e) refl

-- What is not missing is there, and what is missing is in the other map.
gaps_lem :
    (ids : List ℕ) (result extra : DpMap)
    → All (λ i. Present (get i extra)) (missing_ids ids result)
    → All (λ i. Present (or_other (get i extra) (get i result))) ids
gaps_lem [] result extra h = tt
gaps_lem (i ∷ ids) result extra h = elim (Option-cases (get i result)) [
  | inl e ↦
      let (there, rest) = rw (missing_ids-none i ids result e) at h in
      (Present-or_left (get i extra) (get i result) there, gaps_lem ids result extra rest)
  | inr (v, e) ↦ (
    Present-or_right (get i extra) (get i result) (rw e tt),
    gaps_lem ids result extra (rw (missing_ids-some i ids result v e) at h),
  )
]

module _ {E : Type 0} (P F : Transport E) (backoff : ℕ) where
  fill_gaps_lem :
      (gaps ids : List ℕ) (result extra : DpMap) (t : FallbackTransport P F backoff)
      → missing_ids ids result ≡ gaps
      → (F.read_dps (some gaps) t.fallback).0 ≡ ok extra
      → IsDict extra
      → All (λ i. Present (get i extra)) gaps
      → let m = (fill_gaps P F backoff gaps result t).0 in
        All (λ i. Present (get i m)) ids × ((k : ℕ) → get k extra ≡ none → get k m ≡ get k result)
  unfolding fill_gaps get
  fill_gaps_lem [] ids result extra t e h d there = (gaps_lem ids result [] (rw e tt), λ k hk. refl)
  fill_gaps_lem (g ∷ gaps) ids result extra t e h d there = rw h (
    All-map_to (λ i. Present (or_other (get i extra) (get i result)))
        (λ i. Present (get i (update result extra))) ids (λ i p. rw (get-update i result extra d) p)
        (gaps_lem ids result extra (rw e there)),
    λ k hk. get-update k result extra d ∙ rw hk refl,
  )

  -- If the primary replies and the fallback has what the reply left out, then a read outside the
  -- window returns every datapoint that was asked for, and of a datapoint that the fallback did
  -- not send what the primary replied.
  pub read_dps-Present :
      (t : FallbackTransport P F backoff) (now later k : ℕ) (ids : List ℕ) (result extra : DpMap)
      → ltb now t.primary_retry_at ≡ false
      → (P.read_dps (some ids) t.primary).0 ≡ ok result
      → (F.read_dps (some (missing_ids ids result)) t.fallback).0 ≡ ok extra
      → IsDict extra
      → All (λ i. Present (get i extra)) (missing_ids ids result)
      → get k extra ≡ none
      → (m : DpMap) × ((read_dps P F backoff now later (some ids) t).0 ≡ ok m)
        × All (λ i. Present (get i m)) ids
        × (get k m ≡ get k result)
  unfolding read_dps
  read_dps-Present t now later k ids result extra alive reply more d there unsent =
      let tried : FallbackTransport P F backoff = record t {
        primary = (P.read_dps (some ids) t.primary).1;
        active = some primary_channel;
      } in
      let (all, kept) =
        fill_gaps_lem (missing_ids ids result) ids result extra tried refl more d there in
      (
        (fill_gaps P F backoff (missing_ids ids result) result tried).0,
        rw (alive, reply) refl,
        all,
        kept k unsent,
      )

  -- Whether a write that gave `reply` was taken by the channel that is noted after it.
  abbrev pub Took : DpMap → FallbackTransport P F backoff → Result E Done → Option Channel → Type 0
  Took values t (raise e) active = (F.write_dps values t.fallback).0 ≡ raise e
  Took values t (ok d) none = ⊥
  Took values t (ok d) (some primary_channel) = (P.write_dps values t.primary).0 ≡ ok d
  Took values t (ok d) (some fallback_channel) = (F.write_dps values t.fallback).0 ≡ ok d

  same_done : (d d' : Done) → d ≡ d'
  same_done done done = refl

  -- A write that returns was taken by the channel that `active` names after it, and a write that
  -- raises gives the error with which the fallback refused the same values.
  pub write_dps-Took :
      (t : FallbackTransport P F backoff) (now later : ℕ) (values : DpMap)
      → let (reply, after) = write_dps P F backoff now later values t in
        Took values t reply after.active
  unfolding write_dps
  write_dps-Took t now later values = elim (Bool-cases (ltb now t.primary_retry_at)) [
    | inl e ↦ elim (Result-cases (F.write_dps values t.fallback).0) [
      | inl (d, r) ↦ rw (e, r) r
      | inr (x, r) ↦ rw (e, r) r
    ]
    | inr e ↦ elim (Result-cases (P.write_dps values t.primary).0) [
      | inl (d, r) ↦ rw (e, r) (r ∙ ap ok (same_done d done))
      | inr (y, q) ↦ elim (Result-cases (F.write_dps values t.fallback).0) [
        | inl (d, r) ↦ rw (e, q) (rw r r)
        | inr (x, r) ↦ rw (e, q) (rw r r)
      ]
    ]
  ]
