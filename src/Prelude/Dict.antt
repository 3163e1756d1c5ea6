-- ===== src/Prelude/Dict.antt =====
-- Python's `dict`: an association list in insertion order, and its laws in `if` form.
use pypopur.Prelude.{
  Option, ◌≡◌, none, [], some, List, arith, inl, ◌∷◌, false, inr, refl, if◌then◌else◌, Bool-cases,
}
use pypopur.Prelude.Eq.{Eq}

abbrev pub Dict {ℓ κ} : Type ℓ → Type κ → Type (ℓ ⊔ κ)
Dict K V = List (K × V)

-- A lookup's answer, or else another's.
abbrev pub or_other {ℓ} : {V : Type ℓ} → Option V → Option V → Option V
or_other none o = o
or_other (some v) o = some v

module _ {ℓ κ} {K : Type ℓ} {V : Type κ} ⦃e : Eq K⦄ where
  -- `d.get(k)`
  unfoldable pub get : K → Dict K V → Option V
  get k [] = none
  get k ((j, v) ∷ d) = if e.beq j k then some v else get k d

  -- `d[k] = v`: a key that is there keeps its place.
  unfoldable pub put : K → V → Dict K V → Dict K V
  put k v [] = (k, v) ∷ []
  put k v ((j, w) ∷ d) = if e.beq j k then (j, v) ∷ d else (j, w) ∷ put k v d

  -- `d.pop(k, None)`, `del d[k]`
  unfoldable pub pop : K → Dict K V → Dict K V
  pop k [] = []
  pop k ((j, v) ∷ d) = let rest = pop k d in if e.beq j k then rest else (j, v) ∷ rest

  pub get-put :
      (k j : K) (v : V) (d : Dict K V) → get j (put k v d) ≡ (if e.beq k j then some v else get j d)
  unfolding get put
  get-put k j v [] = refl
  get-put k j v ((i, w) ∷ d) =
      ground (arith, get-put k j v d, e.beq_iff i k, e.beq_iff i j, e.beq_iff k j)

  pub get-pop : (k j : K) (d : Dict K V) → get j (pop k d) ≡ (if e.beq k j then none else get j d)
  unfolding get pop
  get-pop k j [] = ground arith
  get-pop k j ((i, w) ∷ d) =
      ground (arith, get-pop k j d, e.beq_iff i k, e.beq_iff i j, e.beq_iff k j)

  -- Every key stands once.
  abbrev pub IsDict : Dict K V → Type (ℓ ⊔ κ)
  IsDict [] = Unit
  IsDict ((k, v) ∷ d) = (get k d ≡ none) × IsDict d

  -- Writing what is there changes nothing.
  pub put-get : (k : K) (v : V) (d : Dict K V) → get k d ≡ some v → put k v d ≡ d
  unfolding get put
  put-get k v [] h = cc
  put-get k v ((i, w) ∷ d) h = ground (arith, put-get k v d)

  pub IsDict-put : (k : K) (v : V) (d : Dict K V) → IsDict d → IsDict (put k v d)
  unfolding get put
  IsDict-put k v [] h = (refl, tt)
  IsDict-put k v ((i, w) ∷ d) (new, h) =
      let rest = IsDict-put k v d h in
      elim (Bool-cases (e.beq i k)) [
        | inl same ↦ rw same (new, h)
        | inr other ↦
            let differs : e.beq k i ≡ false = ground (arith, e.beq_iff i k, e.beq_iff k i) in
            rw other (rw (get-put k i v d, differs) new, rest)
      ]

  pub IsDict-pop : (k : K) (d : Dict K V) → IsDict d → IsDict (pop k d)
  unfolding get pop
  IsDict-pop k [] h = tt
  IsDict-pop k ((i, w) ∷ d) (new, h) =
      let rest = IsDict-pop k d h in
      elim (Bool-cases (e.beq i k)) [
        | inl same ↦ rw same rest
        | inr other ↦
            let differs : e.beq k i ≡ false = ground (arith, e.beq_iff i k, e.beq_iff k i) in
            rw other (rw (get-pop k i d, differs) new, rest)
      ]

  -- `d.update(items)`, `{**d, **items}`
  unfoldable pub update : Dict K V → Dict K V → Dict K V
  update d [] = d
  update d ((k, v) ∷ items) = update (put k v d) items

  pub get-update :
      (k : K) (d items : Dict K V)
      → IsDict items
      → get k (update d items) ≡ or_other (get k items) (get k d)
  unfolding update get
  get-update k d [] h = refl
  get-update k d ((j, v) ∷ items) (once, h) =
      ground (arith, get-update k (put j v d) items h, get-put j k v d, e.beq_iff j k)
