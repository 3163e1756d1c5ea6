-- ===== src/Sdk/Dedup/Stores.antt =====
-- The store of a message cache: its laws, and that eviction is not seen from outside.
use mathlib.Core.Path.{subst}
use pypopur.Prelude.{
  refl, inr, arith, inl, some, ◌≡◌, ◌∷◌, ℕ, [], ◌≤◌, none, Option, length, Bool-cases, ltb,
  if◌then◌else◌,
}
use pypopur.Prelude.Dict.{IsDict, get}
use pypopur.Prelude.Eq.{text_eq, text_eq_iff, text_Eq}
use pypopur.Py.{Chars}
use pypopur.Sdk.Dedup.{evict_stale, fresh, in_window, Store}

abbrev keep_fresh : ℕ → Option ℕ → Option ℕ
keep_fresh now none = none
keep_fresh now (some ts) = if in_window now ts then some ts else none

get-evict_stale :
    (now : ℕ) (k : Chars) (d : Store)
    → IsDict d
    → get k (evict_stale now d) ≡ keep_fresh now (get k d)
unfolding get evict_stale
get-evict_stale now k [] h = refl
get-evict_stale now k ((j, v) ∷ d) (new, h) =
    let rest = get-evict_stale now k d h in
    elim (Bool-cases (text_eq j k)) [
      | inl same ↦
          let absent : get k d ≡ none =
            subst (λ (x : Chars). get x d ≡ none) ((text_eq_iff j k).0 same) new in
          elim (Bool-cases (in_window now v)) [
            | inl e ↦ rw (same, e) (rw same refl)
            | inr e ↦ rw (same, e, rest, absent) refl
          ]
      | inr other ↦ elim (Bool-cases (in_window now v)) [
        | inl e ↦ rw (other, e) (rw (other, rest) refl)
        | inr e ↦ rw (other, e, rest) refl
      ]
    ]

IsDict-evict_stale : (now : ℕ) (d : Store) → IsDict d → IsDict (evict_stale now d)
unfolding evict_stale
IsDict-evict_stale now [] h = tt
IsDict-evict_stale now ((j, v) ∷ d) (new, h) =
    let rest = IsDict-evict_stale now d h in
    elim (Bool-cases (in_window now v)) [
      | inl e ↦ rw e (rw (get-evict_stale now j d h, new) refl, rest)
      | inr e ↦ rw e rest
    ]

abbrev pub IsBefore : ℕ → Option ℕ → Type 0
IsBefore now none = Unit
IsBefore now (some ts) = ts ≤ now

-- What an eviction deletes is outside the window from then on.
fresh-keep_fresh :
    (now later : ℕ) (o : Option ℕ)
    → IsBefore now o
    → now ≤ later
    → fresh (keep_fresh now o) later ≡ fresh o later
fresh-keep_fresh now later none b h = refl
fresh-keep_fresh now later (some ts) b h = ground arith

keep_fresh-IsBefore : (now : ℕ) (o : Option ℕ) → IsBefore now o → IsBefore now (keep_fresh now o)
keep_fresh-IsBefore now none b = tt
keep_fresh-IsBefore now (some ts) b = elim (Bool-cases (in_window now ts)) [
  | inl e ↦ rw e b
  | inr e ↦ rw e tt
]

-- The store as `_lookup` leaves it before it writes.
abbrev pub swept : ℕ → ℕ → Store → Store
swept threshold now store = if ltb threshold (length store) then evict_stale now store else store

module _ (threshold now : ℕ) (store : Store) (dict : IsDict store)
    (before : (k : Chars) → IsBefore now (get k store)) where
  pub swept-IsDict : IsDict (swept threshold now store)
  swept-IsDict = elim (Bool-cases (ltb threshold (length store))) [
    | inl e ↦ rw e (IsDict-evict_stale now store dict)
    | inr e ↦ rw e dict
  ]

  pub swept-IsBefore : (k : Chars) → IsBefore now (get k (swept threshold now store))
  swept-IsBefore k = elim (Bool-cases (ltb threshold (length store))) [
    | inl e ↦
        rw (e, get-evict_stale now k store dict) (keep_fresh-IsBefore now (get k store) (before k))
    | inr e ↦ rw e (before k)
  ]

  pub swept_lem :
      (k : Chars) (later : ℕ)
      → now ≤ later
      → fresh (get k (swept threshold now store)) later ≡ fresh (get k store) later
  swept_lem k later h = elim (Bool-cases (ltb threshold (length store))) [
    | inl e ↦
        rw (e, get-evict_stale now k store dict)
          (fresh-keep_fresh now later (get k store) (before k) h)
    | inr e ↦ rw e refl
  ]
