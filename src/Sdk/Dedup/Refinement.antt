-- ===== src/Sdk/Dedup/Refinement.antt =====
-- A message cache against a memory that never forgets: the same answers, whatever is evicted.
use pypopur.Prelude.{
  inr, ℕ, none, List, ◌≤◌, refl, false, some, Bool, ◌∷◌, ap, [], arith, true, Option, ◌∙◌, inl, ◌≡◌,
  Bool-cases, if◌then◌else◌,
}
use pypopur.Prelude.Dict.{put, get, get-pop, IsDict-pop, get-put, IsDict, pop, IsDict-put}
use pypopur.Prelude.Eq.{text_eq, text_Eq}
use pypopur.Py.{Chars}
use pypopur.Sdk.Dedup.{fresh, lookup, Store}
use pypopur.Sdk.Dedup.Stores.{swept, swept-IsBefore, swept-IsDict, swept_lem, IsBefore}

-- The last accepted time of each key.
abbrev pub Seen : Type 0
Seen = Chars → Option ℕ

-- A repeat inside the window is swallowed and forgotten; any other message is accepted.
abbrev pub remember : Seen → Chars → ℕ → Bool × Seen
remember seen key now =
    if fresh (seen key) now
    then (true, λ k. if text_eq key k then none else seen k)
    else (false, λ k. if text_eq key k then some now else seen k)

unfoldable pub cache_answers : ℕ → Store → List (Chars × ℕ) → List Bool
cache_answers threshold store [] = []
cache_answers threshold store ((key, now) ∷ trace) =
    let (hit, after) = lookup store key threshold now in hit ∷ cache_answers threshold after trace

unfoldable pub memory_answers : Seen → List (Chars × ℕ) → List Bool
memory_answers seen [] = []
memory_answers seen ((key, now) ∷ trace) =
    let (hit, after) = remember seen key now in hit ∷ memory_answers after trace

-- The clock does not run backwards.
abbrev pub IsOrdered : ℕ → List (Chars × ℕ) → Type 0
IsOrdered start [] = Unit
IsOrdered start ((key, now) ∷ trace) = (start ≤ now) × IsOrdered now trace

pub record Agrees (now : ℕ) (store : Store) (seen : Seen) : Type 0 where
  pub dict : IsDict store
  pub before : (k : Chars) → IsBefore now (get k store)
  pub same :
      (k : Chars) (later : ℕ) → now ≤ later → fresh (get k store) later ≡ fresh (seen k) later

IsBefore-later : (now later : ℕ) (o : Option ℕ) → now ≤ later → IsBefore now o → IsBefore later o
IsBefore-later now later none h b = tt
IsBefore-later now later (some ts) h b = omega arith

later-Agrees :
    (now later : ℕ) (store : Store) (seen : Seen)
    → now ≤ later
    → Agrees now store seen
    → Agrees later store seen
later-Agrees now later store seen h a = record {
  dict = a.dict;
  before = λ k. IsBefore-later now later (get k store) h (a.before k);
  same = λ k t ht. a.same k t (omega arith);
}

module _ (now : ℕ) (store : Store) (seen : Seen) (a : Agrees now store seen) (key : Chars) where
  forgotten : Agrees now (pop key store) (λ k. if text_eq key k then none else seen k)
  forgotten = record {
    dict = IsDict-pop key store a.dict;
    before = λ k.
        rw (get-pop key k store)
          (elim (Bool-cases (text_eq key k)) [ inl e ↦ rw e tt | inr e ↦ rw e (a.before k) ]);
    same = λ k later h.
        rw (get-pop key k store) (elim (Bool-cases (text_eq key k)) [
          | inl e ↦ rw e refl
          | inr e ↦ rw e (a.same k later h)
        ]);
  }

  stored :
      (threshold : ℕ)
      → Agrees now
          (put key now (swept threshold now store))
          (λ k. if text_eq key k then some now else seen k)
  stored threshold =
      let old = swept threshold now store in
      record {
        dict = IsDict-put key now old (swept-IsDict threshold now store a.dict a.before);
        before = λ k. rw (get-put key k now old) (elim (Bool-cases (text_eq key k)) [
          | inl e ↦ rw e (omega arith)
          | inr e ↦ rw e (swept-IsBefore threshold now store a.dict a.before k)
        ]);
        same = λ k later h. rw (get-put key k now old) (elim (Bool-cases (text_eq key k)) [
          | inl e ↦ rw e refl
          | inr e ↦
              rw e (swept_lem threshold now store a.dict a.before k later h ∙ a.same k later h)
        ]);
      }

answers_agree :
    (threshold start : ℕ) (store : Store) (seen : Seen) (trace : List (Chars × ℕ))
    → Agrees start store seen
    → IsOrdered start trace
    → cache_answers threshold store trace ≡ memory_answers seen trace
unfolding cache_answers memory_answers lookup
answers_agree threshold start store seen [] a h = refl
answers_agree threshold start store seen ((key, now) ∷ trace) a (h, ordered) =
    let b = later-Agrees start now store seen h a in
    let same = b.same key now (omega arith) in
    elim (Bool-cases (fresh (seen key) now)) [
      | inl e ↦
          rw (same, e)
            (ap (λ (t : List Bool). true ∷ t)
              (answers_agree threshold now _ _ trace (forgotten now store seen b key) ordered))
      | inr e ↦
          rw (same, e)
            (ap (λ (t : List Bool). false ∷ t)
              (answers_agree threshold now _ _ trace (stored now store seen b key threshold)
                ordered))
    ]

-- On a clock that does not run backwards, the answers to any sequence of messages are those of a
-- memory that evicts nothing: whatever the threshold, a message is swallowed exactly if it was
-- accepted less than 5000 ms before and has not been swallowed since.
pub lookup_refines :
    (threshold start : ℕ) (trace : List (Chars × ℕ))
    → IsOrdered start trace
    → cache_answers threshold [] trace ≡ memory_answers (λ k. none) trace
unfolding get
lookup_refines threshold start trace h =
    answers_agree threshold start [] (λ k. none) trace
      (record { dict = tt; before = λ k. tt; same = λ k later q. refl }) h
