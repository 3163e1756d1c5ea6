-- ===== src/Transport.antt =====
-- src/pypopur/transport.py: the primary transport, and the fallback that serves while it is dead.
pub mod Reads
pub mod Backoff
use pypopur.Prelude.{[], some, ◌+◌, ◌∷◌, List, Option, none, ◌++◌, ℕ, if◌then◌else◌, ltb}
use pypopur.Prelude.Dict.{get, Dict, update}
use pypopur.Prelude.Eq.{nat_Eq}
use pypopur.Py.{raise, Result, ok, Value}

abbrev pub DpMap : Type 0
DpMap = Dict ℕ Value

-- `None`, returned.
pub data Done : Type 0 where
  done : Done

-- `PopurTransport`: what each operation gives in a state of the channel, and the state after it.
pub record Transport (E : Type 0) : Type 1 where
  pub State : Type 0
  pub connect : State → Result E Done × State
  pub close : State → Result E Done × State
  pub read_dps : Option (List ℕ) → State → Result E DpMap × State
  pub write_dps : DpMap → State → Result E Done × State

pub data Channel : Type 0 where
  primary_channel : Channel
  fallback_channel : Channel

-- `{i for i in ids if i not in result}`, for a collection `ids` in which no number stands twice.
unfoldable pub missing_ids : List ℕ → DpMap → List ℕ
missing_ids [] result = []
missing_ids (i ∷ ids) result =
    let rest = missing_ids ids result in elim (get i result) [ none ↦ i ∷ rest | some v ↦ rest ]

module _ {E : Type 0} (P F : Transport E) (backoff : ℕ) where
  -- `told` are the errors that `on_fallback`, if there is one, was called with.
  pub record FallbackTransport : Type 0 where
    pub primary : P.State
    pub fallback : F.State
    pub primary_retry_at : ℕ
    pub active : Option Channel
    pub last_error : Option E
    pub told : List E

  -- `now` is the clock's reading after the failure.
  unfoldable pub mark_primary_dead : E → ℕ → FallbackTransport → FallbackTransport
  mark_primary_dead err now t = record t {
    last_error = some err;
    primary_retry_at = now + backoff;
    told = t.told ++ err ∷ [];
    primary = (P.close t.primary).1;
  }

  module _ {A : Type 0} (operation : F.State → Result E A × F.State) where
    -- The fallback serves, and is noted as active if it succeeds.
    serve : FallbackTransport → Result E A × FallbackTransport
    serve t =
        let (result, state) = operation t.fallback in
        let after = record t { fallback = state } in
        (
          result,
          elim result [ ok a ↦ record after { active = some fallback_channel } | raise e ↦ after ],
        )

    -- Inside the window: the fallback is noted as active before it is called.
    serve_in_window : FallbackTransport → Result E A × FallbackTransport
    serve_in_window t =
        let (result, state) = operation t.fallback in
        (result, record t { fallback = state; active = some fallback_channel })

  -- `now` is the clock at the start of an operation, `later` the clock after a failure.
  unfoldable pub connect : ℕ → FallbackTransport → Result E Done × FallbackTransport
  unfolding serve mark_primary_dead
  connect later t =
      let (result, state) = P.connect t.primary in
      let tried = record t { primary = state } in
      elim result [
        | ok a ↦ (ok done, record tried { active = some primary_channel })
        | raise err ↦ serve F.connect (mark_primary_dead err later tried)
      ]

  -- Both are closed, and their errors dropped.
  unfoldable pub close : FallbackTransport → FallbackTransport
  close t = record t {
    primary = (P.close t.primary).1;
    fallback = (F.close t.fallback).1;
    active = none;
  }

  -- What the primary left out is asked of the fallback, whose errors are dropped.
  fill_gaps : List ℕ → DpMap → FallbackTransport → DpMap × FallbackTransport
  fill_gaps [] result t = (result, t)
  fill_gaps (i ∷ missing) result t =
      let (extra, state) = F.read_dps (some (i ∷ missing)) t.fallback in
      (elim extra [ ok dps ↦ update result dps | raise e ↦ result ], record t { fallback = state })

  abbrev asked : Option (List ℕ) → List ℕ
  asked none = []
  asked (some ids) = ids

  unfoldable pub read_dps :
      ℕ → ℕ → Option (List ℕ) → FallbackTransport → Result E DpMap × FallbackTransport
  unfolding serve serve_in_window mark_primary_dead fill_gaps missing_ids
  read_dps now later ids t =
      let (reply, state) = P.read_dps ids t.primary in
      let tried = record t { primary = state } in
      if ltb now t.primary_retry_at then serve_in_window (F.read_dps ids) t else elim reply [
        | ok result ↦
            let (filled, after) =
              fill_gaps (missing_ids (asked ids) result) result
                (record tried { active = some primary_channel }) in
            (ok filled, after)
        | raise err ↦ serve (F.read_dps ids) (mark_primary_dead err later tried)
      ]

  unfoldable pub write_dps : ℕ → ℕ → DpMap → FallbackTransport → Result E Done × FallbackTransport
  unfolding serve serve_in_window mark_primary_dead
  write_dps now later values t =
      let (reply, state) = P.write_dps values t.primary in
      let tried = record t { primary = state } in
      if ltb now t.primary_retry_at then serve_in_window (F.write_dps values) t else elim reply [
        | ok a ↦ (ok done, record tried { active = some primary_channel })
        | raise err ↦ serve (F.write_dps values) (mark_primary_dead err later tried)
      ]

  unfoldable pub reset_backoff : FallbackTransport → FallbackTransport
  reset_backoff t = record t { primary_retry_at = 0 }
