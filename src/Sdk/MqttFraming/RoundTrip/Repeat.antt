-- ===== src/Sdk/MqttFraming/RoundTrip/Repeat.antt =====
-- sdk/mqtt_framing.py with sdk/dedup.py: a message that is delivered twice.
use mathlib.Core.Bool.{false≢true}
use pypopur.Prelude.{
  true, inl, Option, sym, Bool, inr, ◌≡◌, ◌∙◌, arith, ℕ, some, refl, false, ◌++◌, drop,
  if◌then◌else◌, Bool-cases,
}
use pypopur.Prelude.Dict.{get, get-put, put}
use pypopur.Prelude.Eq.{text_eq_iff, text_Eq}
use pypopur.Prelude.Int.{eq_ℤ, pos, ℤ}
use pypopur.Py.{ok, raise, Chars, Bytes}
use pypopur.Py.Text.{text_of_int, codes}
use pypopur.Sdk.Crypto.{CryptoLib}
use pypopur.Sdk.Dedup.{
  in_window, not_low_power, lookup, MessageCache, check_so, Store, fresh, is_data_updated_so,
}
use pypopur.Sdk.HexUtil.{bytes_to_int2}
use pypopur.Sdk.LanSocket.{starts_with}
use pypopur.Sdk.MqttFraming.{Obj, parse_inbound_2_2, repeat_command, Parsed, JsonLib, DedupFn}

-- A key that is not found fresh is found fresh for as long as the window lasts.
lookup_twice :
    (store : Store) (key : Chars) (threshold now later : ℕ)
    → in_window later now ≡ true
    → (lookup store key threshold now).0 ≡ false
    → (lookup (lookup store key threshold now).1 key threshold later).0 ≡ true
unfolding lookup
lookup_twice store key threshold now later soon passed =
    elim (Bool-cases (fresh (get key store) now)) [
      | inl hit ↦ absurd (false≢true (sym passed ∙ rw (lookup, hit) refl))
      | inr fresh_no ↦ rw (lookup, fresh_no) (found _)
    ]
  where
    found : (d : Store) → (lookup (put key now d) key threshold later).0 ≡ true
    found d =
        let e : get key (put key now d) ≡ some now =
          get-put key key now d ∙ rw ((text_eq_iff key key).1 refl) refl in
        rw (lookup, e, soon) refl

id_if : (b : Bool) → (if b then true else false) ≡ false → b ≡ false
id_if b h = ground arith

-- The topic without `smart/mb/in/` or `m/dg/`.
abbrev pub dev_id_of : Chars → Chars
dev_id_of topic =
    if starts_with (codes "smart/mb/in/") topic
    then drop 12 topic
    else if starts_with (codes "m/dg/") topic
    then drop 5 topic
    else topic

module _ (provider : Option (Chars → Option ℕ)) where
  -- `is_data_updated` of the session, over the message cache at a reading of the clock.
  abbrev pub cache_dedup : ℕ → DedupFn MessageCache
  cache_dedup now topic s o cache = is_data_updated_so provider cache (dev_id_of topic) s o now

  dedup_twice :
      (now later : ℕ) (topic : Chars) (s o : ℤ) (cache : MessageCache)
      → eq_ℤ o (pos 0) ≡ false
      → not_low_power provider (dev_id_of topic) ≡ true
      → in_window later now ≡ true
      → (cache_dedup now topic s o cache).0 ≡ false
      → (cache_dedup later topic s o (cache_dedup now topic s o cache).1).0 ≡ true
  unfolding is_data_updated_so check_so
  dedup_twice now later topic s o cache nonzero known soon passed =
      let key : Chars = dev_id_of topic ++ text_of_int s ++ text_of_int o in
      let missed = id_if (lookup cache.so_store key 900 now).0 (rw (nonzero, known) at passed) in
      rw (nonzero, known, lookup_twice cache.so_store key 900 now later soon missed) refl

module _ (lib : CryptoLib) (json : JsonLib) (provider : Option (Chars → Option ℕ)) where
  accepted_lem :
      (hit : Bool) (s o : ℤ) (rest : Parsed) (result : ℤ × Obj)
      → (if hit then raise (repeat_command s o) else rest) ≡ ok result
      → hit ≡ false
  accepted_lem true s o rest result h = cc
  accepted_lem false s o rest result h = refl

  -- A 2.2 payload that was accepted is refused inside the window with 12003, whatever the key and
  -- the JSON library are, if its `o` is not 0 and the device of the topic is not
  -- one of low power.
  pub parse_inbound_2_2_twice :
      (local_key : Chars) (payload : Bytes) (topic : Chars) (now later : ℕ) (cache : MessageCache)
      (result : ℤ × Obj)
      → eq_ℤ (bytes_to_int2 payload 11) (pos 0) ≡ false
      → not_low_power provider (dev_id_of topic) ≡ true
      → in_window later now ≡ true
      → (parse_inbound_2_2 lib json
          (some (cache_dedup provider now))
          local_key
          payload
          topic
          cache).0
        ≡ ok result
      → (parse_inbound_2_2 lib json
          (some (cache_dedup provider later))
          local_key
          payload
          topic
          (parse_inbound_2_2 lib json
            (some (cache_dedup provider now))
            local_key
            payload
            topic
            cache).1).0
        ≡ raise (repeat_command (bytes_to_int2 payload 7) (bytes_to_int2 payload 11))
  unfolding parse_inbound_2_2
  parse_inbound_2_2_twice local_key payload topic now later cache result nonzero known soon
        accepted =
      let s : ℤ = bytes_to_int2 payload 7 in
      let o : ℤ = bytes_to_int2 payload 11 in
      let passed =
        accepted_lem (cache_dedup provider now topic s o cache).0 s o _ result accepted in
      rw (dedup_twice provider now later topic s o cache nonzero known soon passed) refl
