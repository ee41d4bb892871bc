-- ===== src/Providers/TtsCache/Replay.antt =====
-- The provider behind the cache.
use isales_engine.Providers.TtsCache.{
  Bytes, Store, size, get, put, Inner, complete, cut, synthesize_stream, missed, fill, key_eq,
}
use isales_engine.Providers.TtsCache.Bounds.{IsValid}
use isales_engine.Providers.TtsCache.Contents.{get-put}
use isales_engine.Prelude.{
  length, nat_eq, text_eq, Text, lookup, ℕ, ◌≤◌, ◌<◌, ◌≡◌, refl, ◌∙◌, ◌⊎◌, none, some, List, arith,
}

module _ (inner : Inner) (limit : ℕ) (said voice : Text) (s : Store) where
  synthesize-miss :
      lookup (said, voice) s.entries ≡ none
      → synthesize_stream inner limit said voice s ≡ missed inner limit said voice s
  unfolding synthesize_stream
  synthesize-miss absent = ground arith

  -- A stream that was cut, and a text over the limit, leave a store that has no entry for the
  -- phrase as it was; the chunks and the end that the inner provider gave are passed on.
  pub synthesize-uncached :
      lookup (said, voice) s.entries ≡ none
      → (limit < length said) ⊎ ((inner.synthesize said voice).1 ≡ cut)
      → ((synthesize_stream inner limit said voice s).store ≡ s)
        × ((synthesize_stream inner limit said voice s).chunks ≡ (inner.synthesize said voice).0)
        × ((synthesize_stream inner limit said voice s).end ≡ (inner.synthesize said voice).1)
  unfolding missed fill
  synthesize-uncached absent why = rw (synthesize-miss absent) (ground arith)

  synthesize-hit :
      (chunks : List Bytes)
      → (get (said, voice) s).0 ≡ some chunks
      → ((synthesize_stream inner limit said voice s).inner_calls ≡ 0)
        × ((synthesize_stream inner limit said voice s).chunks ≡ chunks)
  unfolding synthesize_stream
  synthesize-hit chunks found = ground arith

  missed-fills :
      (inner.synthesize said voice).1 ≡ complete
      → length said ≤ limit
      → missed inner limit said voice s ≡ record {
        chunks = (inner.synthesize said voice).0;
        end = complete;
        store = put (said, voice) (inner.synthesize said voice).0 s;
        inner_calls = 1;
      }
  unfolding missed fill
  missed-fills whole short = ground arith

module _ (inner : Inner) (limit : ℕ) (said voice : Text) (s : Store) where
  -- A phrase within the limit that a valid store with room for an entry does not hold, and whose
  -- stream is complete and fits, is replayed: the first synthesis asks the inner provider, and the
  -- next one gives the same chunks without asking it.
  pub synthesize-replay :
      IsValid s
      → lookup (said, voice) s.entries ≡ none
      → length said ≤ limit
      → (inner.synthesize said voice).1 ≡ complete
      → size (inner.synthesize said voice).0 ≤ s.max_total_bytes
      → 0 < s.max_entries
      → let first = synthesize_stream inner limit said voice s in
        let second = synthesize_stream inner limit said voice first.store in
        (first.inner_calls ≡ 1) × (second.inner_calls ≡ 0) × (second.chunks ≡ first.chunks)
  synthesize-replay v absent short whole fits room =
      let chunks = (inner.synthesize said voice).0 in
      let first =
        synthesize-miss inner limit said voice s absent
        ∙ missed-fills inner limit said voice s whole short in
      let second =
        synthesize-hit inner limit said voice (put (said, voice) chunks s) chunks
          (get-put (said, voice) chunks s v room fits) in
      rw first (refl, second.0, second.1)
