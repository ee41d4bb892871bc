-- ===== src/Providers/TtsCache/Contents.antt =====
-- Which entries the cache holds.
use isales_engine.Providers.TtsCache.{
  Bytes, Key, Entries, size, Store, get, over, evict, forget, put, key_eq,
}
use isales_engine.Providers.TtsCache.Bounds.{IsValid, forget_lem, total_size}
use isales_engine.Prelude.{
  ltb, Bool-cases, nat_eq, text_eq, ==_refl, lookup-remove, lookup-append_one, lookup, remove, ℕ,
  ◌+◌, ◌-◌, ◌≤◌, ◌<◌, ◌≡◌, refl, ap, ◌∙◌, subst, inl, inr, false, none, some, List, [], ◌∷◌, ◌++◌,
  arith,
}

-- The two parts of a list that lost its first entries.
pub record Suffix (kept all : Entries) : Type 0 where
  pub gone : Entries
  pub split : gone ++ kept ≡ all

lookup_of_suffix :
    (k : Key) (gone kept : Entries) → lookup k (gone ++ kept) ≡ none → lookup k kept ≡ none
unfolding lookup
lookup_of_suffix k [] kept h = h
lookup_of_suffix k ((j, c) ∷ gone) kept h = lookup_of_suffix k gone kept (ground arith)

module _ (s : Store) (key : Key) (chunks : List Bytes) (room : 0 < s.max_entries)
    (fits : size chunks ≤ s.max_total_bytes) where
  evict-last :
      (es : Entries) (total : ℕ)
      → total ≡ total_size es + size chunks
      → (kept : Entries) × ((evict s (es ++ (key, chunks) ∷ []) total).entries
          ≡ kept ++ (key, chunks) ∷ [])
        × Suffix kept es
  unfolding evict over
  evict-last [] total t = ([], ground arith, record { gone = []; split = refl })
  evict-last ((k, c) ∷ es) total t =
      elim (Bool-cases (over s ((k, c) ∷ es ++ (key, chunks) ∷ []) total)) [
        | inl more ↦
            let (kept, held, part) = evict-last es (total - size c) (omega arith) in
            (
              kept,
              rw (more, evict) held,
              record { gone = (k, c) ∷ part.gone; split = ap (◌∷◌ (k, c)) part.split },
            )
        | inr enough ↦ ((k, c) ∷ es, rw (enough, evict), record { gone = []; split = refl })
      ]

module _ (key : Key) (chunks : List Bytes) (s : Store) (v : IsValid s) (room : 0 < s.max_entries)
    (fits : size chunks ≤ s.max_total_bytes) where
  -- After a `put` that fits in a valid store with room for an entry, the new entry is the most recently used one, and of the others the
  -- most recently used ones are left, in their order; only entries at the other end were evicted.
  pub put-recent :
      (kept : Entries) × ((put key chunks s).entries ≡ kept ++ (key, chunks) ∷ [])
      × Suffix kept (remove key s.entries)
  unfolding put
  put-recent =
      let f = forget_lem key s v in
      let s' = forget key (lookup key s.entries) s in
      let (kept, held, part) =
        evict-last s' key chunks (omega (arith, f.max_entries)) (omega (arith, f.max_total_bytes))
          s'.entries (s'.total_bytes + size chunks) (omega (arith, f.valid.counted)) in
      let small : ltb s.max_total_bytes (size chunks) ≡ false = ground arith in
      (kept, rw (small, put) held, subst (Suffix kept) f.entries part)

  -- In a valid store with room for an entry, a `get` after a `put` that fits returns the chunks that were put.
  pub get-put : (get key (put key chunks s)).0 ≡ some chunks
  unfolding get
  get-put =
      let (kept, held, part) = put-recent in
      let gone : lookup key kept ≡ none =
        lookup_of_suffix key part.gone kept
          (ap (lookup key) part.split ∙ lookup-remove key key s.entries ∙ rw (==_refl key)) in
      ap (lookup key) held ∙ lookup-append_one key key chunks kept ∙ rw gone (rw (==_refl key))
