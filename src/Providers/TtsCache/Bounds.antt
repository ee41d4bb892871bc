-- ===== src/Providers/TtsCache/Bounds.antt =====
-- The bounds of the cache, and the sum that it keeps.
use isales_engine.Providers.TtsCache.{
  Bytes, Key, Entries, size, Store, over, evict, key_eq, key_beq_iff, put, forget, new, get, touch,
}
use isales_engine.Prelude.{
  ltb, if◌then◌else◌, Bool-cases, length, length-append, ◌==◌, nat_eq, text_eq, ==_refl, ==-cases,
  lookup-remove, DistinctKeys, remove-DistinctKeys, append-DistinctKeys, remove_absent, lookup,
  remove, ℕ, ◌+◌, ◌-◌, ◌≤◌, ◌≡◌, refl, sym, ◌∙◌, inl, inr, Option, none, some, List, [], ◌∷◌, ◌++◌,
  arith,
}

abbrev pub total_size : Entries → ℕ
total_size [] = 0
total_size ((k, chunks) ∷ rest) = size chunks + total_size rest

pub record IsValid (s : Store) : Type 0 where
  pub counted : s.total_bytes ≡ total_size s.entries
  pub few : length s.entries ≤ s.max_entries
  pub small : s.total_bytes ≤ s.max_total_bytes
  pub distinct : DistinctKeys s.entries

pub total_size-append :
    (xs : Entries) (k : Key) (chunks : List Bytes)
    → total_size (xs ++ (k, chunks) ∷ []) ≡ total_size xs + size chunks
total_size-append [] k chunks = omega arith
total_size-append ((j, c) ∷ xs) k chunks = omega (arith, total_size-append xs k chunks)

pub total_size-remove :
    (k : Key) (chunks : List Bytes) (xs : Entries)
    → DistinctKeys xs
    → lookup k xs ≡ some chunks
    → (total_size (remove k xs) + size chunks ≡ total_size xs)
      × (length (remove k xs) + 1 ≡ length xs)
unfolding lookup remove
total_size-remove k chunks [] d h = cc
total_size-remove k chunks ((j, c) ∷ xs) d h = elim (==-cases j k) [
  | inl same ↦ ground (arith, key_beq_iff j k, remove_absent j xs d.0)
  | inr other ↦ ground (arith, total_size-remove k chunks xs d.1)
]

evict-IsValid :
    (s : Store) (es : Entries) (total : ℕ)
    → total ≡ total_size es
    → DistinctKeys es
    → IsValid (evict s es total)
unfolding evict
evict-IsValid s [] total t d = ground arith
evict-IsValid s ((k, c) ∷ es) total t d = elim (Bool-cases (over s ((k, c) ∷ es) total)) [
  | inl more ↦ rw (more, evict) (evict-IsValid s es (total - size c) (omega arith) d.1)
  | inr fits ↦ rw (fits, evict) (ground arith)
]

-- What is left once the key's old entry is gone.
pub record Forgotten (key : Key) (s s' : Store) : Type 0 where
  pub entries : s'.entries ≡ remove key s.entries
  pub absent : lookup key s'.entries ≡ none
  pub max_entries : s'.max_entries ≡ s.max_entries
  pub max_total_bytes : s'.max_total_bytes ≡ s.max_total_bytes
  pub valid : IsValid s'

pub forget_lem :
    (key : Key) (s : Store) → IsValid s → Forgotten key s (forget key (lookup key s.entries) s)
unfolding forget
forget_lem key s v = by_entry (lookup key s.entries) refl
  where
    if_same : (if key == key then none else lookup key s.entries) ≡ none
    if_same = rw (==_refl key)

    by_entry :
        (found : Option (List Bytes))
        → lookup key s.entries ≡ found
        → Forgotten key s (forget key found s)
    by_entry none e = record {
      entries = sym (remove_absent key s.entries e);
      absent = e;
      max_entries = refl;
      max_total_bytes = refl;
      valid = v;
    }
    by_entry (some old) e = record {
      entries = refl;
      absent = lookup-remove key key s.entries ∙ if_same;
      max_entries = refl;
      max_total_bytes = refl;
      valid = ground (
        arith,
        v,
        total_size-remove key old s.entries v.distinct e,
        remove-DistinctKeys key s.entries v.distinct,
      );
    }

-- A valid store stays valid through `put`: both bounds hold, each key has one entry, and the count
-- of bytes is the sum of the entries.
pub put-IsValid :
    (key : Key) (chunks : List Bytes) (s : Store) → IsValid s → IsValid (put key chunks s)
unfolding put
put-IsValid key chunks s v =
    let f = forget_lem key s v in
    let s' = forget key (lookup key s.entries) s in
    elim (Bool-cases (ltb s.max_total_bytes (size chunks))) [
      | inl big ↦ rw (big, put) f.valid
      | inr fits ↦
          rw (fits, put)
            (evict-IsValid s' (s'.entries ++ (key, chunks) ∷ []) (s'.total_bytes + size chunks)
              (omega (arith, total_size-append s'.entries key chunks, f.valid.counted))
              (append-DistinctKeys key chunks s'.entries f.valid.distinct f.absent))
    ]

-- A valid store stays valid through `get`, which moves an entry: both bounds hold, each key has
-- one entry, and the count of bytes is the sum of the entries.
pub get-IsValid : (key : Key) (s : Store) → IsValid s → IsValid (get key s).1
unfolding get
get-IsValid key s v = by_entry (lookup key s.entries) refl
  where
    by_entry :
        (found : Option (List Bytes)) → lookup key s.entries ≡ found → IsValid (touch key found s)
    by_entry none e = v
    by_entry (some chunks) e = ground (
      arith,
      v,
      total_size-remove key chunks s.entries v.distinct e,
      total_size-append (remove key s.entries) key chunks,
      length-append (remove key s.entries) ((key, chunks) ∷ []),
      append-DistinctKeys key chunks (remove key s.entries)
          (remove-DistinctKeys key s.entries v.distinct)
          (lookup-remove key key s.entries ∙ rw (==_refl key)),
    )

pub new-IsValid : (max_entries max_total_bytes : ℕ) → IsValid (new max_entries max_total_bytes)
unfolding new
new-IsValid max_entries max_total_bytes = ground arith
