-- ===== src/Providers/TtsCache.antt =====
-- isales_engine/providers/tts_cache.py: a bounded LRU cache of synthesized phrases. The
-- `OrderedDict` is the list of its entries, least recently used first; bytes are lists of numbers.
pub mod Bounds
pub mod Contents
pub mod Replay
mod Examples
use isales_engine.Prelude.{
  ltb, if◌then◌else◌, length, Eq, nat_eq, list_beq, list_beq_iff, text_eq, Text, text, Dict, lookup,
  remove, ℕ, ◌+◌, ◌-◌, ◌≡◌, ◌↔◌, Bool, true, false, ◌||◌, Option, none, some, List, [], ◌∷◌, ◌++◌,
  arith,
}

abbrev pub Bytes : Type 0
Bytes = List ℕ

abbrev pub Key : Type 0
Key = Text × Text

abbrev pub key_beq : Key → Key → Bool
key_beq (t, v) (u, w) = if list_beq t u then list_beq v w else false

pub key_beq_iff : (a b : Key) → (key_beq a b ≡ true) ↔ (a ≡ b)
key_beq_iff (t, v) (u, w) = (
  λ h. ground (arith, list_beq_iff t u, list_beq_iff v w),
  λ h. ground (arith, list_beq_iff t u, list_beq_iff v w),
)

instance abbrev pub key_eq : Eq Key
key_eq = record { beq = key_beq; beq_iff = key_beq_iff }

abbrev pub Entries : Type 0
Entries = Dict Key (List Bytes)

-- `sum(len(c) for c in chunks)`
unfoldable pub size : List Bytes → ℕ
size [] = 0
size (c ∷ cs) = length c + size cs

pub record Store : Type 0 where
  pub max_entries : ℕ
  pub max_total_bytes : ℕ
  pub entries : Entries
  pub total_bytes : ℕ

unfoldable pub new : ℕ → ℕ → Store
new max_entries max_total_bytes = record {
  max_entries = max_entries;
  max_total_bytes = max_total_bytes;
  entries = [];
  total_bytes = 0;
}

-- `move_to_end`
touch : Key → Option (List Bytes) → Store → Store
touch key none s = s
touch key (some chunks) s = record s { entries = remove key s.entries ++ (key, chunks) ∷ [] }

unfoldable pub get : Key → Store → Option (List Bytes) × Store
unfolding touch
get key s = (lookup key s.entries, touch key (lookup key s.entries) s)

-- `len(self._store) > self._max_entries or self._total_bytes > self._max_total_bytes`
unfoldable pub over : Store → Entries → ℕ → Bool
over s entries total = ltb s.max_entries (length entries) || ltb s.max_total_bytes total

-- The loop of `_evict`: entries leave from the least recently used end.
unfoldable pub evict : Store → Entries → ℕ → Store
unfolding over
evict s [] total = record s { entries = []; total_bytes = total }
evict s ((k, chunks) ∷ rest) total = elim (over s ((k, chunks) ∷ rest) total) [
  | true ↦ evict s rest (total - size chunks)
  | false ↦ record s { entries = (k, chunks) ∷ rest; total_bytes = total }
]

-- `if key in self._store:` the old entry goes
unfoldable pub forget : Key → Option (List Bytes) → Store → Store
unfolding size
forget key none s = s
forget key (some old) s = record s {
  entries = remove key s.entries;
  total_bytes = s.total_bytes - size old;
}

unfoldable pub put : Key → List Bytes → Store → Store
unfolding forget evict
put key chunks s =
    let s' = forget key (lookup key s.entries) s in
    if ltb s.max_total_bytes (size chunks)
    then s'
    else evict s' (s'.entries ++ (key, chunks) ∷ []) (s'.total_bytes + size chunks)

-- How the inner provider's stream went: all its chunks came, or an error or a cancellation cut it.
pub data StreamEnd : Type 0 where
  complete cut : StreamEnd

-- What a client gets, the store behind it, and how often the inner provider was asked.
pub record Synthesis : Type 0 where
  pub chunks : List Bytes
  pub end : StreamEnd
  pub store : Store
  pub inner_calls : ℕ

pub record Inner : Type 0 where
  pub synthesize : Text → Text → List Bytes × StreamEnd

-- `self._store.put(key, buf)` after a clean end only
fill : Key → List Bytes → StreamEnd → Store → Store
unfolding put
fill key chunks complete s = put key chunks s
fill key chunks cut s = s

missed : Inner → ℕ → Text → Text → Store → Synthesis
unfolding fill
missed inner max_cacheable_chars text voice_id s =
    let (chunks, end) = inner.synthesize text voice_id in
    record {
      chunks = chunks;
      end = end;
      store =
          if ltb max_cacheable_chars (length text) then s else fill (text, voice_id) chunks end s;
      inner_calls = 1;
    }

unfoldable pub synthesize_stream : Inner → ℕ → Text → Text → Store → Synthesis
unfolding get missed
synthesize_stream inner max_cacheable_chars text voice_id s =
    let (hit, s') = get (text, voice_id) s in
    elim hit [
      | some chunks ↦ record { chunks = chunks; end = complete; store = s'; inner_calls = 0 }
      | none ↦ missed inner max_cacheable_chars text voice_id s'
    ]
