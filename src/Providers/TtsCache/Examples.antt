-- ===== src/Providers/TtsCache/Examples.antt =====
-- A small store, a provider that always completes, and the theorems on
-- isales_engine/providers/tts_cache.py at them.
use isales_engine.Providers.TtsCache.{
  Bytes, Store, complete, Inner, size, put, synthesize_stream, key_eq,
}
use isales_engine.Providers.TtsCache.Bounds.{IsValid, put-IsValid}
use isales_engine.Providers.TtsCache.Replay.{synthesize-replay}
use isales_engine.Prelude.{
  nat_eq, text_eq, Text, text, lookup, ◌≤◌, ◌≡◌, refl, none, List, [], ◌∷◌, arith,
}

abbrev hello : Text
hello = text "您好"

abbrev bye : Text
bye = text "再见"

abbrev voice : Text
voice = text "v"

abbrev pcm : List Bytes
pcm = (1 ∷ 2 ∷ []) ∷ (3 ∷ []) ∷ []

abbrev held : Store
held = record {
  max_entries = 2;
  max_total_bytes = 10;
  entries = ((hello, voice), pcm) ∷ [];
  total_bytes = 3;
}

held-IsValid : IsValid held
unfolding size lookup
held-IsValid = record {
  counted = refl;
  few = omega arith;
  small = omega arith;
  distinct = (refl, tt);
}

abbrev whole : Inner
whole = record { synthesize = λ said voice. (pcm, complete) }

put-IsValid_example : IsValid (put (bye, voice) pcm held)
put-IsValid_example = put-IsValid (bye, voice) pcm held held-IsValid

pcm_fits : size pcm ≤ held.max_total_bytes
unfolding size
pcm_fits = omega arith

bye_absent : lookup (bye, voice) held.entries ≡ none
unfolding lookup
bye_absent = refl

synthesize-replay_example :
    let first = synthesize_stream whole 64 bye voice held in
    let second = synthesize_stream whole 64 bye voice first.store in
    (first.inner_calls ≡ 1) × (second.inner_calls ≡ 0) × (second.chunks ≡ first.chunks)
synthesize-replay_example =
    synthesize-replay whole 64 bye voice held held-IsValid bye_absent (omega arith) refl pcm_fits
      (omega arith)
