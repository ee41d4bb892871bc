-- ===== src/Streaming/SentenceSplitter/Laws.antt =====
-- What the splitter promises.
use isales_engine.Prelude.{
  Bool-cases, length, any, keep, concat, All, length-append, All-append, keep-append, concat-append,
  nat_eq, text_eq, Text, is_space, strip, keep-trim, strip-idempotent, length-strip-le, ℕ, ◌≤◌, ◌<◌,
  ◌≡◌, refl, sym, ◌≢◌, inl, inr, Bool, true, false, List, [], ◌∷◌, ◌++◌, append-nil, append_assoc,
  arith,
}
use isales_engine.Streaming.SentenceSplitter.{emit, scan, split_sentences, should_emit}
use isales_engine.Streaming.SentenceSplitter.Chunks.{feed-eq-scan}

-- A sentence that TTS can be given: not empty, nothing to strip, within the ceiling, and voiced.
pub record IsSentence (voiced : ℕ → Bool) (max_chars : ℕ) (s : Text) : Type 0 where
  pub non_empty : s ≢ []
  pub stripped : strip s ≡ s
  pub fits : length s ≤ max_chars
  pub readable : any voiced s ≡ true

module _ (voiced : ℕ → Bool) (soft_chars max_chars : ℕ) where
  split-eq-scan :
      (tokens : List Text)
      → split_sentences voiced soft_chars max_chars tokens
        ≡ (scan voiced soft_chars max_chars [] (concat tokens)).1
          ++ emit voiced (scan voiced soft_chars max_chars [] (concat tokens)).0
  unfolding split_sentences
  split-eq-scan tokens = rw (feed-eq-scan voiced soft_chars max_chars [] tokens)

  -- The sentences depend on the joined text alone: two token lists with the same text give the
  -- same sentences, however the tokens are fragmented.
  pub split_sentences-fragmentation :
      (tokens tokens' : List Text)
      → concat tokens ≡ concat tokens'
      → split_sentences voiced soft_chars max_chars tokens
        ≡ split_sentences voiced soft_chars max_chars tokens'
  split_sentences-fragmentation tokens tokens' h =
      rw (split-eq-scan tokens, split-eq-scan tokens', h)

  emit-IsSentence :
      (buffer : Text)
      → length buffer ≤ max_chars
      → All (IsSentence voiced max_chars) (emit voiced buffer)
  unfolding emit
  emit-IsSentence buffer h = ground (arith, strip-idempotent buffer, length-strip-le buffer)

  should_emit_full :
      (buffer : Text) (ch : ℕ)
      → should_emit soft_chars max_chars buffer ch ≡ false
      → length buffer < max_chars
  unfolding should_emit
  should_emit_full buffer ch h = ground arith

  pub scan-IsSentence :
      (buffer s : Text)
      → length buffer < max_chars
      → (length (scan voiced soft_chars max_chars buffer s).0 < max_chars)
        × All (IsSentence voiced max_chars) (scan voiced soft_chars max_chars buffer s).1
  unfolding scan
  scan-IsSentence buffer [] h = (h, tt)
  scan-IsSentence buffer (ch ∷ s) h =
      elim (Bool-cases (should_emit soft_chars max_chars (buffer ++ ch ∷ []) ch)) [
        | inl stop ↦ rw stop (
            let rest = scan-IsSentence [] s (omega arith) in
            (
              rest.0,
              All-append (IsSentence voiced max_chars) (emit voiced (buffer ++ ch ∷ [])) _
                  (emit-IsSentence (buffer ++ ch ∷ [])
                    (omega (arith, length-append buffer (ch ∷ []))))
                  rest.1,
            ))
        | inr more ↦ rw more (scan-IsSentence (buffer ++ ch ∷ []) s (should_emit_full _ ch more))
      ]

  -- With a positive ceiling every sentence is non-empty, stripped, at most `max_chars` long, and
  -- holds a character that can be voiced.
  pub split_sentences-IsSentence :
      (tokens : List Text)
      → 0 < max_chars
      → All (IsSentence voiced max_chars) (split_sentences voiced soft_chars max_chars tokens)
  split_sentences-IsSentence tokens h =
      let (fits, whole) = scan-IsSentence [] (concat tokens) h in
      rw (split-eq-scan tokens) (
        All-append (IsSentence voiced max_chars) _ _ whole
          (emit-IsSentence _ (omega (arith, fits))))

module _ (voiced : ℕ → Bool) (mute : (c : ℕ) → is_space c ≡ true → voiced c ≡ false) where
  keep_of_none : (s : Text) → any voiced s ≡ false → keep voiced s ≡ []
  keep_of_none [] h = refl
  keep_of_none (c ∷ s) h = ground (arith, keep_of_none s)

  keep-strip : (s : Text) → keep voiced (strip s) ≡ keep voiced s
  keep-strip s = keep-trim is_space voiced mute s

  keep-emit : (buffer : Text) → keep voiced (concat (emit voiced buffer)) ≡ keep voiced buffer
  unfolding emit
  keep-emit buffer =
      ground (arith, keep-strip buffer, keep_of_none (strip buffer), append-nil (strip buffer))

  module _ (soft_chars max_chars : ℕ) where
    keep-scan :
        (buffer s : Text)
        → keep voiced (concat (scan voiced soft_chars max_chars buffer s).1)
            ++ keep voiced (scan voiced soft_chars max_chars buffer s).0
          ≡ keep voiced buffer ++ keep voiced s
    unfolding scan
    keep-scan buffer [] = sym (append-nil (keep voiced buffer))
    keep-scan buffer (ch ∷ s) =
        elim (Bool-cases (should_emit soft_chars max_chars (buffer ++ ch ∷ []) ch)) [
          | inl stop ↦ rw stop (
              rw
                (
                  concat-append,
                  keep-append,
                  keep-emit,
                  append_assoc,
                  keep-scan [] s,
                  keep-append,
                  append_assoc,
                )
                (rw (← keep-append voiced (ch ∷ []) s)))
          | inr more ↦ rw more (
              rw (keep-scan (buffer ++ ch ∷ []) s, keep-append, append_assoc)
                (rw (← keep-append voiced (ch ∷ []) s)))
        ]

    -- Where no whitespace is voiced, the sentences hold exactly the voiced characters of the
    -- stream, in order: none is lost, doubled or moved.
    pub split_sentences-keep :
        (tokens : List Text)
        → keep voiced (concat (split_sentences voiced soft_chars max_chars tokens))
          ≡ keep voiced (concat tokens)
    split_sentences-keep tokens =
        rw (split-eq-scan voiced soft_chars max_chars tokens, concat-append, keep-append, keep-emit)
          (keep-scan [] (concat tokens))
