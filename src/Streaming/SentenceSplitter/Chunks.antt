-- ===== src/Streaming/SentenceSplitter/Chunks.antt =====
-- The scan as a function of the characters alone: how tokens are cut does not matter.
use isales_engine.Prelude.{
  Bool-cases, concat, nat_eq, text_eq, Text, ℕ, ◌≡◌, refl, sym, inl, inr, Bool, List, [], ◌∷◌, ◌++◌,
  append_assoc,
}
use isales_engine.Streaming.SentenceSplitter.{scan, feed, should_emit}

module _ (voiced : ℕ → Bool) (soft_chars max_chars : ℕ) where
  -- A scan of two texts in a row is one scan of the joined text.
  scan-append :
      (buffer s t : Text)
      → scan voiced soft_chars max_chars buffer (s ++ t) ≡ (
        (scan voiced soft_chars max_chars (scan voiced soft_chars max_chars buffer s).0 t).0,
        (scan voiced soft_chars max_chars buffer s).1
            ++ (scan voiced soft_chars max_chars (scan voiced soft_chars max_chars buffer s).0 t).1,
      )
  unfolding scan
  scan-append buffer [] t = refl
  scan-append buffer (ch ∷ s) t =
      elim (Bool-cases (should_emit soft_chars max_chars (buffer ++ ch ∷ []) ch)) [
        | inl stop ↦ rw (stop, scan-append [] s t, append_assoc)
        | inr more ↦ rw (more, scan-append (buffer ++ ch ∷ []) s t)
      ]

  pub feed-eq-scan :
      (buffer : Text) (tokens : List Text)
      → feed voiced soft_chars max_chars buffer tokens
        ≡ scan voiced soft_chars max_chars buffer (concat tokens)
  unfolding feed
  feed-eq-scan buffer [] = unfold scan in refl
  feed-eq-scan buffer ([] ∷ tokens) = feed-eq-scan buffer tokens
  feed-eq-scan buffer ((c ∷ cs) ∷ tokens) =
      rw (feed-eq-scan (scan voiced soft_chars max_chars buffer (c ∷ cs)).0 tokens)
        (sym (scan-append buffer (c ∷ cs) (concat tokens)))
