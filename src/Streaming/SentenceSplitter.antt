-- ===== src/Streaming/SentenceSplitter.antt =====
-- isales_engine/streaming/sentence_splitter.py: a stream of tokens becomes sentences for TTS.
-- `unicodedata.category(ch)[0] in ("L", "N")` is the parameter `voiced`; the asynchronous stream
-- is the list of its tokens.
pub mod Chunks
pub mod Laws
mod Examples
use isales_engine.Prelude.{
  leb, if◌then◌else◌, length, any, nat_eq, text_eq, mem, Text, text, strip, ends_with, non_empty, ℕ,
  Bool, ◌&&◌, ◌||◌, List, [], ◌∷◌, ◌++◌,
}

abbrev pub terminators : Text
terminators = text "。？！?!."

abbrev pub soft_boundaries : Text
soft_boundaries = text "，、；：,;:"

abbrev pub blank_line : Text
blank_line = 10 ∷ 10 ∷ []

abbrev pub soft_sentence_chars : ℕ
soft_sentence_chars = 60

abbrev pub max_sentence_chars : ℕ
max_sentence_chars = 120

unfoldable pub should_emit : ℕ → ℕ → Text → ℕ → Bool
should_emit soft_chars max_chars buffer ch =
    mem ch terminators
    || (ends_with blank_line buffer
        || ((leb soft_chars (length buffer) && mem ch soft_boundaries)
            || leb max_chars (length buffer)))

module _ (voiced : ℕ → Bool) where
  unfoldable pub has_synthesizable_text : Text → Bool
  has_synthesizable_text s = any voiced s

  -- `out = buffer.strip()`, yielded if it can be voiced
  unfoldable pub emit : Text → List Text
  unfolding has_synthesizable_text
  emit buffer =
      let out = strip buffer in if non_empty out && has_synthesizable_text out then out ∷ [] else []

  module _ (soft_chars max_chars : ℕ) where
    -- `for ch in token`, from a buffer: the buffer left, and what was yielded
    unfoldable pub scan : Text → Text → Text × List Text
    scan buffer [] = (buffer, [])
    scan buffer (ch ∷ rest) =
        let grown = buffer ++ ch ∷ [] in
        let stop = should_emit soft_chars max_chars grown ch in
        let next = scan (if stop then [] else grown) rest in
        if stop then (next.0, emit grown ++ next.1) else next

    -- `async for token in token_stream`
    unfoldable pub feed : Text → List Text → Text × List Text
    feed buffer [] = (buffer, [])
    feed buffer (token ∷ tokens) =
        let after = if non_empty token then scan buffer token else (buffer, []) in
        let next = feed after.0 tokens in (next.0, after.1 ++ next.1)

    unfoldable pub split_sentences : List Text → List Text
    unfolding scan feed
    split_sentences tokens = let (tail, out) = feed [] tokens in out ++ emit tail
