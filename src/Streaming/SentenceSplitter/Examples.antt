-- ===== src/Streaming/SentenceSplitter/Examples.antt =====
-- Runs of the splitter, and its theorems at concrete streams.
use isales_engine.Prelude.{
  leb, keep, concat, All, nat_eq, text_eq, Text, text, is_space, ℕ, ◌≡◌, refl, Bool, true, false,
  ◌&&◌, ◌||◌, List, [], ◌∷◌, arith,
}
use isales_engine.Streaming.SentenceSplitter.{split_sentences, emit, should_emit}
use isales_engine.Streaming.SentenceSplitter.Laws.{
  IsSentence, split_sentences-fragmentation, split_sentences-IsSentence, split_sentences-keep,
}

-- Digits, ASCII letters and the CJK ideographs.
abbrev letters : ℕ → Bool
letters c =
    (leb 48 c && leb c 57)
    || ((leb 65 c && leb c 90) || ((leb 97 c && leb c 122) || leb 0x4e00 c && leb c 0x9fff))

letters_mute : (c : ℕ) → is_space c ≡ true → letters c ≡ false
unfolding is_space
letters_mute c h = ground arith

abbrev whole : List Text
whole = text "Hi. ... ok, go" ∷ []

abbrev pieces : List Text
pieces = text "H" ∷ text "i. .." ∷ [] ∷ text ". ok" ∷ text ", go" ∷ []

two_sentences : split_sentences letters 60 120 pieces ≡ text "Hi." ∷ text "ok, go" ∷ []
unfolding split_sentences emit should_emit is_space
two_sentences = refl

soft_cut :
    split_sentences letters 4 8 (text "ab, cdefg, hijklmnop" ∷ [])
    ≡ text "ab, cdef" ∷ text "g, hijkl" ∷ text "mnop" ∷ []
unfolding split_sentences emit should_emit is_space
soft_cut = refl

split_sentences-fragmentation_example :
    split_sentences letters 60 120 whole ≡ split_sentences letters 60 120 pieces
split_sentences-fragmentation_example =
    split_sentences-fragmentation letters 60 120 whole pieces refl

split_sentences-IsSentence_example :
    All (IsSentence letters 120) (split_sentences letters 60 120 pieces)
split_sentences-IsSentence_example = split_sentences-IsSentence letters 60 120 pieces (omega arith)

split_sentences-keep_example :
    keep letters (concat (split_sentences letters 60 120 pieces)) ≡ keep letters (concat pieces)
split_sentences-keep_example = split_sentences-keep letters letters_mute 60 120 pieces
