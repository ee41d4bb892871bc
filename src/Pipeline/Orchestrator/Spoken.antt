-- ===== src/Pipeline/Orchestrator/Spoken.antt =====
-- What a turn says, on every way its generation can go.
use isales_engine.Pipeline.Orchestrator.{
  Streamed, MainStreamResult, new_result, MainLlm, add_sentences, default_reply, split, given,
  chat_fallback, count_tokens, broken, generated, generate_core, or_default, sentences,
}
use isales_engine.Pipeline.PromptBuilder.{Chat, answered, raised, Message, or_text}
use isales_engine.Streaming.SentenceSplitter.{max_sentence_chars, soft_sentence_chars}
use isales_engine.Streaming.SentenceSplitter.Chunks.{feed-eq-scan}
use isales_engine.Streaming.SentenceSplitter.Laws.{
  scan-IsSentence, IsSentence, split_sentences-IsSentence,
}
use isales_engine.CallSession.{CallSession, Event}
use isales_engine.Prelude.{
  Bool-cases, Option-cases, concat, All, nat_eq, text_eq, Text, strip, non_empty, strip_starts,
  stripped_starts, ℕ, ◌≡◌, refl, sym, ap, ◌∙◌, subst, ◌≢◌, ◌⊎◌, inl, inr, Bool, true, false, List,
  [], ◌∷◌, ◌++◌, append-nil, append_assoc, arith,
}

reply-add_sentences :
    (ss : List Text) (r : MainStreamResult)
    → (add_sentences ss r).reply_text ≡ r.reply_text ++ concat ss
unfolding add_sentences
reply-add_sentences [] r = sym (append-nil r.reply_text)
reply-add_sentences (s ∷ ss) r =
    reply-add_sentences ss (record r { reply_text = r.reply_text ++ s })
    ∙ append_assoc r.reply_text s (concat ss)

reply-chat_fallback :
    (voiced : ℕ → Bool) (chat : Chat) (r : MainStreamResult)
    → (chat_fallback voiced chat r).1.reply_text ≡ r.reply_text
unfolding chat_fallback
reply-chat_fallback voiced (answered content) r = refl
reply-chat_fallback voiced (raised exc) r = refl

module _ (voiced : ℕ → Bool) where
  reply-broken :
      (exc : Text) (chat : Chat) (ss : List Text)
      → (broken voiced exc chat ss).1.reply_text ≡ concat (broken voiced exc chat ss).0
  unfolding broken new_result
  reply-broken exc chat [] =
      reply-add_sentences (chat_fallback voiced chat new_result).0
        (chat_fallback voiced chat new_result).1
      ∙ ap (λ s. s ++ concat (chat_fallback voiced chat new_result).0)
          (reply-chat_fallback voiced chat new_result)
  reply-broken exc chat (s ∷ ss) = reply-add_sentences (s ∷ ss) new_result

  reply-generated :
      (stream : Streamed) (chat : Chat)
      → (generated voiced stream chat).1.reply_text ≡ concat (generated voiced stream chat).0
  unfolding generated new_result
  reply-generated stream chat = elim (Option-cases stream.failure) [
    | inl whole ↦ rw whole (reply-add_sentences (split voiced stream.tokens) new_result)
    | inr (exc, cut) ↦ rw cut (reply-broken exc chat (given voiced stream.tokens))
  ]

  -- The text of the reply is what its sentences say, joined.
  pub reply-generate_core :
      (llm : MainLlm) (messages : List Message)
      → (generate_core voiced llm messages).1.reply_text
        ≡ concat (generate_core voiced llm messages).0
  unfolding generate_core count_tokens
  reply-generate_core llm messages = reply-generated (llm.chat_stream messages) (llm.chat messages)

  abbrev Sentences : List Text → Type 0
  Sentences = All (IsSentence voiced max_sentence_chars)

  split-Sentences : (tokens : List Text) → Sentences (split voiced tokens)
  unfolding split
  split-Sentences tokens =
      split_sentences-IsSentence voiced soft_sentence_chars max_sentence_chars tokens (omega arith)

  given-Sentences : (tokens : List Text) → Sentences (given voiced tokens)
  unfolding given
  given-Sentences tokens =
      subst (λ (x : Text × List Text). Sentences x.1)
        (sym (feed-eq-scan voiced soft_sentence_chars max_sentence_chars [] tokens))
        (scan-IsSentence voiced soft_sentence_chars max_sentence_chars [] (concat tokens)
          (omega arith)).1

  chat_fallback-Sentences :
      (chat : Chat) (r : MainStreamResult) → Sentences (chat_fallback voiced chat r).0
  unfolding chat_fallback
  chat_fallback-Sentences (raised exc) r = tt
  chat_fallback-Sentences (answered content) r =
      elim (Bool-cases (non_empty (strip (or_text content [])))) [
        | inl said ↦ rw said (split-Sentences (strip (or_text content []) ∷ []))
        | inr silent ↦ rw silent tt
      ]

  broken-Sentences :
      (exc : Text) (chat : Chat) (ss : List Text)
      → Sentences ss
      → Sentences (broken voiced exc chat ss).0
  unfolding broken
  broken-Sentences exc chat [] h = chat_fallback-Sentences chat new_result
  broken-Sentences exc chat (s ∷ ss) h = h

  generate_core-Sentences :
      (llm : MainLlm) (messages : List Message) → Sentences (generate_core voiced llm messages).0
  unfolding generate_core generated
  generate_core-Sentences llm messages =
      let stream = llm.chat_stream messages in
      elim (Option-cases stream.failure) [
        | inl whole ↦ rw whole (split-Sentences stream.tokens)
        | inr (exc, cut) ↦ rw cut (
            broken-Sentences exc (llm.chat messages) (given voiced stream.tokens)
              (given-Sentences stream.tokens))
      ]

  -- Sentences have a text that is not blank, unless there are none.
  blank_none : (ss : List Text) → Sentences ss → non_empty (strip (concat ss)) ≡ false → ss ≡ []
  blank_none [] h blank = refl
  blank_none ([] ∷ ss) h blank = absurd (h.0.non_empty refl)
  blank_none ((c ∷ s) ∷ ss) h blank =
      let starts = strip_starts c (s ++ concat ss) (stripped_starts c s h.0.stripped) in
      let e : non_empty (strip (c ∷ s ++ concat ss)) ≡ true = rw (starts.1) refl in cc

  -- A blank reply has no sentence.
  pub generate_core-blank :
      (llm : MainLlm) (messages : List Message)
      → non_empty (strip (generate_core voiced llm messages).1.reply_text) ≡ false
      → (generate_core voiced llm messages).0 ≡ []
  generate_core-blank llm messages blank =
      blank_none (generate_core voiced llm messages).0 (generate_core-Sentences llm messages)
        (subst (λ t. non_empty (strip t) ≡ false) (reply-generate_core llm messages) blank)

  -- What a turn says: some sentence, and the reply's text is the sentences joined. A default reply
  -- stands alone.
  pub record IsSpoken (default : Text) (turn : List Text × MainStreamResult × CallSession)
      : Type 0 where
    pub some_sentence : turn.0 ≢ []
    pub joined : turn.1.reply_text ≡ concat turn.0
    pub alone : (non_empty (strip turn.1.reply_text) ≡ true) ⊎ (turn.0 ≡ default ∷ [])

  module _ (admits : Event → Bool) (ts draw : ℕ) (default_replies : List Text) where
    or_default-IsSpoken :
        (ss : List Text) (r : MainStreamResult) (session : CallSession)
        → Sentences ss
        → r.reply_text ≡ concat ss
        → IsSpoken
            (default_reply draw default_replies)
            (or_default voiced admits ts draw default_replies ss r session)
    unfolding or_default
    or_default-IsSpoken ss r session h joined = elim (Bool-cases (non_empty (strip r.reply_text))) [
      | inl said ↦ simp said (record {
        some_sentence = λ e.
            let heard : non_empty (strip (concat ss)) ≡ true =
              subst (λ t. non_empty (strip t) ≡ true) joined said in
            let mute : false ≡ true = subst (λ xs. non_empty (strip (concat xs)) ≡ true) e heard in
            cc;
        joined = joined;
        alone = inl said;
      })
      | inr silent ↦
          let none_said : ss ≡ [] =
            blank_none ss h (subst (λ t. non_empty (strip t) ≡ false) joined silent) in
          simp silent (record {
            some_sentence = λ e.
                let one : default_reply draw default_replies ∷ [] ≡ [] =
                  subst (λ xs. xs ++ default_reply draw default_replies ∷ [] ≡ []) none_said e in
                cc;
            joined = rw none_said (sym (append-nil (default_reply draw default_replies)));
            alone = inr (ap (λ xs. xs ++ default_reply draw default_replies ∷ []) none_said);
          })
    ]

    -- A turn never goes silent, whatever the model streams, answers or raises: some sentence is
    -- yielded, and the reply's text is the sentences joined; where that text is blank, the default
    -- reply is the one sentence.
    pub sentences-IsSpoken :
        (llm : MainLlm) (messages : List Message) (session : CallSession)
        → IsSpoken
            (default_reply draw default_replies)
            (sentences voiced admits ts draw default_replies llm messages session)
    unfolding sentences
    sentences-IsSpoken llm messages session =
        or_default-IsSpoken (generate_core voiced llm messages).0
          (generate_core voiced llm messages).1 session (generate_core-Sentences llm messages)
          (reply-generate_core llm messages)
