-- ===== src/Pipeline/Orchestrator/Failure.antt =====
-- What a turn keeps of a stream that breaks off.
use isales_engine.Pipeline.Orchestrator.{
  Streamed, MainStreamResult, MainLlm, new_result, add_sentences, split, given, broken, generated,
  generate_core, count_tokens,
}
use isales_engine.Pipeline.PromptBuilder.{Chat, Message}
use isales_engine.Streaming.SentenceSplitter.{
  feed, emit, split_sentences, max_sentence_chars, soft_sentence_chars, scan,
}
use isales_engine.Prelude.{
  if◌then◌else◌, nat_eq, text_eq, Text, text, non_empty, ℕ, ◌≡◌, refl, sym, ap, ◌∙◌, Bool, false,
  some, List, [], ◌∷◌, ◌++◌, append_assoc,
}

module _ (voiced : ℕ → Bool) where
  feed-append :
      (soft_chars max_chars : ℕ) (buffer : Text) (xs ys : List Text)
      → (feed voiced soft_chars max_chars buffer (xs ++ ys)).1
        ≡ (feed voiced soft_chars max_chars buffer xs).1
          ++ (feed voiced soft_chars max_chars (feed voiced soft_chars max_chars buffer xs).0 ys).1
  unfolding feed
  feed-append soft_chars max_chars buffer [] ys = refl
  feed-append soft_chars max_chars buffer (x ∷ xs) ys =
      let step : Text × List Text =
        if non_empty x then scan voiced soft_chars max_chars buffer x else (buffer, []) in
      ap (λ t. step.1 ++ t) (feed-append soft_chars max_chars step.0 xs ys)
      ∙ sym (append_assoc step.1 (feed voiced soft_chars max_chars step.0 xs).1 _)

  fallback-add_sentences :
      (ss : List Text) (r : MainStreamResult) → (add_sentences ss r).fallback_used ≡ r.fallback_used
  unfolding add_sentences
  fallback-add_sentences [] r = refl
  fallback-add_sentences (s ∷ ss) r =
      fallback-add_sentences ss (record r { reply_text = r.reply_text ++ s })

  generated_cut :
      (stream : Streamed) (chat : Chat) (exc : Text) (ss : List Text)
      → stream.failure ≡ some exc
      → given voiced stream.tokens ≡ ss
      → generated voiced stream chat ≡ broken voiced exc chat ss
  unfolding generated
  generated_cut stream chat exc ss cut some_given =
      rw cut (ap (λ xs. broken voiced exc chat xs) some_given)

  -- A stream that breaks off behind a sentence: the answer without streaming is not asked for, the
  -- sentences are the beginning of what any longer stream would have given, and the error is kept.
  pub generate_core-mid :
      (llm : MainLlm) (messages : List Message) (exc s : Text) (ss more : List Text)
      → (llm.chat_stream messages).failure ≡ some exc
      → given voiced (llm.chat_stream messages).tokens ≡ s ∷ ss
      → (rest : List Text) × (split voiced ((llm.chat_stream messages).tokens ++ more)
          ≡ (generate_core voiced llm messages).0 ++ rest)
        × ((generate_core voiced llm messages).1.error ≡ some (text "main_stream_mid: " ++ exc))
        × ((generate_core voiced llm messages).1.fallback_used ≡ false)
  unfolding generate_core split given split_sentences broken new_result count_tokens
  generate_core-mid llm messages exc s ss more cut some_given =
      let stream = llm.chat_stream messages in
      let (buffer, out) = feed voiced soft_sentence_chars max_sentence_chars [] stream.tokens in
      let after = feed voiced soft_sentence_chars max_sentence_chars buffer more in
      let cuts = generated_cut stream (llm.chat messages) exc (s ∷ ss) cut some_given in
      (
        after.1
            ++ emit voiced
                (feed voiced soft_sentence_chars max_sentence_chars [] (stream.tokens ++ more)).0,
        ap
              (λ xs.
                xs
                ++ emit voiced
                    (feed voiced soft_sentence_chars max_sentence_chars []
                      (stream.tokens ++ more)).0)
              (feed-append soft_sentence_chars max_sentence_chars [] stream.tokens more)
            ∙ append_assoc (given voiced stream.tokens) after.1 _
            ∙ ap
                (λ xs.
                  xs
                  ++ (after.1
                      ++ emit voiced
                          (feed voiced soft_sentence_chars max_sentence_chars []
                            (stream.tokens ++ more)).0))
                (some_given ∙ sym (ap (λ (r : List Text × MainStreamResult). r.0) cuts)),
        rw cuts,
        rw cuts (fallback-add_sentences (s ∷ ss) new_result),
      )
