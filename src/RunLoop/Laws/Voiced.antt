-- ===== src/RunLoop/Laws/Voiced.antt =====
-- isales_engine/run_loop.py over pipeline/orchestrator.py: the run loop speaks what the orchestrator
-- yields.
use isales_engine.RunLoop.{Call, Surroundings, returned, ◌>>=◌, pure}
use isales_engine.RunLoop.Hoare.{emit-known}
use isales_engine.RunLoop.Monitor.{hear_all}
use isales_engine.RunLoop.Playing.{
  Reply, StreamKind, play_tts, ended, caught, after_sentence, next_job, play_sentences,
  play_streaming, final_text,
}
use isales_engine.RunLoop.Laws.Silence.{quiet_playback}
use isales_engine.Pipeline.Orchestrator.{
  MainLlm, generate_core, sentences, or_default, default_reply, default_reason,
}
use isales_engine.Pipeline.PromptBuilder.{Message}
use isales_engine.Pipeline.Orchestrator.Spoken.{generate_core-blank}
use isales_engine.Realtime.InterruptionRules.{Rule}
use isales_engine.CallSession.{is_known}
use isales_engine.Prelude.{
  Bool-cases, length, nat_eq, text_eq, Text, text, strip, non_empty, Dict, ℕ, ◌≡◌, refl, sym, ap,
  ◌∙◌, inl, inr, Bool, true, none, List, [], ◌∷◌, ◌++◌, append-nil, append_assoc,
}

-- The reply of a turn as the run loop has it, none of it held back, with no hangup between its
-- sentences.
abbrev pub reply_of : (ℕ → Bool) → MainLlm → List Message → ℕ → Reply
reply_of voiced llm messages draw =
    let (said, result) = generate_core voiced llm messages in
    record {
      core = said;
      reply_text = result.reply_text;
      error = result.error;
      draw = draw;
      turns = 0;
      stopped_before = none;
      buffered = 0;
      tokens_in = result.tokens_in;
      tokens_out = result.tokens_out;
    }

module _ (env : Surroundings) (rule : Rule env.re.Pattern)
    (quiet : (n : ℕ) → env.playback n ≡ quiet_playback) where
  quiet_tts :
      (said : Text) (c : Call)
      → play_tts env rule said true c
        ≡ (returned true, record c { spoken = c.spoken ++ said ∷ []; current_speaking_task = none })
  unfolding play_tts ended hear_all pure
  quiet_tts said c = rw (quiet (length c.spoken)) refl

  spoken-play_sentences :
      (kind : StreamKind) (reply : Reply) (ss : List Text) (c : Call)
      → reply.stopped_before ≡ none
      → (play_sentences env rule kind reply ss c).1.spoken ≡ c.spoken ++ ss
  unfolding play_sentences caught after_sentence next_job
  spoken-play_sentences kind reply [] c on = rw on (sym (append-nil c.spoken))
  spoken-play_sentences kind reply (s ∷ ss) c on = rw on (
      rw (quiet_tts s c) (
        spoken-play_sentences kind reply ss
          (record c { spoken = c.spoken ++ s ∷ []; current_speaking_task = none }) on
        ∙ append_assoc c.spoken (s ∷ []) ss))

  -- With playbacks that nobody interrupts and no manual hangup between them, the run loop speaks
  -- exactly the sentences that the orchestrator yields, the default reply included, and what it
  -- records as said is the text of the orchestrator's reply.
  pub play_streaming-sentences :
      (voiced : ℕ → Bool) (llm : MainLlm) (messages : List Message) (draw : ℕ)
      (default_replies : List Text) (kind : StreamKind) (c : Call)
      → ((play_streaming env rule default_replies kind
            (reply_of voiced llm messages draw)
            c).1.spoken
          ≡ c.spoken
            ++ (sentences voiced env.admits
                (env.clock (length c.session.full_transcript))
                draw
                default_replies
                llm
                messages
                c.session).0)
        × (final_text default_replies (reply_of voiced llm messages draw)
            ≡ (sentences voiced env.admits
                (env.clock (length c.session.full_transcript))
                draw
                default_replies
                llm
                messages
                c.session).1.reply_text)
  unfolding play_streaming final_text sentences or_default ◌>>=◌ is_known
  play_streaming-sentences voiced llm messages draw default_replies kind c =
      let reply = reply_of voiced llm messages draw in
      elim (Bool-cases (non_empty (strip reply.reply_text))) [
        | inl said ↦ rw said (spoken-play_sentences kind reply reply.core c refl, refl)
        | inr silent ↦
            let said = default_reply draw default_replies in
            let fields : Dict Text Text =
              (text "text", said) ∷ (text "reason", default_reason reply.error) ∷ [] in
            let none_said = generate_core-blank voiced llm messages silent in
            rw silent (
              rw (emit-known env (text "default_reply_used") fields c refl) (
                  spoken-play_sentences kind reply (said ∷ []) _ refl
                  ∙ ap (λ xs. c.spoken ++ (xs ++ said ∷ [])) (sym none_said)),
              refl,
            )
      ]
