-- ===== src/Pipeline/Orchestrator.antt =====
-- isales_engine/pipeline/orchestrator.py: one turn of the main language model, `PipelineStream`.
-- What the model gives is a parameter: the tokens of its stream and how the stream ends, and the
-- answer of the one call without streaming. Measurements of time are left out.
pub mod Eager
pub mod Spoken
pub mod Failure
pub mod Handover
mod Examples
use isales_engine.Pipeline.PromptBuilder.{
  Chat, answered, raised, Message, PromptConfig, system, from_user, build_main_messages, or_text,
}
use isales_engine.CallSession.{
  CallSession, Event, Recorded, recorded, value_error, schema_error, append_event,
}
use isales_engine.Streaming.SentenceSplitter.{
  emit, feed, split_sentences, soft_sentence_chars, max_sentence_chars,
}
use isales_engine.Referee.{recent_rounds, recent_dialog_rounds}
use isales_engine.Referee.Prompt.{RefereeSpec, Asked, Asking, Ran, run_referee}
use isales_engine.Streaming.Types.{RefereeResult}
use isales_engine.Realtime.Choice.{choice}
use isales_engine.Prelude.{
  if◌then◌else◌, nat_eq, text_eq, Text, text, strip, non_empty, Dict, ℕ, Bool, true, false, ◌||◌,
  Option, none, some, List, [], ◌∷◌, ◌++◌, map,
}

-- The tokens that a stream gives, and the text of the exception that ends it, if one does.
pub record Streamed : Type 0 where
  pub tokens : List Text
  pub failure : Option Text

pub record MainStreamResult : Type 0 where
  pub reply_text : Text
  pub tokens_in : ℕ
  pub tokens_out : ℕ
  pub fallback_used : Bool
  pub used_default_reply : Bool
  pub error : Option Text

unfoldable pub new_result : MainStreamResult
new_result = record {
  reply_text = [];
  tokens_in = 0;
  tokens_out = 0;
  fallback_used = false;
  used_default_reply = false;
  error = none;
}

-- The language model of a turn: its stream for some messages, its answer to them, and
-- `last_call_tokens_in` and `last_call_tokens_out` behind the turn.
pub record MainLlm : Type 0 where
  pub chat_stream : List Message → Streamed
  pub chat : List Message → Chat
  pub last_call_tokens_in : Option ℕ
  pub last_call_tokens_out : Option ℕ

-- `is_wrap_up`, and the text to voice again where the stream restructures.
pub record TurnKind : Type 0 where
  pub is_wrap_up : Bool
  pub restructure_text : Option Text

unfoldable pub build_messages : (ℕ → Text) → CallSession → PromptConfig → TurnKind → List Message
unfolding or_text
build_messages digits session config kind =
    let main = build_main_messages digits session config kind.is_wrap_up in
    elim kind.restructure_text [
      | none ↦ main
      | some said ↦ elim config.restructure_prompt [
        | none ↦ main
        | some prompt ↦
            record { role = system; content = prompt }
            ∷ record { role = from_user; content = said }
            ∷ []
      ]
    ]

-- `self.result.reply_text += sentence`, for each sentence
unfoldable pub add_sentences : List Text → MainStreamResult → MainStreamResult
add_sentences [] result = result
add_sentences (s ∷ rest) result =
    add_sentences rest (record result { reply_text = result.reply_text ++ s })

or_zero : Option ℕ → ℕ
or_zero none = 0
or_zero (some n) = n

abbrev pub please_wait : Text
please_wait = text "好的，请稍等。"

unfoldable pub default_reply : ℕ → List Text → Text
unfolding choice
default_reply draw [] = please_wait
default_reply draw (r ∷ rs) = choice draw r rs

unfoldable pub default_reason : Option Text → Text
default_reason none = text "empty_reply_default_used"
default_reason (some error) = error

-- The session behind an event, which `append_event` outside strict mode always records.
unfoldable pub noted : Recorded → CallSession
noted (recorded session) = session
noted (value_error session) = session
noted (schema_error session) = session

module _ (voiced : ℕ → Bool) where
  unfoldable pub split : List Text → List Text
  split = split_sentences voiced soft_sentence_chars max_sentence_chars

  -- The sentences that a stream has given when it breaks off: what is in the buffer is not yielded.
  unfoldable pub given : List Text → List Text
  given tokens = (feed voiced soft_sentence_chars max_sentence_chars [] tokens).1

  unfoldable pub chat_fallback : Chat → MainStreamResult → List Text × MainStreamResult
  unfolding or_text split
  chat_fallback (raised exc) result =
      ([], record result { error = some (text "main_fallback: " ++ exc) })
  chat_fallback (answered content) result =
      let said = strip (or_text content []) in
      (if non_empty said then split (said ∷ []) else [], record result { fallback_used = true })

  -- the `finally` of `_generate_core`
  unfoldable pub count_tokens : MainLlm → MainStreamResult → MainStreamResult
  unfolding or_zero
  count_tokens llm result = record result {
    tokens_in = or_zero llm.last_call_tokens_in;
    tokens_out = or_zero llm.last_call_tokens_out;
  }

  unfoldable pub broken : Text → Chat → List Text → List Text × MainStreamResult
  unfolding chat_fallback add_sentences new_result
  broken exc chat (s ∷ rest) = (
    s ∷ rest,
    record (add_sentences (s ∷ rest) new_result) { error = some (text "main_stream_mid: " ++ exc) },
  )
  broken exc chat [] =
      let (sentences, result) = chat_fallback chat new_result in
      (sentences, add_sentences sentences result)

  unfoldable pub generated : Streamed → Chat → List Text × MainStreamResult
  unfolding broken split given add_sentences new_result
  generated stream chat = elim stream.failure [
    | none ↦ (split stream.tokens, add_sentences (split stream.tokens) new_result)
    | some exc ↦ broken exc chat (given stream.tokens)
  ]

  unfoldable pub generate_core : MainLlm → List Message → List Text × MainStreamResult
  unfolding generated count_tokens
  generate_core llm messages =
      let (sentences, result) = generated (llm.chat_stream messages) (llm.chat messages) in
      (sentences, count_tokens llm result)

  module _ (admits : Event → Bool) (ts draw : ℕ) (default_replies : List Text) where
    -- The end of `sentences`, behind the sentences that generation or the replay gave.
    unfoldable pub or_default :
        List Text → MainStreamResult → CallSession → List Text × MainStreamResult × CallSession
    unfolding default_reply default_reason noted
    or_default yielded result session =
        let said = default_reply draw default_replies in
        let reason = default_reason result.error in
        let fields : Dict Text Text = (text "text", said) ∷ (text "reason", reason) ∷ [] in
        if non_empty (strip result.reply_text) then (yielded, result, session) else (
          yielded ++ said ∷ [],
          record result { reply_text = said; used_default_reply = true; error = some reason },
          noted (append_event admits false (text "default_reply_used") ts fields session),
        )

    -- `sentences` where nothing is buffered ahead
    unfoldable pub sentences :
        MainLlm → List Message → CallSession → List Text × MainStreamResult × CallSession
    unfolding or_default generate_core
    sentences llm messages session =
        let (yielded, result) = generate_core llm messages in or_default yielded result session

unfoldable pub is_restructure : TurnKind → Bool
is_restructure kind = elim kind.restructure_text [ none ↦ false | some _ ↦ true ]

-- `start`: what the referees are shown, and how the tasks of those that are asked end. A wrap-up turn and
-- a restructure ask none.
unfoldable pub shown : CallSession → Text → Option Text → Asked
unfolding recent_dialog_rounds
shown session user_input interrupt_remaining_text = record {
  user_last_utterance = user_input;
  recent_dialog_history = recent_dialog_rounds recent_rounds session.dialog_history;
  interrupt_remaining_text = interrupt_remaining_text;
}

unfoldable pub start :
    (RefereeSpec → List Message → Asking)
    → (RefereeSpec → ℕ)
    → TurnKind
    → List RefereeSpec
    → Asked
    → List Ran
unfolding run_referee is_restructure
start ask duration_ms kind referees asked =
    if kind.is_wrap_up || is_restructure kind
    then []
    else map (λ spec. run_referee (ask spec) (duration_ms spec) spec asked) referees
