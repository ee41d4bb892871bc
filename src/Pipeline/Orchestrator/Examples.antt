-- ===== src/Pipeline/Orchestrator/Examples.antt =====
-- A turn whose stream breaks off, one that says nothing, and the theorems on
-- isales_engine/pipeline/orchestrator.py at them.
use isales_engine.Pipeline.Orchestrator.{
  MainLlm, split, given, generate_core, generated, broken, sentences, or_default, count_tokens,
  new_result, add_sentences, chat_fallback, default_reply,
}
use isales_engine.Pipeline.Orchestrator.Eager.{
  Act, drains, replays, cancels, run, act, start_eager, drain_step, replay_step,
}
use isales_engine.Pipeline.Orchestrator.Eager.Replay.{run-direct, Replays, run-Replays}
use isales_engine.Pipeline.Orchestrator.Eager.Progress.{run-returns}
use isales_engine.Pipeline.Orchestrator.Spoken.{IsSpoken, sentences-IsSpoken}
use isales_engine.Pipeline.Orchestrator.Failure.{generate_core-mid}
use isales_engine.Pipeline.PromptBuilder.{answered, raised}
use isales_engine.Streaming.SentenceSplitter.{
  split_sentences, feed, scan, emit, should_emit, has_synthesizable_text,
}
use isales_engine.CallSession.{new, Event}
use isales_engine.Prelude.{
  leb, replicate, nat_eq, text_eq, ◌==◌, Text, text, is_space, ℕ, ◌≡◌, refl, Bool, true, false, not,
  ◌&&◌, none, some, List, [], ◌∷◌, ◌++◌, arith,
}

abbrev voiced : ℕ → Bool
voiced c = leb 0x30 c && not (c == 0x3002)

abbrev admits_all : Event → Bool
admits_all event = true

-- The stream breaks off behind its first sentence.
abbrev cut_off : MainLlm
cut_off = record {
  chat_stream =
      λ messages. record { tokens = text "好的" ∷ text "。再" ∷ []; failure = some (text "reset") };
  chat = λ messages. answered (some (text "好的。再见。"));
  last_call_tokens_in = some 90;
  last_call_tokens_out = none;
}

-- It fails at once, and so does the call without streaming.
abbrev mute : MainLlm
mute = record cut_off {
  chat_stream = λ messages. record { tokens = []; failure = some (text "reset") };
  chat = λ messages. raised (text "timeout");
}

-- It fails at once, and the call without streaming answers.
abbrev falls_back : MainLlm
falls_back = record mute { chat = λ messages. answered (some (text " 好的。再见。")) }

speaks_fallback : (generate_core voiced falls_back []).0 ≡ text "好的。" ∷ text "再见。" ∷ []
unfolding generate_core generated broken given chat_fallback split split_sentences feed scan emit
    should_emit has_synthesizable_text is_space add_sentences count_tokens new_result
speaks_fallback = refl

falls_silent : (sentences voiced admits_all 900 0 (text "请讲" ∷ []) mute [] new).0 ≡ text "请讲" ∷ []
unfolding sentences or_default generate_core generated broken given chat_fallback split feed
    is_space add_sentences count_tokens new_result
falls_silent = refl

sentences-IsSpoken_example :
    IsSpoken voiced
      (default_reply 0 (text "请讲" ∷ []))
      (sentences voiced admits_all 900 0 (text "请讲" ∷ []) mute [] new)
sentences-IsSpoken_example = sentences-IsSpoken voiced admits_all 900 0 (text "请讲" ∷ []) mute [] new

generate_core-mid_example :
    (rest : List Text) × (split voiced (text "好的" ∷ text "。再" ∷ text "见。" ∷ [])
      ≡ (generate_core voiced cut_off []).0 ++ rest)
    × ((generate_core voiced cut_off []).1.error ≡ some (text "main_stream_mid: reset"))
    × ((generate_core voiced cut_off []).1.fallback_used ≡ false)
unfolding given feed scan emit should_emit has_synthesizable_text is_space
generate_core-mid_example =
    generate_core-mid voiced cut_off [] (text "reset") (text "好的。") [] (text "见。" ∷ []) refl refl

abbrev core : List Text
core = text "好的。" ∷ text "再见。" ∷ []

abbrev interleaved : List Act
interleaved = replays ∷ drains ∷ replays ∷ drains ∷ drains ∷ replays ∷ replays ∷ []

run-direct_example : (run interleaved (start_eager core)).handed ≡ core
unfolding run act drain_step replay_step start_eager
run-direct_example = run-direct core interleaved (omega arith) refl

run-Replays_example :
    Replays core (run (drains ∷ replays ∷ cancels ∷ drains ∷ []) (start_eager core))
run-Replays_example = run-Replays core (drains ∷ replays ∷ cancels ∷ drains ∷ [])

run-returns_example :
    (run
      ((drains ∷ replays ∷ []) ++ (replicate 3 drains ++ replicate 3 replays))
      (start_eager core)).returned
    ≡ true
run-returns_example = run-returns core (drains ∷ replays ∷ [])
