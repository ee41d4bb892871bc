-- ===== src/RunLoop/Laws/Examples.antt =====
-- Sessions and turns at which the theorems of the run loop apply.
use isales_engine.RunLoop.{
  Call, Surroundings, Config, PipelineConfig, partial, finished, done, timed_out, fresh, returned,
  ◌>>=◌,
}
use isales_engine.RunLoop.Lifecycle.{Trail, answered}
use isales_engine.RunLoop.Playing.{Reply, captured}
use isales_engine.RunLoop.Listening.{connected, other, finals, silent, dropped}
use isales_engine.RunLoop.Turn.{TurnInput, continue}
use isales_engine.RunLoop.Gate.{run_gated_turn}
use isales_engine.RunLoop.Session.{
  Round, Opening, run_session, main_turn_loop, silence_activates, answers,
}
use isales_engine.RunLoop.Laws.Sessions.{
  run_session-Trail, run_session-IsMirrored, run_session-restructures,
}
use isales_engine.RunLoop.Laws.Remainder.{captured-held}
use isales_engine.RunLoop.Laws.Unanswered.{activation-unanswered}
use isales_engine.RunLoop.Laws.FailOpen.{GoesOn, run_gated_turn-fail_open}
use isales_engine.RunLoop.Laws.Silence.{quiet_playback, HungUp, main_turn_loop-silent}
use isales_engine.RunLoop.Laws.Voiced.{reply_of, play_streaming-sentences}
use isales_engine.Pipeline.Orchestrator.{MainLlm, sentences}
use isales_engine.Pipeline.PromptBuilder.{raised}
use isales_engine.CallSession.{init, in_call, new}
use isales_engine.CallSession.Mirror.{IsMirrored}
use isales_engine.Realtime.InterruptionRules.{Regex, length_rule, evaluate_partial}
use isales_engine.Realtime.Transfer.{no_transfer}
use isales_engine.Prelude.Int.{pos}
use isales_engine.RunLoop.{pure, gets, modify, go_to, write, emit}
use isales_engine.RunLoop.Session.{
  settle, attempt, converse, do_greeting, drain_and_monitor, run_round, act_on, user_turn,
  protected, next, remote_hung_up,
}
use isales_engine.RunLoop.Listening.{
  dial_and_wait_connected, wait_connected, await_user_or_silence, combined, join_words, coalesce,
  silence_outcome, await_referees, await_one, resolve_transfer_llm,
}
use isales_engine.RunLoop.Playing.{
  play_tts, ended, play_streaming, play_sentences, caught, after_sentence, next_job, final_text,
}
use isales_engine.RunLoop.Monitor.{hear_all, or_now}
use isales_engine.RunLoop.Turn.{
  say, override, stream, add_tokens, add_trace, gated_trace, base_trace, fanned, emit_reply,
  set_cause, hang_up, next_turn,
}
use isales_engine.RunLoop.Gate.{
  await_gate, gate_end, judged, run_selected, detector_task, detected, run_route, is_hangup_tool,
  release, replied, trace,
}
use isales_engine.RunLoop.Selection.{
  decide_protection, resumes, gate_filler, select_gated_route, dialogue_route, fail_open_route,
  or_else, candidates, fanout, is_some,
}
use isales_engine.StateMachine.{transition_to, legal_transitions, advance}
use isales_engine.CallSession.{append_event, is_known, mirror, is_dialog, turn_of}
use isales_engine.Realtime.Silence.{evaluate_silence}
use isales_engine.Realtime.Transfer.{evaluate_transfer_cheap}
use isales_engine.Streaming.Types.{fail_open, effective_category}
use isales_engine.Pipeline.Decider.{decide}
use isales_engine.Prelude.{
  leb, length, nat_eq, text_eq, Text, text, is_space, contains, lookup, insert, ℕ, ◌≤◌, ◌≡◌, refl,
  inl, Bool, true, false, none, some, List, [], ◌∷◌, ◌++◌, arith,
}

abbrev literal : Regex
literal = record {
  Pattern = Text;
  compile = λ source. some source;
  search = λ pattern said. contains pattern said;
}

-- Every playback is heard to its end.
abbrev calm : Surroundings
calm = record {
  admits = λ e. true;
  clock = λ n. n;
  digits = λ n. [];
  cause_value = λ cause. [];
  playback = λ n. quiet_playback;
  re = literal;
}

-- The caller speaks during every playback.
abbrev eager_caller : Surroundings
eager_caller = record calm {
  playback = λ n. record { heard = partial (text "等一下") 700 ∷ []; ending = finished };
}

abbrev pipeline : PipelineConfig
pipeline = record {
  referee_labels = text "intent" ∷ [];
  routing_rules = [];
  tools = [];
  personas = [];
  persona_fanout_cap = pos 1;
  referee_fail_open_route = text "main";
  main_role_config_id = 7;
  restructure = some 8;
  auto_restructure_on_interrupt = true;
  restructure_gate_category = text "FILLER";
  max_continuous_restructure = 2;
  default_replies = [];
}

abbrev config : Config Text ℕ
config = record {
  pipeline = pipeline;
  silence = record {
    threshold_ms = pos 5_000;
    max_activations = pos 1;
    phrases = text "您还在听吗" ∷ [];
    hangup_phrase = text "再见";
    wrap_up_hangup_ms = pos 9_000;
  };
  wrap_up = record {
    max_rounds = 2;
    max_seconds = 30;
    closing_phrases = [];
    referee_enabled = false;
  };
  transfer = record {
    keyword_enabled = false;
    keywords = [];
    intent_enabled = false;
    intent_threshold = none;
    intent_system_prompt = [];
    round_enabled = false;
    round_threshold = none;
    llm_enabled = false;
    llm_system_prompt = [];
    phrases = [];
  };
  interruption_rule = length_rule (pos 2);
  interruption_whitelist = [];
  max_continuous_interruptions = 3;
  listen_only_strategy = true;
}

abbrev reply : Reply
reply = record {
  core = text "您好。" ∷ text "请问方便吗？" ∷ [];
  reply_text = text "您好。请问方便吗？";
  error = none;
  draw = 0;
  turns = 1;
  stopped_before = none;
  buffered = 1;
  tokens_in = 10;
  tokens_out = 5;
}

abbrev input : TurnInput
input = record {
  gate_heard = [];
  gate_ending = finished;
  referees = timed_out ∷ [];
  detector = done no_transfer;
  main_reply_text = [];
  reply = reply;
  restructured = reply;
  wrap_up_referee = timed_out;
  draw = 0;
  now = 0;
}

abbrev opening : Opening
opening = record {
  dial_ending = finished;
  stopped_while_closing = false;
  events = other ∷ connected ∷ [];
  greeting = done (text "喂，您好");
}

-- The caller speaks, stays silent, and drops the line.
abbrev rounds : List Round
rounds =
    record { waited = finals (text "你好") (text "在吗" ∷ []); turn = input }
    ∷ record { waited = silent (pos 6_000); turn = input }
    ∷ record { waited = dropped; turn = input }
    ∷ []

-- What the session says, in order.
speaks :
    (run_session calm config opening rounds (fresh new)).1.spoken
    ≡ text "喂，您好" ∷ text "您好。" ∷ text "请问方便吗？" ∷ text "您还在听吗" ∷ []
unfolding run_session fresh new settle attempt ◌>>=◌ pure gets modify dial_and_wait_connected
    wait_connected converse go_to write transition_to legal_transitions advance do_greeting emit
    append_event is_known mirror is_dialog turn_of say play_tts ended hear_all drain_and_monitor
    main_turn_loop run_round await_user_or_silence combined join_words coalesce silence_outcome
    evaluate_silence act_on user_turn evaluate_transfer_cheap protected decide_protection answers
    run_gated_turn await_gate gate_end await_referees await_one fail_open judged override resumes
    gate_filler effective_category decide select_gated_route dialogue_route fail_open_route or_else
    run_selected detector_task resolve_transfer_llm detected run_route is_hangup_tool release stream
    play_streaming play_sentences caught after_sentence next_job add_tokens replied trace add_trace
    gated_trace base_trace fanned candidates fanout emit_reply next silence_activates remote_hung_up
    set_cause hang_up is_space lookup insert next_turn final_text is_some
speaks = refl

run_session-Trail_example :
    let c = (run_session calm config opening rounds (fresh new)).1 in
    Trail init c.session.state_history c.session.state
run_session-Trail_example = run_session-Trail calm config opening rounds

run_session-IsMirrored_example :
    IsMirrored (run_session calm config opening rounds (fresh new)).1.session
run_session-IsMirrored_example = run_session-IsMirrored calm config opening rounds

run_session-restructures_example :
    (run_session calm config opening rounds (fresh new)).1.consecutive_restructure_count ≤ 2
run_session-restructures_example = run_session-restructures calm config opening rounds

abbrev ahead : Reply
ahead = record reply { turns = 4; buffered = 5 }

captured-held_example :
    captured
      (record { is_restructure = false; is_eager = true })
      ahead
      (text "一。")
      (text "二。" ∷ text "三。" ∷ text "四。" ∷ text "五。" ∷ [])
    ≡ text "一。二。三。五。"
unfolding is_space
captured-held_example =
    captured-held (record { is_restructure = false; is_eager = true }) ahead (text "一。") (text "二。")
      (text "三。") (text "四。") (text "五。" ∷ []) refl (omega arith) (omega arith)

-- A call in conversation.
abbrev talking : Call
talking =
    record (fresh (record new { state = in_call; state_history = (init, in_call, none) ∷ [] })) {
      monitoring = true;
    }

run_gated_turn-fail_open_example :
    GoesOn calm config (text "你好") input (run_gated_turn calm config (text "你好") input talking)
unfolding fresh new
run_gated_turn-fail_open_example =
    run_gated_turn-fail_open calm config (text "你好") input refl talking (inl refl, tt)
      (record {
        mirrored = record { mirrored = refl; known = tt };
        trail = (refl, answered, refl);
        state = refl;
        hung = refl;
        caused = tt;
        bounded = omega arith;
        within = omega arith;
      })

main_turn_loop-silent_example :
    (d : Call) × (main_turn_loop calm config
        (record { waited = silent (pos 6_000); turn = input }
          ∷ record { waited = silent (pos 5_000); turn = input }
          ∷ [])
        talking
      ≡ (returned tt, d))
    × HungUp calm config (λ n. refl) 1 d
unfolding fresh new
main_turn_loop-silent_example =
    main_turn_loop-silent calm config (λ n. refl) 1 refl
      (record { waited = silent (pos 6_000); turn = input }
        ∷ record { waited = silent (pos 5_000); turn = input }
        ∷ [])
      talking (refl, refl, refl) ((pos 6_000, refl, refl), ((pos 5_000, refl, refl), tt))
      (omega arith)

activation-unanswered_example :
    let (r, d) =
      (silence_activates eager_caller config (some (text "您还在听吗")) >>= λ _.
      answers eager_caller config (text "等一下") input false)
        talking in
    (r ≡ returned continue)
    × (d.spoken ≡ text "您还在听吗" ∷ [])
    × (d.consecutive_interruption_count ≡ 1)
unfolding fresh new is_space evaluate_partial or_else or_now
activation-unanswered_example =
    activation-unanswered eager_caller config (some (text "您还在听吗")) talking refl (refl, refl)
      (text "等一下", 700, [], finished, refl, refl, refl, (λ e. cc)) (text "等一下") input false refl
      refl

-- A model whose stream is cut off behind a sentence.
abbrev cut_off : MainLlm
cut_off = record {
  chat_stream = λ messages. record { tokens = text "好的。再" ∷ []; failure = some (text "reset") };
  chat = λ messages. raised (text "timeout");
  last_call_tokens_in = none;
  last_call_tokens_out = none;
}

abbrev voiced : ℕ → Bool
voiced c = leb 0x30 c

play_streaming-sentences_example :
    ((play_streaming calm
        (length_rule (pos 2))
        []
        (record { is_restructure = false; is_eager = true })
        (reply_of voiced cut_off [] 0)
        talking).1.spoken
      ≡ talking.spoken
        ++ (sentences voiced calm.admits
            (calm.clock (length talking.session.full_transcript))
            0
            []
            cut_off
            []
            talking.session).0)
    × (final_text [] (reply_of voiced cut_off [] 0)
        ≡ (sentences voiced calm.admits
            (calm.clock (length talking.session.full_transcript))
            0
            []
            cut_off
            []
            talking.session).1.reply_text)
play_streaming-sentences_example =
    play_streaming-sentences calm (length_rule (pos 2)) (λ n. refl) voiced cut_off [] 0 []
      (record { is_restructure = false; is_eager = true }) talking
