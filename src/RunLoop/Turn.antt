-- ===== src/RunLoop/Turn.antt =====
-- isales_engine/run_loop.py: one turn of the call, from the caller's words to the reply or the end.
-- The statements stand in the source's order. What the awaits give is the turn's input.
use isales_engine.RunLoop.{
  Call, Surroundings, Config, PipelineConfig, Trace, Heard, Ending, Awaited, Action, Done, pure,
  gets, modify, emit, go_to, HangupCause, referee_hangup, marked_for_handoff, wrap_up_completed,
  ◌>>=◌, ◌>>◌,
}
use isales_engine.RunLoop.Playing.{Reply, StreamKind, play_tts, play_streaming, final_text}
use isales_engine.RunLoop.Selection.{GatedSelection, resumes, resume_reply, has_text}
use isales_engine.RunLoop.Listening.{resolve_transfer_llm}
use isales_engine.CallSession.{in_call, transferring, end_call}
use isales_engine.Pipeline.Decider.{DeciderAction}
use isales_engine.Streaming.Types.{RefereeResult}
use isales_engine.Realtime.Transfer.{TransferDecision, Trigger, keyword, intent, round, llm}
use isales_engine.Realtime.WrapUp.{WrapUpDecision, Reason, evaluate_wrap_up}
use isales_engine.Prelude.{
  if◌then◌else◌, nat_eq, text_eq, ◌==◌, Text, text, non_empty, ℕ, ◌+◌, Bool, true, false, ◌&&◌,
  Option, none, some, List, [], ◌∷◌, ◌++◌,
}

-- `Directive`
pub data Directive : Type 0 where
  continue return : Directive

-- What the awaits of one turn give: what is heard at the gate and how it ends, the referees, the
-- transfer detector, what the main reply's text is by then, the selected reply, the restructured one, the referee of the wrap-up, the
-- random draw and the monotonic time.
pub record TurnInput : Type 0 where
  pub gate_heard : List Heard
  pub gate_ending : Ending
  pub referees : List (Awaited RefereeResult)
  pub detector : Awaited TransferDecision
  pub main_reply_text : Text
  pub reply : Reply
  pub restructured : Reply
  pub wrap_up_referee : Awaited RefereeResult
  pub draw : ℕ
  pub now : ℕ

unfoldable pub trigger_value : Option Trigger → Text
trigger_value none = text "transfer"
trigger_value (some keyword) = text "keyword"
trigger_value (some intent) = text "intent"
trigger_value (some round) = text "round"
trigger_value (some llm) = text "llm"

unfoldable pub reason_value : Reason → Text
reason_value Reason.max_rounds = text "max_rounds"
reason_value Reason.max_seconds = text "max_seconds"
reason_value Reason.fine = text "ok"

abbrev pub no_problem : Text
no_problem = text "无问题"

-- `category in WRAP_UP_HANGUP_CATEGORIES`
unfoldable pub has_no_problem : Option RefereeResult → Bool
has_no_problem none = false
has_no_problem (some result) = elim result.category [
  | none ↦ false
  | some category ↦ category == no_problem
]

unfoldable pub add_trace : Trace → Call → Call
add_trace trace c = record c { pipeline_trace_records = c.pipeline_trace_records ++ trace ∷ [] }

-- `pipeline_trace_records[-1]["referee_results"] = [...]`
with_results : List RefereeResult → List Trace → List Trace
with_results results [] = []
with_results results (t ∷ []) = record t { referee_results = results } ∷ []
with_results results (t ∷ u ∷ ts) = t ∷ with_results results (u ∷ ts)

unfoldable pub note_verdict : Option RefereeResult → Call → Call
unfolding with_results
note_verdict none c = c
note_verdict (some result) c = record c {
  pipeline_trace_records = with_results (result ∷ []) c.pipeline_trace_records;
}

unfoldable pub base_trace : Text → Text → List RefereeResult → Trace
base_trace user_text reply_text results = record {
  user_input = user_text;
  main_reply_text = reply_text;
  referee_results = results;
  matched_rule = none;
  restructure_source_text = none;
  restructure_trigger = none;
  selected_route_id = none;
  persona_candidates = none;
}

-- `persona_candidates if len(persona_candidates) > 1 else None`
unfoldable pub fanned : List Text → Option (List Text)
fanned (a ∷ b ∷ ids) = some (a ∷ b ∷ ids)
fanned (a ∷ []) = none
fanned [] = none

unfoldable pub gated_trace :
    Text
    → Text
    → List RefereeResult
    → DeciderAction
    → GatedSelection
    → List Text
    → Option Text
    → Trace
unfolding base_trace fanned
gated_trace user_text reply_text results action sel ids restructure_text =
    record (base_trace user_text reply_text results) {
      matched_rule = action.matched_rule;
      restructure_source_text = restructure_text;
      restructure_trigger = elim restructure_text [
        | none ↦ none
        | some t ↦ sel.restructure_trigger
      ];
      selected_route_id = some sel.route_id;
      persona_candidates = fanned ids;
    }

unfoldable pub add_tokens : Reply → Call → Call
add_tokens reply c = record c {
  total_tokens_in = c.total_tokens_in + reply.tokens_in;
  total_tokens_out = c.total_tokens_out + reply.tokens_out;
}

-- `consecutive_interruption_count += 1` and `interruption_signaled = False`
unfoldable pub count_interruption : Call → Call
count_interruption c = record c {
  consecutive_interruption_count = c.consecutive_interruption_count + 1;
  interruption_signaled = false;
}

-- `run_pipeline_stream` starts the stream under the next turn id.
unfoldable pub next_turn : Call → Call
next_turn c = record c { current_turn_id = c.current_turn_id + 1 }

-- After the gate: resume the interrupted reply, or give it up. Otherwise keep what is pending.
unfoldable pub override :
    PipelineConfig → List RefereeResult → DeciderAction → Call → DeciderAction × Call
unfolding resumes has_text resume_reply
override config results action c =
    if resumes config results action c
    then (resume_reply, c)
    else if config.auto_restructure_on_interrupt && has_text c.interrupt_remaining_text
    then (action, record c { interrupt_remaining_text = none })
    else (action, c)

flag : Bool → Text
flag true = text "True"
flag false = text "False"

module _ (env : Surroundings) {Number : Type 0} (config : Config env.re.Pattern Number) where
  unfoldable pub say : Text → Action Bool
  say said = play_tts env config.interruption_rule said true

  unfoldable pub hang_up : Text → Text → Action Done
  hang_up reason initiated_by =
      emit env (text "hangup") ((text "reason", reason) ∷ (text "initiated_by", initiated_by) ∷ [])

  unfoldable pub set_cause : HangupCause → Action Done
  set_cause cause = modify (λ c. record c { hangup_cause = some cause })

  -- An `ai_reply` event; `role_config_id or None` and the empty `extracted` are left out.
  unfoldable pub emit_reply : Text → ℕ → Bool → Text → Bool → Action Done
  unfolding flag
  emit_reply said turn_id goal_achieved goal_type is_wrap_up = emit env (text "ai_reply") (
      (text "text", said)
      ∷ (text "turn_id", env.digits turn_id)
      ∷ (text "goal_achieved", flag goal_achieved)
      ∷ (text "goal_type", goal_type)
      ∷ (text "is_wrap_up", flag is_wrap_up)
      ∷ [])

  unfoldable pub say_if : Text → Action Done
  say_if phrase = if non_empty phrase then (do say phrase; pure tt) else pure tt

  -- The hangup of the line itself, whose failure is only logged, writes nothing here.
  unfoldable pub perform_handoff : Text → Text → Text → Action Done
  perform_handoff trigger_type trigger_detail phrase = do
    go_to env transferring trigger_type
    emit env (text "transfer_initiated")
        ((text "trigger_type", trigger_type) ∷ (text "trigger_detail", trigger_detail) ∷ [])
    say_if phrase
    modify (λ c. record c { transfer_reason = some trigger_type })
    emit env (text "transfer_marked") []
    go_to env end_call (text "marked_for_handoff")
    set_cause marked_for_handoff
    hang_up (text "marked_for_handoff") (text "ai")

  unfoldable pub stream : StreamKind → Reply → Action Bool
  stream kind reply =
      play_streaming env config.interruption_rule config.pipeline.default_replies kind reply

  unfoldable pub run_restructure : Text → Option Text → Reply → Action Bool
  run_restructure interrupt_text trigger reply = do
    modify next_turn
    played ← stream (record { is_restructure = true; is_eager = false }) reply
    turn_id ← gets (λ c. c.current_turn_id)
    emit_reply (final_text config.pipeline.default_replies reply) turn_id false [] false
    modify (
        add_trace
          (record (base_trace interrupt_text (final_text config.pipeline.default_replies reply)
            []) { restructure_source_text = some interrupt_text; restructure_trigger = trigger }))
    pure played

  unfoldable pub finish_wrap_up : WrapUpDecision → Action Directive
  unfolding reason_value
  finish_wrap_up decision = if decision.proceed then pure continue else (do
    say decision.closing_phrase
    emit env (text "wrap_up_completed") ((text "reason", reason_value decision.reason) ∷ [])
    go_to env end_call (text "wrap_up_completed")
    set_cause wrap_up_completed
    hang_up (text "wrap_up_completed") (text "ai")
    pure return)

  unfoldable pub count_round : TurnInput → Action Directive
  count_round input = do
    modify (λ c. record c { wrap_up_round_count = c.wrap_up_round_count + 1 })
    decision ← gets (λ c.
        evaluate_wrap_up input.draw c.wrap_up_round_count c.wrap_up_started_at config.wrap_up
          input.now)
    finish_wrap_up decision

  -- The verdict of the wrap-up referee, if it is enabled and answers in time.
  unfoldable pub wrap_up_verdict : TurnInput → Option RefereeResult
  unfolding resolve_transfer_llm
  wrap_up_verdict input =
      if config.wrap_up.referee_enabled
      then resolve_transfer_llm (some input.wrap_up_referee)
      else none

  unfoldable pub referee_ends : Action Directive
  referee_ends = do
    set_cause referee_hangup
    go_to env end_call (text "wrap_up_referee_hangup")
    hang_up (text "wrap_up_referee_hangup") (text "ai")
    pure return

  -- The farewell has played in full: the verdict may end the call, else the round is counted.
  unfoldable pub conclude : Option RefereeResult → TurnInput → Action Directive
  unfolding has_no_problem
  conclude verdict input = do
    modify (note_verdict verdict)
    if has_no_problem verdict then referee_ends else count_round input

  unfoldable pub gated_wrap_up_turn : Text → TurnInput → Action Directive
  unfolding wrap_up_verdict
  gated_wrap_up_turn user_text input = do
    modify next_turn
    go_to env in_call (text "main_stream_started")
    played ← stream (record { is_restructure = false; is_eager = false }) input.reply
    modify (add_tokens input.reply)
    modify (
        add_trace
          (record (base_trace user_text (final_text config.pipeline.default_replies input.reply)
            []) { selected_route_id = some (text "closing") }))
    turn_id ← gets (λ c. c.current_turn_id)
    emit_reply (final_text config.pipeline.default_replies input.reply) turn_id false [] true
    if played
        then conclude (wrap_up_verdict input) input
        else (do modify count_interruption; pure continue)
