-- ===== src/RunLoop/Gate.antt =====
-- isales_engine/run_loop.py: the gate-first turn. The replies of the candidate routes are generated
-- while the referees are awaited; the decision then releases one of them, runs a tool, voices an
-- interrupted reply again, or, if the caller spoke meanwhile, drops the turn.
use isales_engine.RunLoop.{
  Surroundings, Config, Persona, Ending, finished, failed, stopped, Awaited, Action, Done, pure,
  throw, gets, modify, emit, go_to, terminate, referee_hangup, ◌>>=◌, ◌>>◌,
}
use isales_engine.RunLoop.Monitor.{hear_all}
use isales_engine.RunLoop.Playing.{final_text}
use isales_engine.RunLoop.Selection.{
  GatedSelection, RouteKind, hangup, transfer, select_gated_route, or_else, candidates, is_some,
  assemble_interrupt_text,
}
use isales_engine.RunLoop.Listening.{await_referees, resolve_transfer_llm}
use isales_engine.RunLoop.Turn.{
  TurnInput, Directive, continue, return, trigger_value, add_trace, base_trace, gated_trace,
  add_tokens, count_interruption, next_turn, override, say, say_if, hang_up, set_cause, emit_reply,
  perform_handoff, stream, run_restructure,
}
use isales_engine.CallSession.{in_call, end_call}
use isales_engine.Pipeline.Decider.{DeciderAction, decide}
use isales_engine.Streaming.Types.{RefereeResult}
use isales_engine.Realtime.Transfer.{TransferDecision}
use isales_engine.Realtime.Choice.{choice}
use isales_engine.Prelude.{
  leb, if◌then◌else◌, nat_eq, text_eq, ◌==◌, Text, text, lookup, ◌+◌, Bool, true, false, not, ◌&&◌,
  ◌||◌, Option, none, some, List, [], ◌∷◌, map,
}

unfoldable pub is_hangup_tool : GatedSelection → Bool
is_hangup_tool sel = elim sel.tool_type [
  | none ↦ false
  | some hangup ↦ true
  | some transfer ↦ false
]

unfoldable pub is_transfer_tool : GatedSelection → Bool
is_transfer_tool sel = elim sel.tool_type [
  | none ↦ false
  | some hangup ↦ false
  | some transfer ↦ true
]

-- The detector's decision, where it is triggered and the gate has not chosen the transfer itself.
unfoldable pub detected : Option TransferDecision → GatedSelection → Option TransferDecision
unfolding is_transfer_tool
detected none sel = none
detected (some d) sel = if d.triggered && not (is_transfer_tool sel) then some d else none

module _ (env : Surroundings) {Number : Type 0} (config : Config env.re.Pattern Number) where
  abbrev ids : List Text
  ids = map (λ (e : Text × Option Persona). e.0) (candidates config.pipeline)

  -- Whether the detector of the transfer was spawned for the turn.
  unfoldable pub detector_task : TurnInput → Option (Awaited TransferDecision)
  detector_task input =
      if config.transfer.intent_enabled || config.transfer.llm_enabled
      then some input.detector
      else none

  unfoldable pub gate_end : Ending → Action Done
  unfolding terminate
  gate_end finished = pure tt
  gate_end failed = throw
  gate_end stopped = terminate

  -- The flag is set while the candidates start and the referees are awaited, and cleared on every
  -- way out.
  unfoldable pub await_gate : TurnInput → Action (List RefereeResult)
  unfolding hear_all await_referees
  await_gate input = do
    modify next_turn
    modify (λ c.
        record (hear_all env config.interruption_rule input.gate_heard
          (record c { in_processing_turn = true })) { in_processing_turn = false })
    gate_end input.gate_ending
    pure (await_referees config.pipeline.referee_labels input.referees)

  unfoldable pub barged_in : Text → TurnInput → List RefereeResult → Action Directive
  barged_in user_text input results = do
    modify count_interruption
    modify (add_trace (base_trace user_text input.main_reply_text results))
    pure continue

  module _ (user_text : Text) (input : TurnInput) (results : List RefereeResult)
      (action : DeciderAction) (sel : GatedSelection) where
    unfoldable pub trace : Text → Option Text → Action Done
    trace said restructure_text =
        modify (add_trace (gated_trace user_text said results action sel ids restructure_text))

    unfoldable pub transfer_detected : TransferDecision → Action Directive
    unfolding trigger_value
    transfer_detected d = do
      trace input.main_reply_text none
      perform_handoff env config (trigger_value d.trigger_type) d.trigger_detail d.phrase
      pure return

    unfoldable pub tool_hangup : Action Directive
    unfolding or_else
    tool_hangup = do
      set_cause env config referee_hangup
      say_if env config (or_else sel.closing_phrase (or_else sel.tool_closing_phrase []))
      trace input.main_reply_text none
      go_to env end_call (text "referee_hangup")
      hang_up env config (text "referee_hangup") (text "ai")
      pure return

    unfoldable pub tool_transfer : Action Directive
    tool_transfer = do
      trace input.main_reply_text none
      perform_handoff env config (text "referee") (text "referee_decision") []
      pure return

    -- The cap is reached: a default reply, if there is one, and the count starts over.
    unfoldable pub capped : Action Directive
    unfolding choice
    capped = do
      elim config.pipeline.default_replies [
        | [] ↦ pure true
        | r ∷ rs ↦ say env config (choice input.draw r rs)
      ]
      modify (λ c. record c { consecutive_restructure_count = 0 })
      pure continue

    unfoldable pub voice_again : Text → Action Directive
    voice_again again = do
      played ← run_restructure env config again sel.restructure_trigger input.restructured
      modify (λ c. record c { consecutive_restructure_count = c.consecutive_restructure_count + 1 })
      modify (λ c. if played then c else count_interruption c)
      pure continue

    unfoldable pub restructure : Action Directive
    unfolding assemble_interrupt_text
    restructure c =
        if leb config.pipeline.max_continuous_restructure c.consecutive_restructure_count
        then (trace input.main_reply_text none >> capped) c
        else (let (assembled, c') = assemble_interrupt_text sel.source c in
            (trace input.main_reply_text assembled
                >> elim assembled [ none ↦ pure continue | some again ↦ voice_again again ])
              c')

    -- `goal_achieved`
    abbrev pub is_closing : Bool
    is_closing = sel.route_id == text "closing"

    unfoldable pub enter_wrap_up : Text → Action Done
    unfolding or_else
    enter_wrap_up goal_type = do
      go_to env in_call (or_else (some goal_type) (text "goal_achieved"))
      modify (λ c. record c { in_wrap_up = true; wrap_up_started_at = some input.now })
      emit env (text "wrap_up_started") (
          (text "rounds_remaining", env.digits config.wrap_up.max_rounds)
          ∷ (text "seconds_remaining", env.digits config.wrap_up.max_seconds)
          ∷ [])
      emit env (text "goal_achieved") ((text "goal_type", goal_type) ∷ [])

    unfoldable pub replied : Action Directive
    unfolding or_else
    replied = do
      let goal_type = if is_closing then sel.goal_type else []
      modify
          (λ c. record c { consecutive_interruption_count = 0; consecutive_restructure_count = 0 })
      trace (final_text config.pipeline.default_replies input.reply) none
      turn_id ← gets (λ c. c.current_turn_id)
      emit_reply env config (final_text config.pipeline.default_replies input.reply) turn_id
          is_closing goal_type is_closing
      if or_else sel.then_state [] == text "WRAPPING_UP" then enter_wrap_up goal_type else pure tt
      pure continue

    unfoldable pub interrupted : Action Directive
    interrupted = do
      trace (final_text config.pipeline.default_replies input.reply) none
      turn_id ← gets (λ c. c.current_turn_id)
      emit_reply env config (final_text config.pipeline.default_replies input.reply) turn_id false
          [] false
      modify count_interruption
      pure continue

    -- A candidate's reply was buffered, any other is generated now.
    unfoldable pub release : Action Directive
    unfolding is_some lookup
    release = do
      go_to env in_call (text "main_stream_started")
      played ←
          stream env config
            (record {
              is_restructure = false;
              is_eager = is_some (lookup sel.route_id (candidates config.pipeline));
            })
            input.reply
      modify (add_tokens input.reply)
      if played then replied else interrupted

    unfoldable pub run_route : Action Directive
    unfolding is_hangup_tool
    run_route = elim sel.kind [
      | RouteKind.tool ↦ if is_hangup_tool sel then tool_hangup else tool_transfer
      | RouteKind.dialogue ↦ if sel.route_id == text "restructure" then restructure else release
    ]

    unfoldable pub run_selected : Action Directive
    run_selected = elim (detected (resolve_transfer_llm (detector_task input)) sel) [
      | some d ↦ transfer_detected d
      | none ↦ run_route
    ]

  unfoldable pub judged : Text → TurnInput → List RefereeResult → Action Directive
  unfolding override decide select_gated_route
  judged user_text input results c =
      let (action, c') =
        override config.pipeline results (decide results config.pipeline.routing_rules) c in
      run_selected user_text input results action (select_gated_route config.pipeline action) c'

  -- `_run_gated_turn`, of a turn that is not of the wrap-up
  unfoldable pub run_gated_turn : Text → TurnInput → Action Directive
  run_gated_turn user_text input = do
    results ← await_gate input
    λ c.
        (if c.interruption_signaled
            then barged_in user_text input results
            else judged user_text input results)
          c
