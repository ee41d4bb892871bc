-- ===== src/RunLoop/Session.antt =====
-- isales_engine/run_loop.py: the main loop over the rounds of the call, and the session around it,
-- from the dial to the end, with the handler of its exceptions.
use isales_engine.RunLoop.{
  Call, Surroundings, Config, Awaited, done, timed_out, raised, Ending, Outcome, returned, threw,
  cancelled, waiting, Action, Done, pure, throw, gets, modify, emit, go_to, no_answer, user_hangup,
  silence_max_reached, no_progress_timeout, ◌>>=◌, ◌>>◌, terminate,
}
use isales_engine.RunLoop.Playing.{play_tts}
use isales_engine.RunLoop.Selection.{
  unprotected, listen_only, short_reply, decide_protection, or_else,
}
use isales_engine.RunLoop.Listening.{
  TelephonyEvent, dial_and_wait_connected, Waited, UserAwait, user_final, silence_activation,
  silence_hangup, no_progress, await_user_or_silence,
}
use isales_engine.RunLoop.Turn.{
  TurnInput, Directive, continue, return, say, say_if, hang_up, set_cause, perform_handoff,
  trigger_value, gated_wrap_up_turn,
}
use isales_engine.RunLoop.Gate.{run_gated_turn}
use isales_engine.CallSession.{in_call, end_call}
use isales_engine.StateMachine.{states_equal}
use isales_engine.Realtime.Transfer.{TransferDecision, evaluate_transfer_cheap}
use isales_engine.Prelude.{
  if◌then◌else◌, length, nat_eq, text_eq, Text, text, ◌+◌, Bool, true, false, Option, none, some,
  List, [], ◌∷◌,
}

-- One round of the main loop: how the wait ends, and what the turn's awaits give.
pub record Round : Type 0 where
  pub waited : Waited
  pub turn : TurnInput

abbrev pub go_ahead : Text
go_ahead = text "您请说。"

-- What surrounds the rounds: the dial, the events of the telephony, the greeting's text, and whether
-- a manual hangup cancels the main task while the `finally` of the session awaits.
pub record Opening : Type 0 where
  pub dial_ending : Ending
  pub events : List TelephonyEvent
  pub greeting : Awaited Text
  pub stopped_while_closing : Bool

module _ (env : Surroundings) {Number : Type 0} (config : Config env.re.Pattern Number) where
  unfoldable pub remote_hung_up : Action Directive
  remote_hung_up = do
    go_to env end_call (text "user_hangup")
    set_cause env config user_hangup
    hang_up env config (text "user_hangup") (text "user")
    pure return

  unfoldable pub silence_reason : Call → Text
  silence_reason c = if c.in_wrap_up then text "wrap_up_silence" else text "silence_max_reached"

  unfoldable pub silence_ends : Option Text → Action Directive
  unfolding or_else
  silence_ends phrase = do
    say_if env config (or_else phrase [])
    reason ← gets silence_reason
    go_to env end_call reason
    set_cause env config silence_max_reached
    hang_up env config reason (text "ai")
    pure return

  unfoldable pub silence_activates : Option Text → Action Directive
  unfolding or_else
  silence_activates phrase = do
    go_to env in_call (text "silence_threshold")
    count ← gets (λ c. c.silence_activation_count)
    emit env (text "silence_activation")
        ((text "text", or_else phrase []) ∷ (text "activation_index", env.digits count) ∷ [])
    say env config (or_else phrase [])
    modify (λ c. record c { silence_activation_count = c.silence_activation_count + 1 })
    go_to env in_call (text "activation_done")
    pure continue

  -- The cue that cannot be interrupted; the caller starts with a clean slate.
  unfoldable pub listens_only : Action Directive
  listens_only = do
    go_to env in_call (text "listen_only_cue")
    play_tts env config.interruption_rule go_ahead false
    modify (λ c. record c { consecutive_interruption_count = 0; short_reply_active = false })
    go_to env in_call (text "listen_only_done")
    pure continue

  unfoldable pub answers : Text → TurnInput → Bool → Action Directive
  answers user_text input short = do
    modify (λ c. record c { short_reply_active = short })
    go_to env in_call (text "speech_end")
    λ c.
        (if c.in_wrap_up
            then gated_wrap_up_turn env config user_text input
            else run_gated_turn env config user_text input)
          c

  unfoldable pub protected : Text → TurnInput → Action Directive
  unfolding decide_protection
  protected user_text input c = elim (decide_protection config c) [
    | listen_only ↦ listens_only c
    | short_reply ↦ answers user_text input true c
    | unprotected ↦ answers user_text input false c
  ]

  unfoldable pub cheap_handoff : TransferDecision → Action Directive
  unfolding trigger_value
  cheap_handoff decision = do
    perform_handoff env config (trigger_value decision.trigger_type) decision.trigger_detail
        decision.phrase
    pure return

  unfoldable pub user_turn : Text → TurnInput → Action Directive
  unfolding evaluate_transfer_cheap
  user_turn user_text input = do
    emit env (text "user_speech") ((text "text", user_text) ∷ [])
    decision ← gets (λ c.
        evaluate_transfer_cheap env.digits input.draw user_text (length c.session.dialog_history)
          false config.transfer)
    if decision.triggered then cheap_handoff decision else protected user_text input

  unfoldable pub act_on : TurnInput → UserAwait → Action Directive
  act_on input UserAwait.remote_hangup = remote_hung_up
  act_on input (silence_hangup phrase) = silence_ends phrase
  act_on input (silence_activation phrase) = silence_activates phrase
  act_on input (user_final user_text) = user_turn user_text input
  act_on input no_progress = pure continue

  unfoldable pub run_round : Round → Action Directive
  run_round round = do
    outcome ← await_user_or_silence config.silence config.interruption_whitelist round.waited
    act_on round.turn outcome

  -- `_main_turn_loop`, over the rounds that the call has: past the last one it waits. An ended
  -- call is not waited for.
  unfoldable pub next : Directive → Action Done → Action Done
  next continue rest = rest
  next return rest = pure tt

  unfoldable pub main_turn_loop : List Round → Action Done
  main_turn_loop [] c =
      if states_equal c.session.state end_call then (returned tt, c) else (waiting, c)
  main_turn_loop (round ∷ rounds) c =
      let rest = main_turn_loop rounds in
      if states_equal c.session.state end_call
      then (returned tt, c)
      else (run_round round >>= λ directive. next directive rest) c

  unfoldable pub not_answered : Action Done
  not_answered = do
    go_to env end_call (text "no_answer")
    set_cause env config no_answer
    hang_up env config (text "no_answer") (text "ai")

  unfoldable pub do_greeting : Awaited Text → Action Done
  do_greeting (done said) = do
    emit env (text "greeting") ((text "text", said) ∷ [])
    say env config said
    pure tt
  do_greeting timed_out = throw
  do_greeting raised = throw

  -- The monitors start after the greeting, over what was heard during it.
  unfoldable pub drain_and_monitor : Call → Call
  drain_and_monitor c = record c { current_user_speech_started_ms = none; monitoring = true }

  unfoldable pub converse : Awaited Text → List Round → Action Done
  converse greeting rounds = do
    go_to env in_call (text "connected")
    do_greeting greeting
    go_to env in_call (text "greeting_done")
    modify drain_and_monitor
    main_turn_loop rounds

  -- The body of the `try`.
  unfoldable pub attempt : Opening → List Round → Action Done
  attempt opening rounds = do
    connected ← dial_and_wait_connected opening.dial_ending opening.events
    if connected then converse opening.greeting rounds else not_answered

  -- The `except` clause: the end, where the call has not ended yet, and its record.
  unfoldable pub end_it : Action Done
  end_it c =
      (if states_equal c.session.state end_call
          then pure tt
          else go_to env end_call (text "engine_internal_error"))
        c

  unfoldable pub given_cause : Call → Call
  given_cause c = record c {
    hangup_cause = elim c.hangup_cause [
      | none ↦ some no_progress_timeout
      | some cause ↦ some cause
    ];
  }

  unfoldable pub note_failure : Action Done
  note_failure = do
    modify given_cause
    cause ← gets (λ c. elim c.hangup_cause [ none ↦ [] | some cause ↦ env.cause_value cause ])
    hang_up env config cause (text "ai")

  unfoldable pub recover : Action Done
  recover = do end_it; note_failure

  unfoldable pub settle : Outcome Done × Call → Outcome Done × Call
  unfolding recover
  settle (threw, c) = recover c
  settle (returned _, c) = (returned tt, c)
  settle (cancelled, c) = (cancelled, c)
  settle (waiting, c) = (waiting, c)

  -- The `finally`: its awaits, of the pumps and of the bus, which may still deliver a manual
  -- hangup, are where a session can be cancelled after its end. One that waits is not there yet.
  unfoldable pub close : Bool → Outcome Done × Call → Outcome Done × Call
  unfolding terminate
  close false r = r
  close true (returned _, c) = terminate c
  close true (threw, c) = terminate c
  close true (cancelled, c) = terminate c
  close true (waiting, c) = (waiting, c)

  unfoldable pub run_session : Opening → List Round → Action Done
  unfolding settle close
  run_session opening rounds c =
      close opening.stopped_while_closing (settle (attempt opening rounds c))
