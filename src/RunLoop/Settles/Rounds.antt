-- ===== src/RunLoop/Settles/Rounds.antt =====
-- The rounds of the main loop, a turn or a silence at a time: each goes on in the call, or ends it.
use isales_engine.RunLoop.{
  Call, Surroundings, Config, Action, Done, user_hangup, silence_max_reached, pure,
}
use isales_engine.RunLoop.Lifecycle.{Lifecycle, unanswered, hung_up, handed_over}
use isales_engine.RunLoop.Hoare.{
  At, Post, Hoare, seq, step_neutral, step_pure, step_gets, step_if, step_emit, step_go, step_stay,
  step_throw, step_terminate, step_read,
}
use isales_engine.RunLoop.Settles.{step_play}
use isales_engine.RunLoop.Settles.Turn.{
  Settled, in_call-live, step_cause, step_hang_up, step_say, step_say_if, step_handoff,
  step_wrap_up,
}
use isales_engine.RunLoop.Settles.Selected.{Talking}
use isales_engine.RunLoop.Settles.Gate.{step_gated_turn}
use isales_engine.RunLoop.Selection.{
  Protection, unprotected, listen_only, short_reply, decide_protection, or_else,
}
use isales_engine.RunLoop.Listening.{
  Waited, dropped, finals, silent, stop, UserAwait, user_final, silence_activation, silence_hangup,
  no_progress, await_user_or_silence, silence_outcome,
}
use isales_engine.RunLoop.Turn.{TurnInput, Directive, continue, return, trigger_value}
use isales_engine.RunLoop.Session.{
  Round, go_ahead, remote_hung_up, silence_reason, silence_ends, silence_activates, listens_only,
  answers, protected, cheap_handoff, user_turn, act_on, run_round, next, main_turn_loop,
}
use isales_engine.CallSession.{CallState, init, in_call, transferring, end_call, is_known}
use isales_engine.StateMachine.{states_equal}
use isales_engine.Realtime.Silence.{SilenceDecision, Decision}
use isales_engine.Realtime.Transfer.{TransferDecision, evaluate_transfer_cheap}
use isales_engine.Prelude.{
  length, nat_eq, text_eq, Text, text, ℕ, ◌+◌, ◌≡◌, refl, ap, ◌∙◌, ◌≢◌, Bool, true, false, Option,
  none, some, List, [], ◌∷◌,
}

-- Every state but the last may go to the end.
pub may_end : (s : CallState) → s ≢ end_call → Lifecycle s end_call
may_end init live = unanswered
may_end in_call live = hung_up
may_end transferring live = handed_over
may_end end_call live = absurd (live refl)

may_end-test : (s : CallState) → s ≢ end_call → states_equal s end_call ≡ false
may_end-test init live = refl
may_end-test in_call live = refl
may_end-test transferring live = refl
may_end-test end_call live = absurd (live refl)

module _ (env : Surroundings) {Number : Type 0} (config : Config env.re.Pattern Number) where
  abbrev top : ℕ
  top = config.pipeline.max_continuous_restructure

  abbrev pub Ended : Call → Type 0
  Ended = At top end_call 1 true top

  step_dropped : Hoare top (Talking env config) (remote_hung_up env config) (Settled top)
  unfolding remote_hung_up
  step_dropped = seq top (step_go top env (text "user_hangup") hung_up) λ _.
      seq top (step_cause top env config end_call 0 user_hangup) λ _.
        seq top (step_hang_up top env config (text "user_hangup") (text "user"))
          λ _. step_pure top return (λ c h. h)

  step_silence_ends :
      (phrase : Option Text)
      → Hoare top (Talking env config) (silence_ends env config phrase) (Settled top)
  unfolding silence_ends
  step_silence_ends phrase =
      seq top (step_say_if top env config in_call in_call-live (or_else phrase [])) λ _.
        seq top (step_gets top (silence_reason env config)) λ reason.
          seq top (step_go top env reason hung_up) λ _.
            seq top (step_cause top env config end_call 0 silence_max_reached) λ _.
              seq top (step_hang_up top env config reason (text "ai"))
                λ _. step_pure top return (λ c h. h)

  step_activates :
      (phrase : Option Text)
      → Hoare top (Talking env config) (silence_activates env config phrase) (Settled top)
  unfolding silence_activates is_known
  step_activates phrase = seq top (step_stay top env (text "silence_threshold")) λ _.
      seq top (step_gets top (λ c. c.silence_activation_count)) λ count.
        seq top (step_emit top env (text "silence_activation") _ refl refl) λ _.
          seq top (step_say top env config in_call in_call-live (or_else phrase [])) λ _.
            seq top
              (step_neutral top
                (λ c. record c { silence_activation_count = c.silence_activation_count + 1 })
                (λ c. (refl, refl, refl)))
              λ _.
                seq top (step_stay top env (text "activation_done"))
                  λ _. step_pure top continue (λ c h. h)

  step_listens : Hoare top (Talking env config) (listens_only env config) (Settled top)
  unfolding listens_only
  step_listens = seq top (step_stay top env (text "listen_only_cue")) λ _.
      seq top (step_play top env config.interruption_rule in_call in_call-live go_ahead false) λ _.
        seq top
          (step_neutral top
            (λ c. record c { consecutive_interruption_count = 0; short_reply_active = false })
            (λ c. (refl, refl, refl)))
          λ _.
            seq top (step_stay top env (text "listen_only_done"))
              λ _. step_pure top continue (λ c h. h)

  step_answers :
      (user_text : Text) (input : TurnInput) (short : Bool)
      → Hoare top (Talking env config) (answers env config user_text input short) (Settled top)
  unfolding answers
  step_answers user_text input short =
      seq top
        (step_neutral top (λ c. record c { short_reply_active = short }) (λ c. (refl, refl, refl)))
        λ _. seq top (step_stay top env (text "speech_end")) λ _. step_read top λ c.
          step_if top c.in_wrap_up (step_wrap_up top env config user_text input)
            (step_gated_turn env config user_text input)

  step_protection :
      (user_text : Text) (input : TurnInput) (p : Protection) (c : Call)
      → Talking env config c
      → Post top (Settled top) (elim p [
        | listen_only ↦ listens_only env config c
        | short_reply ↦ answers env config user_text input true c
        | unprotected ↦ answers env config user_text input false c
      ])
  step_protection user_text input listen_only c h = step_listens.apply c h
  step_protection user_text input short_reply c h = (step_answers user_text input true).apply c h
  step_protection user_text input unprotected c h = (step_answers user_text input false).apply c h

  step_cheap :
      (d : TransferDecision)
      → Hoare top (Talking env config) (cheap_handoff env config d) (Settled top)
  unfolding cheap_handoff
  step_cheap d =
      seq top (step_handoff top env config (trigger_value d.trigger_type) d.trigger_detail d.phrase)
        λ _. step_pure top return (λ c h. h)

  step_user :
      (user_text : Text) (input : TurnInput)
      → Hoare top (Talking env config) (user_turn env config user_text input) (Settled top)
  unfolding user_turn is_known protected
  step_user user_text input = seq top (step_emit top env (text "user_speech") _ refl refl) λ _.
      seq top
        (step_gets top (λ c.
          evaluate_transfer_cheap env.digits input.draw user_text (length c.session.dialog_history)
            false config.transfer))
        λ d.
          step_if top d.triggered (step_cheap d)
            (record { apply = λ c. step_protection user_text input (decide_protection config c) c })

  step_act :
      (input : TurnInput) (outcome : UserAwait)
      → Hoare top (Talking env config) (act_on env config input outcome) (Settled top)
  unfolding act_on
  step_act input UserAwait.remote_hangup = step_dropped
  step_act input (silence_hangup phrase) = step_silence_ends phrase
  step_act input (silence_activation phrase) = step_activates phrase
  step_act input (user_final user_text) = step_user user_text input
  step_act input no_progress = step_pure top continue (λ c h. h)

  step_outcome :
      (d : Option SilenceDecision)
      → Hoare top (Talking env config) (silence_outcome d) (λ _. Talking env config)
  unfolding silence_outcome
  step_outcome none = step_throw top in_call in_call-live
  step_outcome (some d) = by_decision d.decision
    where
      by_decision :
          (x : Decision)
          → Hoare top
              (Talking env config)
              (elim x [
                | Decision.activate ↦ pure (silence_activation d.phrase)
                | Decision.hangup ↦ pure (silence_hangup d.phrase)
                | Decision.wait ↦ pure no_progress
              ])
              (λ _. Talking env config)
      by_decision Decision.activate = step_pure top (silence_activation d.phrase) (λ c h. h)
      by_decision Decision.hangup = step_pure top (silence_hangup d.phrase) (λ c h. h)
      by_decision Decision.wait = step_pure top no_progress (λ c h. h)

  step_awaits :
      (waited : Waited)
      → Hoare top
          (Talking env config)
          (await_user_or_silence config.silence config.interruption_whitelist waited)
          (λ _. Talking env config)
  unfolding await_user_or_silence
  step_awaits dropped = step_pure top UserAwait.remote_hangup (λ c h. h)
  step_awaits (finals first queued) = step_pure top _ (λ c h. h)
  step_awaits (silent elapsed) = step_read top (λ c. step_outcome _)
  step_awaits stop = step_terminate top in_call in_call-live

  -- A round of the main loop goes on in the call, or ends it.
  step_round :
      (round : Round) → Hoare top (Talking env config) (run_round env config round) (Settled top)
  unfolding run_round
  step_round round = seq top (step_awaits round.waited) (step_act round.turn)

  step_next :
      (rest : Action Done)
      → Hoare top (Talking env config) rest (λ _. Ended)
      → (directive : Directive)
      → Hoare top (Settled top directive) (next env config directive rest) (λ _. Ended)
  unfolding next
  step_next rest more continue = more
  step_next rest more return = step_pure top tt (λ c h. h)

  pub not_ended :
      {s : CallState} {n : ℕ} {k : Bool} {b : ℕ} (c : Call)
      → s ≢ end_call
      → At top s n k b c
      → states_equal c.session.state end_call ≡ false
  not_ended {s} c live h = ap (λ x. states_equal x end_call) h.state ∙ may_end-test s live

  -- The main loop ends only with the call.
  pub step_loop :
      (rounds : List Round)
      → Hoare top (Talking env config) (main_turn_loop env config rounds) (λ _. Ended)
  unfolding main_turn_loop
  step_loop [] = record {
    apply = λ c h. rw (not_ended c in_call-live h) (in_call, in_call-live, h);
  }
  step_loop (round ∷ rounds) = record {
    apply = λ c h. rw (not_ended c in_call-live h) (
        let both =
          seq top (step_round round)
            (step_next (main_turn_loop env config rounds) (step_loop rounds)) in
        both.apply c h);
  }
