-- ===== src/RunLoop/Settles/Turn.antt =====
-- What the parts of a turn keep: a turn goes on in the call, or ends it with one hangup.
use isales_engine.RunLoop.{Call, Surroundings, HangupCause, Config}
use isales_engine.RunLoop.Lifecycle.{marked, hung_up, handed_over}
use isales_engine.RunLoop.Hoare.{
  At, Hoare, seq, step_modify, step_neutral, step_pure, step_gets, step_if, step_event, step_emit,
  step_go, step_stay, At-caused, At-relax,
}
use isales_engine.RunLoop.Settles.{step_play, step_stream}
use isales_engine.RunLoop.Playing.{Reply, StreamKind, final_text}
use isales_engine.RunLoop.Turn.{
  TurnInput, Directive, continue, return, say, say_if, hang_up, set_cause, emit_reply,
  perform_handoff, stream, run_restructure, finish_wrap_up, count_round, referee_ends, conclude,
  gated_wrap_up_turn, has_no_problem, note_verdict, wrap_up_verdict, next_turn, add_trace,
  add_tokens, count_interruption, base_trace,
}
use isales_engine.CallSession.{CallState, in_call, transferring, end_call, is_known}
use isales_engine.Realtime.WrapUp.{WrapUpDecision, evaluate_wrap_up}
use isales_engine.Streaming.Types.{RefereeResult}
use isales_engine.Prelude.{
  nat_eq, text_eq, Text, text, non_empty, ℕ, ◌+◌, refl, ◌≢◌, Bool, true, false, Option, none, some,
  [],
}

module _ (top : ℕ) where
  -- How a turn leaves the call that it found in conversation.
  abbrev pub Settled : Directive → Call → Type 0
  Settled continue = At top in_call 0 false top
  Settled return = At top end_call 1 true top

pub in_call-live : in_call ≢ end_call
in_call-live h = cc

pub transferring-live : transferring ≢ end_call
transferring-live h = cc

module _ (top : ℕ) (env : Surroundings) {Number : Type 0} (config : Config env.re.Pattern Number)
    {k : Bool} {b : ℕ} where
  pub step_cause :
      (s : CallState) (n : ℕ) (cause : HangupCause)
      → Hoare top (At top s n k b) (set_cause env config cause) (λ _. At top s n true b)
  unfolding set_cause
  step_cause s n cause = step_modify top _ (λ c. At-caused top c cause)

  pub step_hang_up :
      (reason initiated_by : Text)
      → Hoare top
          (At top end_call 0 k b)
          (hang_up env config reason initiated_by)
          (λ _. At top end_call 1 k b)
  unfolding hang_up is_known
  step_hang_up reason initiated_by = step_event top env (text "hangup") _ refl

  pub step_say :
      (s : CallState)
      → s ≢ end_call
      → (said : Text) → Hoare top (At top s 0 k b) (say env config said) (λ _. At top s 0 k b)
  unfolding say
  step_say s live said = step_play top env config.interruption_rule s live said true

  pub step_say_if :
      (s : CallState)
      → s ≢ end_call
      → (said : Text) → Hoare top (At top s 0 k b) (say_if env config said) (λ _. At top s 0 k b)
  unfolding say_if
  step_say_if s live said =
      step_if top (non_empty said)
        (seq top (step_say s live said) (λ _. step_pure top tt (λ c h. h)))
        (step_pure top tt (λ c h. h))

  pub step_reply :
      (said : Text) (turn_id : ℕ) (goal : Bool) (goal_type : Text) (wrap_up : Bool)
      → Hoare top
          (At top in_call 0 k b)
          (emit_reply env config said turn_id goal goal_type wrap_up)
          (λ _. At top in_call 0 k b)
  unfolding emit_reply is_known
  step_reply said turn_id goal goal_type wrap_up = step_emit top env (text "ai_reply") _ refl refl

  pub step_sound :
      (kind : StreamKind) (reply : Reply)
      → Hoare top (At top in_call 0 k b) (stream env config kind reply) (λ _. At top in_call 0 k b)
  unfolding stream
  step_sound kind reply =
      step_stream top env config.interruption_rule in_call in_call-live
        config.pipeline.default_replies kind reply

  pub step_restructure :
      (again : Text) (trigger : Option Text) (reply : Reply)
      → Hoare top
          (At top in_call 0 k b)
          (run_restructure env config again trigger reply)
          (λ _. At top in_call 0 k b)
  unfolding run_restructure next_turn add_trace
  step_restructure again trigger reply =
      let said : Text = final_text config.pipeline.default_replies reply in
      seq top (step_neutral top next_turn (λ c. (refl, refl, refl))) λ _.
        seq top (step_sound (record { is_restructure = true; is_eager = false }) reply) λ played.
          seq top (step_gets top (λ c. c.current_turn_id)) λ turn_id.
            seq top (step_reply said turn_id false [] false) λ _.
              seq top
                (step_neutral top
                  (add_trace (record (base_trace again said []) {
                    restructure_source_text = some again;
                    restructure_trigger = trigger;
                  }))
                  (λ c. (refl, refl, refl)))
                λ _. step_pure top played (λ c h. h)

module _ (top : ℕ) (env : Surroundings) {Number : Type 0} (config : Config env.re.Pattern Number)
    {k : Bool} {b : ℕ} where
  -- A handoff ends the call with its one hangup.
  pub step_handoff :
      (trigger detail phrase : Text)
      → Hoare top
          (At top in_call 0 k b)
          (perform_handoff env config trigger detail phrase)
          (λ _. At top end_call 1 true b)
  unfolding perform_handoff is_known
  step_handoff trigger detail phrase = seq top (step_go top env trigger marked) λ _.
      seq top (step_emit top env (text "transfer_initiated") _ refl refl) λ _.
        seq top (step_say_if top env config transferring transferring-live phrase) λ _.
          seq top
            (step_neutral top (λ c. record c { transfer_reason = some trigger })
              (λ c. (refl, refl, refl)))
            λ _. seq top (step_emit top env (text "transfer_marked") _ refl refl) λ _.
              seq top (step_go top env (text "marked_for_handoff") handed_over) λ _.
                seq top (step_cause top env config end_call 0 _)
                  λ _. step_hang_up top env config (text "marked_for_handoff") (text "ai")

module _ (top : ℕ) (env : Surroundings) {Number : Type 0} (config : Config env.re.Pattern Number)
    {k : Bool} where
  step_finish :
      (decision : WrapUpDecision)
      → Hoare top (At top in_call 0 k top) (finish_wrap_up env config decision) (Settled top)
  unfolding finish_wrap_up is_known
  step_finish decision = step_if top decision.proceed (step_pure top continue (At-relax top)) (
      seq top (step_say top env config in_call in_call-live decision.closing_phrase) λ _.
        seq top (step_emit top env (text "wrap_up_completed") _ refl refl) λ _.
          seq top (step_go top env (text "wrap_up_completed") hung_up) λ _.
            seq top (step_cause top env config end_call 0 _) λ _.
              seq top (step_hang_up top env config (text "wrap_up_completed") (text "ai"))
                λ _. step_pure top return (λ c h. h))

  step_count :
      (input : TurnInput)
      → Hoare top (At top in_call 0 k top) (count_round env config input) (Settled top)
  unfolding count_round
  step_count input =
      seq top
        (step_neutral top (λ c. record c { wrap_up_round_count = c.wrap_up_round_count + 1 })
          (λ c. (refl, refl, refl)))
        λ _.
          seq top
            (step_gets top (λ c.
              evaluate_wrap_up input.draw c.wrap_up_round_count c.wrap_up_started_at config.wrap_up
                input.now))
            step_finish

  step_referee_ends : Hoare top (At top in_call 0 k top) (referee_ends env config) (Settled top)
  unfolding referee_ends
  step_referee_ends = seq top (step_cause top env config in_call 0 _) λ _.
      seq top (step_go top env (text "wrap_up_referee_hangup") hung_up) λ _.
        seq top (step_hang_up top env config (text "wrap_up_referee_hangup") (text "ai"))
          λ _. step_pure top return (λ c h. h)

  noted :
      (verdict : Option RefereeResult) (c : Call)
      → At top in_call 0 k top c
      → At top in_call 0 k top (note_verdict verdict c)
  unfolding note_verdict
  noted none c h = h
  noted (some result) c h = h

  step_conclude :
      (verdict : Option RefereeResult) (input : TurnInput)
      → Hoare top (At top in_call 0 k top) (conclude env config verdict input) (Settled top)
  unfolding conclude
  step_conclude verdict input =
      seq top (step_modify top (note_verdict verdict) (noted verdict))
        λ _. step_if top (has_no_problem verdict) step_referee_ends (step_count input)

  -- A turn of the wrap-up goes on in the call, or ends it.
  pub step_wrap_up :
      (user_text : Text) (input : TurnInput)
      → Hoare top
          (At top in_call 0 k top)
          (gated_wrap_up_turn env config user_text input)
          (Settled top)
  unfolding gated_wrap_up_turn next_turn add_tokens add_trace count_interruption
  step_wrap_up user_text input =
      let said : Text = final_text config.pipeline.default_replies input.reply in
      seq top (step_neutral top next_turn (λ c. (refl, refl, refl))) λ _.
        seq top (step_stay top env (text "main_stream_started")) λ _.
          seq top
            (step_sound top env config (record { is_restructure = false; is_eager = false })
              input.reply)
            λ played.
              seq top (step_neutral top (add_tokens input.reply) (λ c. (refl, refl, refl))) λ _.
                seq top
                  (step_neutral top
                    (add_trace (record (base_trace user_text said []) {
                      selected_route_id = some (text "closing");
                    }))
                    (λ c. (refl, refl, refl)))
                  λ _. seq top (step_gets top (λ c. c.current_turn_id)) λ turn_id.
                    seq top (step_reply top env config said turn_id false [] true) λ _.
                      step_if top played (step_conclude (wrap_up_verdict env config input) input) (
                        seq top (step_neutral top count_interruption (λ c. (refl, refl, refl)))
                          λ _. step_pure top continue (At-relax top))
