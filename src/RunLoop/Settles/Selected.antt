-- ===== src/RunLoop/Settles/Selected.antt =====
-- What the selected route of a gate-first turn keeps, on each of its ways: the conversation goes on
-- with no hangup and a bounded number of restructures in a row, or the call has ended with one
-- hangup and a cause.
use isales_engine.RunLoop.{Call, Surroundings, Config, referee_hangup, pure}
use isales_engine.RunLoop.Lifecycle.{hung_up}
use isales_engine.RunLoop.Hoare.{
  At, Hoare, seq, step_modify, step_neutral, step_pure, step_gets, step_if, step_emit, step_go,
  step_stay, loosen, At-relax, At-count,
}
use isales_engine.RunLoop.Settles.Turn.{
  Settled, in_call-live, step_cause, step_hang_up, step_say, step_say_if, step_reply, step_sound,
  step_restructure, step_handoff,
}
use isales_engine.RunLoop.Playing.{final_text}
use isales_engine.RunLoop.Selection.{
  GatedSelection, RouteKind, or_else, candidates, is_some, assemble_interrupt_text,
}
use isales_engine.RunLoop.Turn.{
  TurnInput, continue, return, trigger_value, add_trace, add_tokens, count_interruption, say,
  Directive,
}
use isales_engine.RunLoop.Gate.{
  detector_task, detected, trace, transfer_detected, tool_hangup, tool_transfer, capped,
  voice_again, restructure, enter_wrap_up, replied, interrupted, release, run_route, run_selected,
  is_hangup_tool,
}
use isales_engine.RunLoop.Listening.{resolve_transfer_llm}
use isales_engine.CallSession.{in_call, is_known}
use isales_engine.Pipeline.Decider.{DeciderAction}
use isales_engine.Streaming.Types.{RefereeResult}
use isales_engine.Realtime.Transfer.{TransferDecision}
use isales_engine.Realtime.Choice.{choice}
use isales_engine.Prelude.{
  leb, if◌then◌else◌, Bool-cases, nat_eq, text_eq, ◌==◌, Text, text, strip, non_empty, lookup, ℕ,
  ◌+◌, ◌<◌, ◌≡◌, refl, inl, inr, Bool, true, false, Option, none, some, List, [], ◌∷◌, arith,
}

module _ (env : Surroundings) {Number : Type 0} (config : Config env.re.Pattern Number) where
  abbrev top : ℕ
  top = config.pipeline.max_continuous_restructure

  -- In conversation.
  abbrev pub Talking : Call → Type 0
  Talking = At top in_call 0 false top

  -- The turn goes on in conversation.
  abbrev pub Stays : Directive → Call → Type 0
  Stays directive c = (directive ≡ continue) × Talking c

  pub Stays-Settled :
      (directive : Directive) (c : Call) → Stays directive c → Settled top directive c
  Stays-Settled continue c h = h.1
  Stays-Settled return c h = cc (h.0)

  module _ (user_text : Text) (input : TurnInput) (results : List RefereeResult)
      (action : DeciderAction) (sel : GatedSelection) where
    step_trace :
        {k : Bool} {b : ℕ} (said : Text) (restructure_text : Option Text)
        → Hoare top
            (At top in_call 0 k b)
            (trace env config user_text input results action sel said restructure_text)
            (λ _. At top in_call 0 k b)
    unfolding trace add_trace
    step_trace said restructure_text = step_neutral top _ (λ c. (refl, refl, refl))

    step_detected :
        (d : TransferDecision)
        → Hoare top Talking
            (transfer_detected env config user_text input results action sel d)
            (Settled top)
    unfolding transfer_detected
    step_detected d = seq top (step_trace input.main_reply_text none) λ _.
        seq top
          (step_handoff top env config (trigger_value d.trigger_type) d.trigger_detail d.phrase)
          λ _. step_pure top return (λ c h. h)

    step_tool_hangup :
        Hoare top Talking (tool_hangup env config user_text input results action sel) (Settled top)
    unfolding tool_hangup
    step_tool_hangup = seq top (step_cause top env config in_call 0 referee_hangup) λ _.
        seq top
          (step_say_if top env config in_call in_call-live
            (or_else sel.closing_phrase (or_else sel.tool_closing_phrase [])))
          λ _. seq top (step_trace input.main_reply_text none) λ _.
            seq top (step_go top env (text "referee_hangup") hung_up) λ _.
              seq top (step_hang_up top env config (text "referee_hangup") (text "ai"))
                λ _. step_pure top return (λ c h. h)

    step_tool_transfer :
        Hoare top Talking
          (tool_transfer env config user_text input results action sel)
          (Settled top)
    unfolding tool_transfer
    step_tool_transfer = seq top (step_trace input.main_reply_text none) λ _.
        seq top (step_handoff top env config (text "referee") (text "referee_decision") [])
          λ _. step_pure top return (λ c h. h)

    default_said :
        (replies : List Text)
        → Hoare top Talking
            (elim replies [ [] ↦ pure true | r ∷ rs ↦ say env config (choice input.draw r rs) ])
            (λ _. Talking)
    default_said [] = step_pure top true (λ c h. h)
    default_said (r ∷ rs) = step_say top env config in_call in_call-live (choice input.draw r rs)

    step_capped : Hoare top Talking (capped env config user_text input results action sel) Stays
    unfolding capped
    step_capped = seq top (default_said config.pipeline.default_replies) λ _.
        seq top
          (step_modify top (λ c. record c { consecutive_restructure_count = 0 })
            (λ c h. At-count top c 0 (omega arith) h))
          λ _. step_pure top continue (λ c h. (refl, h))

    step_voice :
        {b : ℕ} (again : Text)
        → b < top
        → Hoare top
            (At top in_call 0 false b)
            (voice_again env config user_text input results action sel again)
            Stays
    unfolding voice_again count_interruption
    step_voice {b} again room =
        seq top (step_restructure top env config again sel.restructure_trigger input.restructured)
          λ played.
            seq top
              (step_modify top
                (λ c. record c {
                  consecutive_restructure_count = c.consecutive_restructure_count + 1;
                })
                (λ c h.
                  At-count top c (c.consecutive_restructure_count + 1) (omega (arith, h.bounded))
                    h))
              λ _.
                seq top
                  (step_modify top (λ c. if played then c else count_interruption c)
                    (λ c h. elim (Bool-cases played) [ inl e ↦ rw e h | inr e ↦ rw e h ]))
                  λ _. step_pure top continue (λ c h. (refl, h))

    assembled-At :
        (source : Option Text) {b : ℕ} (c : Call)
        → At top in_call 0 false b c
        → At top in_call 0 false b (assemble_interrupt_text source c).1
    unfolding assemble_interrupt_text
    assembled-At source c h = elim (Bool-cases (or_else source [] == text "interrupt_remaining")) [
      | inr other ↦ rw other h
      | inl remaining ↦
          rw remaining
            (elim (Bool-cases (non_empty (strip (or_else c.interrupt_remaining_text [])))) [
              | inl some_left ↦ rw some_left h
              | inr none_left ↦ rw none_left h
            ])
    ]

    step_voice_if :
        {b : ℕ} (assembled : Option Text)
        → b < top
        → Hoare top
            (At top in_call 0 false b)
            (elim assembled [
              | none ↦ pure continue
              | some again ↦ voice_again env config user_text input results action sel again
            ])
            Stays
    step_voice_if none room = step_pure top continue (λ c h. (refl, At-relax top c h))
    step_voice_if (some again) room = step_voice again room

    counted : (c : Call) → Talking c → At top in_call 0 false c.consecutive_restructure_count c
    counted c h = record {
      mirrored = h.mirrored;
      trail = h.trail;
      state = h.state;
      hung = h.hung;
      caused = tt;
      bounded = omega arith;
      within = h.bounded;
    }

    step_restructure_route :
        Hoare top Talking (restructure env config user_text input results action sel) Stays
    unfolding restructure
    step_restructure_route = record {
      apply = λ c h. elim (Bool-cases (leb top c.consecutive_restructure_count)) [
        | inl full ↦
            rw full ((seq top (step_trace input.main_reply_text none) (λ _. step_capped)).apply c h)
        | inr room ↦ rw room (
            let r = assemble_interrupt_text sel.source c in
            (seq top (step_trace input.main_reply_text r.0)
                (λ _. step_voice_if r.0 (ground (arith, room)))).apply
              r.1 (assembled-At sel.source c (counted c h)))
      ];
    }

    step_enter :
        (goal_type : Text)
        → Hoare top Talking
            (enter_wrap_up env config user_text input results action sel goal_type)
            (λ _. Talking)
    unfolding enter_wrap_up is_known
    step_enter goal_type =
        seq top (step_stay top env (or_else (some goal_type) (text "goal_achieved"))) λ _.
          seq top
            (step_neutral top
              (λ c. record c { in_wrap_up = true; wrap_up_started_at = some input.now })
              (λ c. (refl, refl, refl)))
            λ _.
              seq top (step_emit top env (text "wrap_up_started") _ refl refl)
                λ _. step_emit top env (text "goal_achieved") _ refl refl

    step_replied : Hoare top Talking (replied env config user_text input results action sel) Stays
    unfolding replied
    step_replied =
        let said : Text = final_text config.pipeline.default_replies input.reply in
        let closing : Bool = sel.route_id == text "closing" in
        let goal_type : Text = if closing then sel.goal_type else [] in
        seq top
          (step_modify top
            (λ c. record c {
              consecutive_interruption_count = 0;
              consecutive_restructure_count = 0;
            })
            (λ c h. At-count top c 0 (omega arith) h))
          λ _. seq top (step_trace said none) λ _.
            seq top (step_gets top (λ c. c.current_turn_id)) λ turn_id.
              seq top (step_reply top env config said turn_id closing goal_type closing) λ _.
                seq top
                  (step_if top (or_else sel.then_state [] == text "WRAPPING_UP")
                    (step_enter goal_type) (step_pure top tt (λ c h. h)))
                  λ _. step_pure top continue (λ c h. (refl, h))

    step_interrupted :
        Hoare top Talking (interrupted env config user_text input results action sel) Stays
    unfolding interrupted count_interruption
    step_interrupted =
        let said : Text = final_text config.pipeline.default_replies input.reply in
        seq top (step_trace said none) λ _.
          seq top (step_gets top (λ c. c.current_turn_id)) λ turn_id.
            seq top (step_reply top env config said turn_id false [] false) λ _.
              seq top (step_neutral top count_interruption (λ c. (refl, refl, refl)))
                λ _. step_pure top continue (λ c h. (refl, h))

    step_release : Hoare top Talking (release env config user_text input results action sel) Stays
    unfolding release add_tokens
    step_release = seq top (step_stay top env (text "main_stream_started")) λ _.
        seq top
          (step_sound top env config
            (record {
              is_restructure = false;
              is_eager = is_some (lookup sel.route_id (candidates config.pipeline));
            })
            input.reply)
          λ played.
            seq top (step_neutral top (add_tokens input.reply) (λ c. (refl, refl, refl)))
              λ _. step_if top played step_replied step_interrupted

    -- A dialogue route never ends the call.
    pub step_dialogue :
        Hoare top Talking
          (if sel.route_id == text "restructure"
            then restructure env config user_text input results action sel
            else release env config user_text input results action sel)
          Stays
    step_dialogue =
        step_if top (sel.route_id == text "restructure") step_restructure_route step_release

    step_route :
        (kind : RouteKind)
        → Hoare top Talking
            (elim kind [
              | RouteKind.tool ↦
                  if is_hangup_tool sel
                  then tool_hangup env config user_text input results action sel
                  else tool_transfer env config user_text input results action sel
              | RouteKind.dialogue ↦
                  if sel.route_id == text "restructure"
                  then restructure env config user_text input results action sel
                  else release env config user_text input results action sel
            ])
            (Settled top)
    step_route RouteKind.tool = step_if top (is_hangup_tool sel) step_tool_hangup step_tool_transfer
    step_route RouteKind.dialogue = loosen top Stays-Settled step_dialogue

    step_answered :
        (d : Option TransferDecision)
        → Hoare top Talking
            (elim d [
              | some x ↦ transfer_detected env config user_text input results action sel x
              | none ↦ run_route env config user_text input results action sel
            ])
            (Settled top)
    unfolding run_route
    step_answered (some x) = step_detected x
    step_answered none = step_route sel.kind

    pub step_selected :
        Hoare top Talking (run_selected env config user_text input results action sel) (Settled top)
    unfolding run_selected
    step_selected =
        step_answered (detected (resolve_transfer_llm (detector_task env config input)) sel)
