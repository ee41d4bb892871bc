-- ===== src/RunLoop/Laws/FailOpen.antt =====
-- Referees that fail never end a call.
use isales_engine.RunLoop.{
  Call, Surroundings, Config, PipelineConfig, Awaited, timed_out, raised, Outcome, returned, threw,
  cancelled, waiting,
}
use isales_engine.RunLoop.Lifecycle.{hangups}
use isales_engine.RunLoop.Hoare.{Post, Hoare, seq, step_if}
use isales_engine.RunLoop.Settles.Selected.{Talking, Stays, step_dialogue}
use isales_engine.RunLoop.Settles.Gate.{step_await, step_barged, override-Talking}
use isales_engine.RunLoop.Selection.{
  GatedSelection, select_gated_route, dialogue_route, gate_filler, resumes, has_text,
}
use isales_engine.RunLoop.Listening.{await_referees, await_one, resolve_transfer_llm}
use isales_engine.RunLoop.Turn.{TurnInput, Directive, continue, override}
use isales_engine.RunLoop.Gate.{
  transfer_detected, run_gated_turn, judged, run_selected, run_route, detected, detector_task,
}
use isales_engine.CallSession.{in_call, end_call}
use isales_engine.Realtime.Transfer.{TransferDecision}
use isales_engine.Pipeline.Decider.{DeciderAction, RoutingRule, resume, decide}
use isales_engine.Pipeline.Decider.Laws.{reported, Fires, decide-unmatched}
use isales_engine.Streaming.Types.{RefereeResult, fail_open, effective_category}
use isales_engine.Prelude.{
  Bool-cases, All, nat_eq, text_eq, Text, ℕ, ◌≡◌, refl, sym, ◌∙◌, subst, ◌≢◌, ◌⊎◌, inl, inr, false,
  ◌&&◌, ◌||◌, Option, none, some, List, [], ◌∷◌, arith,
}

-- The task timed out or raised.
abbrev pub HasFailed : Awaited RefereeResult → Type 0
HasFailed task = (task ≡ timed_out) ⊎ (task ≡ raised)

abbrev IsBlank : RefereeResult → Type 0
IsBlank result = result.category ≡ none

await_one-IsBlank :
    (label : Text) (task : Awaited RefereeResult) → HasFailed task → IsBlank (await_one label task)
unfolding await_one fail_open
await_one-IsBlank label task (inl late) = rw late refl
await_one-IsBlank label task (inr broken) = rw broken refl

await_referees-IsBlank :
    (labels : List Text) (tasks : List (Awaited RefereeResult))
    → All HasFailed tasks
    → All IsBlank (await_referees labels tasks)
unfolding await_referees
await_referees-IsBlank [] tasks h = tt
await_referees-IsBlank (l ∷ ls) [] h = tt
await_referees-IsBlank (l ∷ ls) (t ∷ ts) h =
    (await_one-IsBlank l t h.0, await_referees-IsBlank ls ts h.1)

blank_report :
    (label category : Text) (results : List RefereeResult)
    → All IsBlank results
    → reported label results ≢ some (some category)
blank_report label category [] blank e = cc
blank_report label category (r ∷ rs) blank e =
    ground (arith, blank_report label category rs blank.1, blank.0)

blank_rule :
    (results : List RefereeResult)
    → All IsBlank results
    → (rule : RoutingRule) → ¬ Fires results rule
blank_rule results blank rule f = blank_report f.label f.category results blank f.given

blank_rules :
    (results : List RefereeResult)
    → All IsBlank results
    → (rules : List RoutingRule) → All (λ r. ¬ Fires results r) rules
blank_rules results blank [] = tt
blank_rules results blank (r ∷ rs) = (blank_rule results blank r, blank_rules results blank rs)

blank_filler :
    (config : PipelineConfig) (results : List RefereeResult)
    → All IsBlank results
    → gate_filler config results ≡ false
unfolding gate_filler effective_category
blank_filler config [] blank = refl
blank_filler config (r ∷ rs) blank = rw (blank.0) (blank_filler config rs blank.1)

module _ (env : Surroundings) {Number : Type 0} (config : Config env.re.Pattern Number)
    (user_text : Text) (input : TurnInput) where
  abbrev top : ℕ
  top = config.pipeline.max_continuous_restructure

  -- The turn goes on, or is cut short by an exception or a manual hangup, in a call that has not
  -- ended.
  abbrev pub GoesOn : Outcome Directive × Call → Type 0
  GoesOn (returned directive, c) =
      (directive ≡ continue) × (c.session.state ≡ in_call) × (hangups c.session ≡ 0)
  GoesOn (threw, c) = (c.session.state ≢ end_call) × (hangups c.session ≡ 0)
  GoesOn (cancelled, c) = (c.session.state ≢ end_call) × (hangups c.session ≡ 0)
  GoesOn (waiting, c) = (c.session.state ≢ end_call) × (hangups c.session ≡ 0)

  goes_on : (r : Outcome Directive) (c : Call) → Post top (Stays env config) (r, c) → GoesOn (r, c)
  goes_on (returned d) c h = (h.0, h.1.state, h.1.hung)
  goes_on threw c (s, live, h) = (λ e. live (sym h.state ∙ e), h.hung)
  goes_on cancelled c (s, live, h) = (λ e. live (sym h.state ∙ e), h.hung)
  goes_on waiting c (s, live, h) = (λ e. live (sym h.state ∙ e), h.hung)

  module _
      (undetected : (config.transfer.intent_enabled || config.transfer.llm_enabled) ≡ false) where
    undetected_task :
        (sel : GatedSelection)
        → detected (resolve_transfer_llm (detector_task env config input)) sel ≡ none
    unfolding detector_task resolve_transfer_llm detected
    undetected_task sel = rw undetected refl

    step_none :
        (results : List RefereeResult) (d : Option TransferDecision)
        → d ≡ none
        → Hoare top
            (Talking env config)
            (elim d [
              | some x ↦
                  transfer_detected env config user_text input results
                    (resume none)
                    (select_gated_route config.pipeline (resume none))
                    x
              | none ↦
                  run_route env config user_text input results
                    (resume none)
                    (select_gated_route config.pipeline (resume none))
            ])
            (Stays env config)
    unfolding run_route select_gated_route dialogue_route
    step_none results none e =
        step_dialogue env config user_text input results (resume none)
          (select_gated_route config.pipeline (resume none))
    step_none results (some x) e = absurd (let impossible : ⊥ = cc in impossible)

    step_fail_open :
        (results : List RefereeResult)
        → Hoare top
            (Talking env config)
            (run_selected env config user_text input results
              (resume none)
              (select_gated_route config.pipeline (resume none)))
            (Stays env config)
    unfolding run_selected
    step_fail_open results =
        step_none results _ (undetected_task (select_gated_route config.pipeline (resume none)))

    not_resumed :
        (results : List RefereeResult) (action : DeciderAction) (c : Call)
        → All IsBlank results
        → (override config.pipeline results action c).0 ≡ action
    unfolding override resumes
    not_resumed results action c blank =
        rw (blank_filler config.pipeline results blank)
          (elim (Bool-cases (
            config.pipeline.auto_restructure_on_interrupt && has_text c.interrupt_remaining_text)) [
              | inl abandoned ↦ rw abandoned refl
              | inr clean ↦ rw clean refl
            ])

    step_blank :
        (results : List RefereeResult)
        → All IsBlank results
        → Hoare top
            (Talking env config)
            (judged env config user_text input results)
            (Stays env config)
    unfolding judged
    step_blank results blank = record {
      apply = λ c h.
          let unmatched : decide results config.pipeline.routing_rules ≡ resume none =
            (decide-unmatched results config.pipeline.routing_rules).1
              (blank_rules results blank config.pipeline.routing_rules) in
          rw (unmatched, not_resumed results (resume none) c blank)
            ((step_fail_open results).apply (override config.pipeline results (resume none) c).1
              (override-Talking env config results (resume none) c h));
    }

    step_turn :
        All HasFailed input.referees
        → Hoare top
            (Talking env config)
            (run_gated_turn env config user_text input)
            (Stays env config)
    unfolding run_gated_turn
    step_turn failed = seq top (step_await env config input) λ results. record {
      apply = λ c h.
          let blank : All IsBlank results =
            subst (All IsBlank) (sym h.1)
              (await_referees-IsBlank config.pipeline.referee_labels input.referees failed) in
          let both =
            step_if top c.interruption_signaled (step_barged env config user_text input results)
              (step_blank results blank) in
          both.apply c h.0;
    }

    -- If every referee times out or raises and no detector of transfers is configured, a gate-first
    -- turn of a call in conversation never ends the call: where it returns, the call goes on in
    -- conversation, and where an exception or a manual hangup cuts it short, the call has not
    -- reached its end state; in no case is a hangup recorded.
    pub run_gated_turn-fail_open :
        (c : Call)
        → All HasFailed input.referees
        → Talking env config c
        → GoesOn (run_gated_turn env config user_text input c)
    run_gated_turn-fail_open c failed h =
        let r = run_gated_turn env config user_text input c in
        goes_on r.0 r.1 ((step_turn failed).apply c h)
