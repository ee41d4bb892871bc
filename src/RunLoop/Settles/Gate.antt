-- ===== src/RunLoop/Settles/Gate.antt =====
-- What a gate-first turn keeps, on each of its ways: the conversation goes on with no hangup and a
-- bounded number of restructures in a row, or the call has ended with one hangup and a cause.
use isales_engine.RunLoop.Settles.Selected.{Talking, Stays, Stays-Settled, step_selected}
use isales_engine.RunLoop.{Call, Surroundings, Config, Ending, finished, failed, stopped}
use isales_engine.RunLoop.Hoare.{
  Hoare, seq, step_modify, step_neutral, step_pure, step_if, step_throw, step_terminate, step_read,
  loosen, weaken,
}
use isales_engine.RunLoop.Settles.{hear_all-At}
use isales_engine.RunLoop.Settles.Turn.{Settled, in_call-live}
use isales_engine.RunLoop.Monitor.{hear_all}
use isales_engine.RunLoop.Selection.{select_gated_route, resumes, has_text}
use isales_engine.RunLoop.Turn.{
  TurnInput, continue, add_trace, base_trace, count_interruption, next_turn, override,
}
use isales_engine.RunLoop.Gate.{gate_end, await_gate, barged_in, judged, run_gated_turn}
use isales_engine.RunLoop.Listening.{await_referees}
use isales_engine.CallSession.{in_call}
use isales_engine.Pipeline.Decider.{DeciderAction, decide}
use isales_engine.Streaming.Types.{RefereeResult}
use isales_engine.Prelude.{
  Bool-cases, nat_eq, text_eq, Text, ℕ, ◌≡◌, refl, inl, inr, true, false, ◌&&◌, List,
}

module _ (env : Surroundings) {Number : Type 0} (config : Config env.re.Pattern Number) where
  abbrev top : ℕ
  top = config.pipeline.max_continuous_restructure

  step_gate_end :
      (ending : Ending)
      → Hoare top (Talking env config) (gate_end env config ending) (λ _. Talking env config)
  unfolding gate_end
  step_gate_end finished = step_pure top tt (λ c h. h)
  step_gate_end failed = step_throw top in_call in_call-live
  step_gate_end stopped = step_terminate top in_call in_call-live

  pub step_await :
      (input : TurnInput)
      → Hoare top (Talking env config) (await_gate env config input) (λ results c.
        Talking env config c
        × (results ≡ await_referees config.pipeline.referee_labels input.referees))
  unfolding await_gate next_turn
  step_await input = seq top (step_neutral top next_turn (λ c. (refl, refl, refl))) λ _.
      seq top
        (step_modify top
          (λ c.
            record (hear_all env config.interruption_rule input.gate_heard
              (record c { in_processing_turn = true })) { in_processing_turn = false })
          (λ c h.
            hear_all-At top env config.interruption_rule input.gate_heard
              (record c { in_processing_turn = true }) h))
        λ _. seq top (step_gate_end input.gate_ending) λ _.
          step_pure top (await_referees config.pipeline.referee_labels input.referees)
            (λ c h. (h, refl))

  pub step_barged :
      (user_text : Text) (input : TurnInput) (results : List RefereeResult)
      → Hoare top
          (Talking env config)
          (barged_in env config user_text input results)
          (Stays env config)
  unfolding barged_in count_interruption add_trace
  step_barged user_text input results =
      seq top (step_neutral top count_interruption (λ c. (refl, refl, refl))) λ _.
        seq top
          (step_neutral top (add_trace (base_trace user_text input.main_reply_text results))
            (λ c. (refl, refl, refl)))
          λ _. step_pure top continue (λ c h. (refl, h))

  pub override-Talking :
      (results : List RefereeResult) (action : DeciderAction) (c : Call)
      → Talking env config c
      → Talking env config (override config.pipeline results action c).1
  unfolding override
  override-Talking results action c h =
      elim (Bool-cases (resumes config.pipeline results action c)) [
        | inl again ↦ rw again h
        | inr other ↦
            rw other
              (elim (Bool-cases (
                config.pipeline.auto_restructure_on_interrupt
                && has_text c.interrupt_remaining_text)) [
                  | inl abandoned ↦ rw abandoned h
                  | inr clean ↦ rw clean h
                ])
      ]

  step_judged :
      (user_text : Text) (input : TurnInput) (results : List RefereeResult)
      → Hoare top (Talking env config) (judged env config user_text input results) (Settled top)
  unfolding judged
  step_judged user_text input results = record {
    apply = λ c h.
        let r = override config.pipeline results (decide results config.pipeline.routing_rules) c in
        (step_selected env config user_text input results r.0
            (select_gated_route config.pipeline r.0)).apply
          r.1 (override-Talking results (decide results config.pipeline.routing_rules) c h);
  }

  -- A gate-first turn goes on in the call, or ends it.
  pub step_gated_turn :
      (user_text : Text) (input : TurnInput)
      → Hoare top (Talking env config) (run_gated_turn env config user_text input) (Settled top)
  unfolding run_gated_turn
  step_gated_turn user_text input = seq top (step_await input) λ results.
      weaken top (λ c h. h.0)
        (step_read top λ c.
          step_if top c.interruption_signaled
            (loosen top (Stays-Settled env config) (step_barged user_text input results))
            (step_judged user_text input results))
