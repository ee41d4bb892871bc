-- ===== src/RunLoop/Laws/Unanswered.antt =====
-- A caller who barges into the phrase of a silence activation.
use isales_engine.RunLoop.{
  Call, Surroundings, Config, Heard, partial, final, Ending, finished, failed, stopped, playing,
  cancel_requested, Outcome, returned, emit, go_to, modify, gets, pure, ◌>>=◌,
}
use isales_engine.RunLoop.Lifecycle.{with_event}
use isales_engine.RunLoop.Hoare.{event_at, emit-known}
use isales_engine.RunLoop.Monitor.{
  hear_all, hear, judge, interrupt, on_verdict, listens, or_now, cancel_task, is_none,
}
use isales_engine.RunLoop.Playing.{play_tts, ended}
use isales_engine.RunLoop.Selection.{or_else}
use isales_engine.RunLoop.Turn.{TurnInput, Directive, continue, say}
use isales_engine.RunLoop.Gate.{run_gated_turn}
use isales_engine.RunLoop.Session.{silence_activates, answers}
use isales_engine.RunLoop.Laws.Dropped.{
  SameReply, hear_all-SameReply, run_gated_turn-signaled, after_gate-signaled,
}
use isales_engine.RunLoop.Laws.Silence.{then_runs, stays}
use isales_engine.CallSession.{in_call, is_known}
use isales_engine.Realtime.InterruptionRules.{Rule, evaluate_partial, triggered}
use isales_engine.Prelude.Int.{pos}
use isales_engine.Prelude.{
  length, nat_eq, text_eq, Text, text, strip, non_empty, Dict, ℕ, ◌+◌, ◌≡◌, refl, sym, ap, ◌∙◌,
  subst, ◌≢◌, Bool, true, false, ◌&&◌, Option, none, some, List, [], ◌∷◌, ◌++◌, arith,
}

listens-signaled : (c : Call) → c.interruption_signaled ≡ true → listens c ≡ false
unfolding listens
listens-signaled c h = ground (arith, h)

listens-attentive :
    (c : Call)
    → c.monitoring ≡ true
    → c.interruption_signaled ≡ false
    → c.current_speaking_task ≡ some playing
    → listens c ≡ true
unfolding listens is_none
listens-attentive c m s t = simp (m, s, t) (ground arith)

module _ (env : Surroundings) (rule : Rule env.re.Pattern) where
  hear-signaled :
      (said : Text) (now : ℕ) (c : Call)
      → c.interruption_signaled ≡ true
      → hear env rule (partial said now) c ≡ c
  unfolding hear
  hear-signaled said now c h =
      let deaf : (listens c && non_empty (strip said)) ≡ false = rw (listens-signaled c h) refl in
      rw deaf refl

  -- Once the signal is set, the monitor reads on and does nothing.
  hear_all-signaled :
      (hs : List Heard) (c : Call)
      → c.interruption_signaled ≡ true
      → (hear_all env rule hs c).current_speaking_task ≡ c.current_speaking_task
  unfolding hear_all
  hear_all-signaled [] c h = refl
  hear_all-signaled (final ∷ hs) c h =
      unfold hear in hear_all-signaled hs (record c { current_user_speech_started_ms = none }) h
  hear_all-signaled (partial said now ∷ hs) c h =
      ap (λ d. (hear_all env rule hs d).current_speaking_task) (hear-signaled said now c h)
      ∙ hear_all-signaled hs c h

module _ (env : Surroundings) {Number : Type 0} (config : Config env.re.Pattern Number) where
  -- The monitor runs, and no signal is pending.
  abbrev pub IsAttentive : Call → Type 0
  IsAttentive c = (c.monitoring ≡ true) × (c.interruption_signaled ≡ false)

  -- The next playback brings a partial, the rule tree takes it for an interruption, and no manual
  -- hangup comes during it.
  abbrev pub IsCut : Call → Type 0
  IsCut c =
      (heard : Text) × (now : ℕ) × (more : List Heard) × (ending : Ending) × (env.playback
          (length c.spoken)
        ≡ record { heard = partial heard now ∷ more; ending = ending })
      × (non_empty (strip heard) ≡ true)
      × ((evaluate_partial env.re (strip heard) (pos (or_now c.current_user_speech_started_ms now))
            (pos now) config.interruption_rule).verdict
          ≡ triggered)
      × (ending ≢ stopped)

  module _ (said : Text) (c : Call) (attentive : IsAttentive c) (cut : IsCut c) where
    abbrev heard : Text
    heard = strip cut.0

    abbrev started : Call
    started = record c { spoken = c.spoken ++ said ∷ []; current_speaking_task = some playing }

    abbrev anchored : Call
    anchored = record started {
      current_user_speech_started_ms = some (or_now c.current_user_speech_started_ms cut.1);
      interruption_signaled = true;
    }

    abbrev fields : Dict Text Text
    fields =
        (text "interrupted_event_id", env.digits c.current_turn_id)
        ∷ (text "user_text_at_interruption", heard)
        ∷ []

    abbrev interrupted : Call
    interrupted = record anchored {
      session = with_event (event_at env (text "interruption") fields anchored) c.session;
      current_speaking_task = some cancel_requested;
    }

    heeded : (listens started && non_empty heard) ≡ true
    heeded = rw (listens-attentive started attentive.0 attentive.1 refl, cut.5) refl

    triggers :
        on_verdict env
          (evaluate_partial env.re heard
            (pos (or_now c.current_user_speech_started_ms cut.1))
            (pos cut.1)
            config.interruption_rule).verdict
          heard
          (record anchored { interruption_signaled = c.interruption_signaled })
        ≡ interrupted
    unfolding on_verdict interrupt cancel_task is_known
    triggers = rw cut.6 (rw (emit-known env (text "interruption") fields anchored refl) refl)

    first_heard : hear env config.interruption_rule (partial cut.0 cut.1) started ≡ interrupted
    unfolding hear judge
    first_heard = rw heeded triggers

    cancels :
        (ending : Ending) (d : Call)
        → ending ≢ stopped
        → ended env config.interruption_rule (some cancel_requested) ending d ≡ (returned false, d)
    unfolding ended pure
    cancels finished d h = refl
    cancels failed d h = refl
    cancels stopped d h = absurd (h refl)

    abbrev ends : Call → Outcome Bool × Call
    ends d =
        ended env config.interruption_rule d.current_speaking_task cut.3
          (record d { current_speaking_task = none })

    abbrev pub after : Call
    after = hear_all env config.interruption_rule cut.2 interrupted

    ends_cut : ends after ≡ (returned false, record after { current_speaking_task = none })
    unfolding ended pure
    ends_cut =
        let cut_off : after.current_speaking_task ≡ some cancel_requested =
          hear_all-signaled env config.interruption_rule cut.2 interrupted refl in
        ap
          (λ task.
            ended env config.interruption_rule task cut.3
              (record after { current_speaking_task = none }))
          cut_off
        ∙ cancels cut.3 (record after { current_speaking_task = none }) cut.7

    pub says_cut :
        say env config said c ≡ (returned false, record after { current_speaking_task = none })
    unfolding say play_tts hear_all
    says_cut =
        rw cut.4
          (ap (λ d. ends (hear_all env config.interruption_rule cut.2 d)) first_heard ∙ ends_cut)

  module _ (phrase : Option Text) (c : Call) (here : c.session.state ≡ in_call)
      (attentive : IsAttentive c) (cut : IsCut c) where
    abbrev noted : Call
    noted = record c {
      session =
          with_event
            (event_at env (text "silence_activation")
              ((text "text", or_else phrase [])
                ∷ (text "activation_index", env.digits c.silence_activation_count)
                ∷ [])
              c)
            c.session;
    }

    abbrev activated : Call
    activated = record (after (or_else phrase []) noted attentive cut) {
      current_speaking_task = none;
      silence_activation_count =
          (after (or_else phrase []) noted attentive cut).silence_activation_count + 1;
    }

    heard_on :
        SameReply
          (interrupted (or_else phrase []) noted attentive cut)
          (after (or_else phrase []) noted attentive cut)
    heard_on =
        hear_all-SameReply env config.interruption_rule cut.2
          (interrupted (or_else phrase []) noted attentive cut)

    activates_cut : silence_activates env config phrase c ≡ (returned continue, activated)
    unfolding silence_activates modify gets pure is_known
    activates_cut =
        then_runs (go_to env in_call (text "silence_threshold")) _ (stays env in_call _ c here) (
          then_runs (gets (λ x. x.silence_activation_count)) _ refl (
            then_runs (emit env (text "silence_activation") _) _
              (emit-known env (text "silence_activation") _ c refl)
              (then_runs (say env config (or_else phrase [])) _
                (says_cut (or_else phrase []) noted attentive cut)
                (then_runs (modify _) _ refl (
                  then_runs (go_to env in_call (text "activation_done")) _
                    (stays env in_call _ activated (heard_on.state ∙ here)) refl)))))

    answers_run :
        (user_text : Text) (input : TurnInput) (short : Bool)
        → activated.in_wrap_up ≡ false
        → answers env config user_text input short activated
          ≡ run_gated_turn env config user_text input
              (record activated { short_reply_active = short })
    unfolding answers modify
    answers_run user_text input short main =
        then_runs (modify (λ x. record x { short_reply_active = short })) _ refl (
          then_runs (go_to env in_call (text "speech_end")) _
            (stays env in_call _ (record activated { short_reply_active = short })
              (heard_on.state ∙ here))
            (rw main refl))

    -- A caller in conversation who barges into the phrase of a silence activation, with no manual
    -- hangup during it, gets no answer: where the words that come next are to be answered, which
    -- neither a handoff by keyword or round count nor a cue that only listens has taken before, their
    -- turn is dropped whatever the judgments, as long as its gate does not fail or stop. Nothing is
    -- spoken but the phrase, and an interruption is counted.
    pub activation-unanswered :
        (user_text : Text) (input : TurnInput) (short : Bool)
        → c.in_wrap_up ≡ false
        → input.gate_ending ≡ finished
        → let (r, d) =
            (silence_activates env config phrase >>= λ _. answers env config user_text input short)
              c in
          (r ≡ returned continue)
          × (d.spoken ≡ c.spoken ++ or_else phrase [] ∷ [])
          × (d.consecutive_interruption_count ≡ c.consecutive_interruption_count + 1)
    activation-unanswered user_text input short main ends_well =
        let asked : Call = record activated { short_reply_active = short } in
        let quiet : activated.in_wrap_up ≡ false = heard_on.wrap_up ∙ main in
        let signaled : asked.interruption_signaled ≡ true = heard_on.signal refl in
        let dropped =
          run_gated_turn-signaled env config user_text input asked ends_well
            (after_gate-signaled env config user_text input asked signaled) in
        let runs = answers_run user_text input short quiet in
        subst
          (λ (x : Outcome Directive × Call).
            (x.0 ≡ returned continue)
            × (x.1.spoken ≡ c.spoken ++ or_else phrase [] ∷ [])
            × (x.1.consecutive_interruption_count ≡ c.consecutive_interruption_count + 1))
          (sym (then_runs (silence_activates env config phrase) _ activates_cut runs))
          (
            dropped.0,
            dropped.1 ∙ heard_on.spoken,
            dropped.3 ∙ ap (λ n. n + 1) heard_on.interruptions,
          )
