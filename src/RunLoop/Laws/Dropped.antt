-- ===== src/RunLoop/Laws/Dropped.antt =====
-- A turn whose caller has spoken again before the reply: it is dropped, with nothing said.
use isales_engine.RunLoop.{
  Call, Surroundings, Config, Heard, partial, final, finished, Outcome, returned, modify, pure,
  ◌>>=◌,
}
use isales_engine.RunLoop.Monitor.{hear_all, hear, judge, interrupt, on_verdict, listens, or_now}
use isales_engine.RunLoop.Turn.{
  TurnInput, Directive, continue, count_interruption, add_trace, base_trace, next_turn,
}
use isales_engine.RunLoop.Gate.{run_gated_turn, await_gate, gate_end, barged_in}
use isales_engine.CallSession.{is_known}
use isales_engine.RunLoop.Hoare.{emit-known}
use isales_engine.Realtime.InterruptionRules.{Rule, evaluate_partial, Verdict, triggered, ignored}
use isales_engine.Prelude.Int.{pos}
use isales_engine.Prelude.{
  Bool-cases, nat_eq, text_eq, Text, text, strip, non_empty, ℕ, ◌+◌, ◌≡◌, refl, ap, ◌∙◌, inl, inr,
  true, false, ◌&&◌, some, List, [], ◌∷◌,
}

-- What hearing leaves alone. A signal that is set stays set.
pub record SameReply (c d : Call) : Type 0 where
  pub spoken : d.spoken ≡ c.spoken
  pub remaining : d.interrupt_remaining_text ≡ c.interrupt_remaining_text
  pub interruptions : d.consecutive_interruption_count ≡ c.consecutive_interruption_count
  pub state : d.session.state ≡ c.session.state
  pub wrap_up : d.in_wrap_up ≡ c.in_wrap_up
  pub signal : c.interruption_signaled ≡ true → d.interruption_signaled ≡ true

SameReply-trans : (a b c : Call) → SameReply a b → SameReply b c → SameReply a c
SameReply-trans a b c p q = record {
  spoken = q.spoken ∙ p.spoken;
  remaining = q.remaining ∙ p.remaining;
  interruptions = q.interruptions ∙ p.interruptions;
  state = q.state ∙ p.state;
  wrap_up = q.wrap_up ∙ p.wrap_up;
  signal = λ h. q.signal (p.signal h);
}

SameReply-refl : (c : Call) → SameReply c c
SameReply-refl c = record {
  spoken = refl;
  remaining = refl;
  interruptions = refl;
  state = refl;
  wrap_up = refl;
  signal = λ h. h;
}

module _ (env : Surroundings) (rule : Rule env.re.Pattern) where
  interrupt-SameReply : (said : Text) (c : Call) → SameReply c (interrupt env said c)
  unfolding interrupt is_known
  interrupt-SameReply said c =
      let signaled : Call = record c { interruption_signaled = true } in
      rw
        (emit-known env (text "interruption")
          ((text "interrupted_event_id", env.digits c.current_turn_id)
            ∷ (text "user_text_at_interruption", said)
            ∷ [])
          signaled refl)
        (record {
          spoken = refl;
          remaining = refl;
          interruptions = refl;
          state = refl;
          wrap_up = refl;
          signal = λ h. refl;
        })

  on_verdict-SameReply :
      (v : Verdict) (said : Text) (c : Call) → SameReply c (on_verdict env v said c)
  unfolding on_verdict
  on_verdict-SameReply triggered said c = interrupt-SameReply said c
  on_verdict-SameReply ignored said c = SameReply-refl c

  judge-SameReply : (said : Text) (now : ℕ) (c : Call) → SameReply c (judge env rule said now c)
  unfolding judge
  judge-SameReply said now c =
      let started : ℕ = or_now c.current_user_speech_started_ms now in
      let same =
        on_verdict-SameReply (evaluate_partial env.re said (pos started) (pos now) rule).verdict
          said (record c { current_user_speech_started_ms = some started }) in
      record {
        spoken = same.spoken;
        remaining = same.remaining;
        interruptions = same.interruptions;
        state = same.state;
        wrap_up = same.wrap_up;
        signal = same.signal;
      }

  hear-SameReply : (h : Heard) (c : Call) → SameReply c (hear env rule h c)
  unfolding hear
  hear-SameReply final c = record {
    spoken = refl;
    remaining = refl;
    interruptions = refl;
    state = refl;
    wrap_up = refl;
    signal = λ h. h;
  }
  hear-SameReply (partial said now) c = elim (Bool-cases (listens c && non_empty (strip said))) [
    | inl heeded ↦ rw heeded (judge-SameReply (strip said) now c)
    | inr dropped ↦ rw dropped (SameReply-refl c)
  ]

  pub hear_all-SameReply : (hs : List Heard) (c : Call) → SameReply c (hear_all env rule hs c)
  unfolding hear_all
  hear_all-SameReply [] c = SameReply-refl c
  hear_all-SameReply (h ∷ hs) c =
      SameReply-trans c (hear env rule h c) (hear_all env rule hs (hear env rule h c))
        (hear-SameReply h c) (hear_all-SameReply hs (hear env rule h c))

module _ (env : Surroundings) {Number : Type 0} (config : Config env.re.Pattern Number)
    (user_text : Text) (input : TurnInput) (c : Call) where
  -- The call once the gate has been awaited.
  abbrev pub after_gate : Call
  after_gate =
      record (hear_all env config.interruption_rule input.gate_heard
        (record (next_turn c) { in_processing_turn = true })) { in_processing_turn = false }

  -- The turn goes on to the next wait: nothing is said, nothing is kept to be said again, and it
  -- counts as one interruption.
  abbrev pub IsDropped : Outcome Directive × Call → Type 0
  IsDropped result =
      (result.0 ≡ returned continue)
      × (result.1.spoken ≡ c.spoken)
      × (result.1.interrupt_remaining_text ≡ c.interrupt_remaining_text)
      × (result.1.consecutive_interruption_count ≡ c.consecutive_interruption_count + 1)
      × (result.1.interruption_signaled ≡ false)

  -- If the signal of an interruption is set once the referees have been awaited, the turn is
  -- dropped, whatever they judged: nothing is said, no text is kept to be voiced again, one
  -- interruption is counted, and the signal is cleared.
  pub run_gated_turn-signaled :
      input.gate_ending ≡ finished
      → after_gate.interruption_signaled ≡ true
      → IsDropped (run_gated_turn env config user_text input c)
  unfolding run_gated_turn await_gate gate_end barged_in count_interruption add_trace base_trace
      next_turn ◌>>=◌ modify pure
  run_gated_turn-signaled ends signaled =
      let same =
        hear_all-SameReply env config.interruption_rule input.gate_heard
          (record (next_turn c) { in_processing_turn = true }) in
      rw (ends, signaled)
        (refl, same.spoken, same.remaining, ap (λ n. n + 1) same.interruptions, refl)

  -- A signal that is set before the gate is still set after it.
  pub after_gate-signaled : c.interruption_signaled ≡ true → after_gate.interruption_signaled ≡ true
  unfolding next_turn
  after_gate-signaled h =
      (hear_all-SameReply env config.interruption_rule input.gate_heard
          (record (next_turn c) { in_processing_turn = true })).signal
        h
