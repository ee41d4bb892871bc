-- ===== src/RunLoop/Monitor.antt =====
-- isales_engine/run_loop.py: the partial monitor, which decides on what it hears whether the caller
-- barges in, and cancels the playback of the moment. It runs beside the main loop; what it
-- reads between two awaits of the loop finds no playback and is dropped by its guard.
use isales_engine.RunLoop.{
  Call, Heard, partial, final, Surroundings, Speaking, cancel_requested, emit,
}
use isales_engine.Realtime.InterruptionRules.{Rule, evaluate_partial, triggered, ignored, Verdict}
use isales_engine.Prelude.Int.{pos}
use isales_engine.Prelude.{
  if◌then◌else◌, nat_eq, text_eq, Text, text, strip, non_empty, ℕ, Bool, true, false, not, ◌&&◌,
  Option, none, some, List, [], ◌∷◌,
}

unfoldable pub or_now : Option ℕ → ℕ → ℕ
or_now none now = now
or_now (some started) now = started

unfoldable pub is_none {ℓ} : {A : Type ℓ} → Option A → Bool
is_none none = true
is_none (some a) = false

-- `speaking_task.cancel()`, if one is set
unfoldable pub cancel_task : Option Speaking → Option Speaking
cancel_task none = none
cancel_task (some task) = some cancel_requested

-- the guard of the monitor's loop
unfoldable pub listens : Call → Bool
unfolding is_none
listens c =
    c.monitoring
    && (not (not c.in_processing_turn && is_none c.current_speaking_task)
        && not c.interruption_signaled)

module _ (env : Surroundings) where
  unfoldable pub interrupt : Text → Call → Call
  unfolding emit cancel_task
  interrupt said c =
      let signaled = record c { interruption_signaled = true } in
      let recorded =
        (emit env (text "interruption")
          ((text "interrupted_event_id", env.digits c.current_turn_id)
            ∷ (text "user_text_at_interruption", said)
            ∷ [])
          signaled).1 in
      record recorded { current_speaking_task = cancel_task recorded.current_speaking_task }

  unfoldable pub on_verdict : Verdict → Text → Call → Call
  unfolding interrupt
  on_verdict triggered said c = interrupt said c
  on_verdict ignored said c = c

  module _ (rule : Rule env.re.Pattern) where
    unfoldable pub judge : Text → ℕ → Call → Call
    unfolding on_verdict or_now
    judge said now c =
        let started = or_now c.current_user_speech_started_ms now in
        on_verdict (evaluate_partial env.re said (pos started) (pos now) rule).verdict said
          (record c { current_user_speech_started_ms = some started })

    -- One item of the recognizer: a partial that the monitor reads, or a final, at which the
    -- recognizer's pump clears the start of speech.
    unfoldable pub hear : Heard → Call → Call
    unfolding judge listens
    hear final c = record c { current_user_speech_started_ms = none }
    hear (partial said now) c =
        if listens c && non_empty (strip said) then judge (strip said) now c else c

    unfoldable pub hear_all : List Heard → Call → Call
    unfolding hear
    hear_all [] c = c
    hear_all (h ∷ hs) c = hear_all hs (hear h c)
