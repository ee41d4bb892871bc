-- ===== src/RunLoop/Settles/Session.antt =====
-- The whole session: whatever the line, the caller, the referees and the providers do, the session
-- follows the life of a call, and its transcript has one hangup exactly when the call has ended.
use isales_engine.RunLoop.Settles.Selected.{Talking}
use isales_engine.RunLoop.Settles.Rounds.{Ended, may_end, not_ended, step_loop}
use isales_engine.RunLoop.{
  Call, Surroundings, Config, Done, Outcome, returned, threw, cancelled, waiting, fresh, Awaited,
  done, timed_out, raised, Ending, finished, failed, stopped, no_answer, no_progress_timeout,
  manual_hangup, HangupCause, modify, gets, ◌>>=◌, terminate,
}
use isales_engine.RunLoop.Lifecycle.{Lifecycle, answered, unanswered}
use isales_engine.RunLoop.Hoare.{
  At, At-caused, Open, Post, Hoare, seq, bind-returns, go_to-returns, emit-returns, step_modify,
  step_neutral, step_pure, step_gets, step_if, step_emit, step_go, step_stay, step_throw,
  step_terminate,
}
use isales_engine.RunLoop.Settles.Turn.{in_call-live, step_cause, step_hang_up, step_say}
use isales_engine.RunLoop.Listening.{TelephonyEvent, dial_and_wait_connected, wait_connected}
use isales_engine.RunLoop.Turn.{hang_up}
use isales_engine.RunLoop.Session.{
  Round, Opening, not_answered, do_greeting, drain_and_monitor, converse, attempt, end_it,
  given_cause, note_failure, recover, settle, close, run_session,
}
use isales_engine.CallSession.{CallState, init, in_call, end_call, is_known, new}
use isales_engine.CallSession.Mirror.{new-IsMirrored}
use isales_engine.Prelude.{
  nat_eq, text_eq, Text, text, ℕ, ◌≡◌, refl, sym, subst, ◌≢◌, ◌⊎◌, inl, inr, Bool, true, false,
  Option, none, some, List, [], arith,
}

module _ (env : Surroundings) {Number : Type 0} (config : Config env.re.Pattern Number) where
  abbrev top : ℕ
  top = config.pipeline.max_continuous_restructure

  abbrev Dialling : Call → Type 0
  Dialling = At top init 0 false top

  init-live : init ≢ end_call
  init-live h = cc

  step_not_answered : Hoare top Dialling (not_answered env config) (λ _. Ended env config)
  unfolding not_answered
  step_not_answered = seq top (step_go top env (text "no_answer") unanswered) λ _.
      seq top (step_cause top env config end_call 0 no_answer)
        λ _. step_hang_up top env config (text "no_answer") (text "ai")

  step_greeting :
      (greeting : Awaited Text)
      → Hoare top (Talking env config) (do_greeting env config greeting) (λ _. Talking env config)
  unfolding do_greeting is_known
  step_greeting (done said) = seq top (step_emit top env (text "greeting") _ refl refl) λ _.
      seq top (step_say top env config in_call in_call-live said) λ _. step_pure top tt (λ c h. h)
  step_greeting timed_out = step_throw top in_call in_call-live
  step_greeting raised = step_throw top in_call in_call-live

  step_converse :
      (greeting : Awaited Text) (rounds : List Round)
      → Hoare top Dialling (converse env config greeting rounds) (λ _. Ended env config)
  unfolding converse drain_and_monitor
  step_converse greeting rounds = seq top (step_go top env (text "connected") answered) λ _.
      seq top (step_greeting greeting) λ _. seq top (step_stay top env (text "greeting_done")) λ _.
        seq top (step_neutral top (drain_and_monitor env config) (λ c. (refl, refl, refl)))
          λ _. step_loop env config rounds

  step_dial :
      (ending : Ending) (events : List TelephonyEvent)
      → Hoare top Dialling (dial_and_wait_connected ending events) (λ _. Dialling)
  unfolding dial_and_wait_connected
  step_dial finished events = step_pure top (wait_connected events) (λ c h. h)
  step_dial failed events = step_throw top init init-live
  step_dial stopped events = step_terminate top init init-live

  step_attempt :
      (opening : Opening) (rounds : List Round)
      → Hoare top Dialling (attempt env config opening rounds) (λ _. Ended env config)
  unfolding attempt
  step_attempt opening rounds =
      seq top (step_dial opening.dial_ending opening.events)
        λ connected. step_if top connected (step_converse opening.greeting rounds) step_not_answered

  given_cause-At :
      (c : Call)
      → At top end_call 0 false top c
      → At top end_call 0 true top (given_cause env config c)
  unfolding given_cause
  given_cause-At c h = record {
    mirrored = h.mirrored;
    trail = h.trail;
    state = h.state;
    hung = h.hung;
    caused = known c.hangup_cause;
    bounded = h.bounded;
    within = h.within;
  }
    where
      known :
          (cause : Option HangupCause)
          → (x : HangupCause) × ((elim cause [ none ↦ some no_progress_timeout | some y ↦ some y ])
              ≡ some x)
      known none = (no_progress_timeout, refl)
      known (some y) = (y, refl)

  -- The handler of exceptions ends the call.
  step_end_it :
      (s : CallState)
      → s ≢ end_call
      → Hoare top (At top s 0 false top) (end_it env config) (λ _. At top end_call 0 false top)
  unfolding end_it
  step_end_it s live = record {
    apply = λ c h.
        rw (not_ended env config c live h)
          ((step_go top env (text "engine_internal_error") (may_end s live)).apply c h);
  }

  -- The handler of exceptions ends the call.
  step_recover :
      (s : CallState)
      → s ≢ end_call
      → Hoare top (At top s 0 false top) (recover env config) (λ _. Ended env config)
  unfolding recover note_failure
  step_recover s live = seq top (step_end_it s live) λ _.
      seq top (step_modify top (given_cause env config) given_cause-At) λ _.
        seq top
          (step_gets top
            (λ c. elim c.hangup_cause [ none ↦ [] | some cause ↦ env.cause_value cause ]))
          λ cause. step_hang_up top env config cause (text "ai")

  end_it-returns :
      (s : CallState) (c : Call)
      → s ≢ end_call
      → At top s 0 false top c
      → (end_it env config c).0 ≡ returned tt
  unfolding end_it
  end_it-returns s c live h = rw (not_ended env config c live h) (
      go_to-returns env end_call (text "engine_internal_error") c
        (subst (λ x. Lifecycle x end_call) (sym h.state) (may_end s live)))

  note_failure-returns : (c : Call) → (note_failure env config c).0 ≡ returned tt
  unfolding note_failure hang_up ◌>>=◌ modify gets is_known
  note_failure-returns c = emit-returns env (text "hangup") _ (given_cause env config c) refl

  recover-returns :
      (s : CallState) (c : Call)
      → s ≢ end_call
      → At top s 0 false top c
      → (recover env config c).0 ≡ returned tt
  unfolding recover
  recover-returns s c live h =
      bind-returns (end_it env config) (λ _. note_failure env config) c (end_it-returns s c live h)
        (note_failure-returns (end_it env config c).1)

  -- What a session comes to: it has ended, or the main task was cancelled by a manual hangup, or it
  -- waits for more. No exception leaves it.
  abbrev pub Concluded : Outcome Done × Call → Type 0
  Concluded (returned _, c) = Ended env config c
  Concluded (threw, c) = ⊥
  Concluded (cancelled, c) = Open top true c
  Concluded (waiting, c) = Open top false c

  conclude_return :
      (r : Outcome Done) (c : Call)
      → r ≡ returned tt
      → Post top (λ _. Ended env config) (r, c)
      → Concluded (r, c)
  conclude_return (returned _) c e h = h
  conclude_return threw c e h = cc
  conclude_return cancelled c e h = h
  conclude_return waiting c e h = h

  settle-Concluded :
      (r : Outcome Done) (c : Call)
      → Post top (λ _. Ended env config) (r, c)
      → Concluded (settle env config (r, c))
  unfolding settle
  settle-Concluded (returned _) c h = h
  settle-Concluded threw c (s, live, h) =
      conclude_return (recover env config c).0 (recover env config c).1 (recover-returns s c live h)
        ((step_recover s live).apply c h)
  settle-Concluded cancelled c h = h
  settle-Concluded waiting c h = h

  fresh-Dialling : Dialling (fresh new)
  unfolding fresh new
  fresh-Dialling = record {
    mirrored = new-IsMirrored;
    trail = refl;
    state = refl;
    hung = refl;
    caused = tt;
    bounded = omega arith;
    within = omega arith;
  }

  -- What a session comes to once it is closed: a manual hangup meanwhile may also cancel one that
  -- has ended.
  abbrev pub Closed : Bool → Outcome Done × Call → Type 0
  Closed false r = Concluded r
  Closed true (returned _, c) = ⊥
  Closed true (threw, c) = ⊥
  Closed true (cancelled, c) = Ended env config c ⊎ Open top true c
  Closed true (waiting, c) = Open top false c

  close-Closed :
      (stops : Bool) (r : Outcome Done) (c : Call)
      → Concluded (r, c)
      → Closed stops (close env config stops (r, c))
  unfolding close terminate
  close-Closed false r c h = h
  close-Closed true (returned _) c h = inl (At-caused top c manual_hangup h)
  close-Closed true threw c h = absurd h
  close-Closed true cancelled c (s, live, h) = inr (s, live, At-caused top c manual_hangup h)
  close-Closed true waiting c h = h

  pub run_session-Closed :
      (opening : Opening) (rounds : List Round)
      → Closed opening.stopped_while_closing (run_session env config opening rounds (fresh new))
  unfolding run_session
  run_session-Closed opening rounds =
      let r = attempt env config opening rounds (fresh new) in
      let settled = settle env config r in
      close-Closed opening.stopped_while_closing settled.0 settled.1
        (settle-Concluded r.0 r.1 ((step_attempt opening rounds).apply (fresh new) fresh-Dialling))
