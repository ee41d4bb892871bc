-- ===== src/RunLoop/Laws/Sessions.antt =====
-- Whole sessions of the run loop, over all that the line, the caller, the referees, the providers
-- and the control plane may do.
use isales_engine.RunLoop.{
  Call, Surroundings, Config, Outcome, returned, threw, cancelled, waiting, Done, fresh,
}
use isales_engine.RunLoop.Lifecycle.{Trail, hangups}
use isales_engine.RunLoop.Settles.Session.{run_session-Closed, Closed}
use isales_engine.RunLoop.Hoare.{At}
use isales_engine.RunLoop.Session.{Round, Opening, run_session}
use isales_engine.CallSession.{CallState, init, end_call, new}
use isales_engine.CallSession.Mirror.{IsMirrored}
use isales_engine.Prelude.{
  nat_eq, text_eq, ℕ, ◌≤◌, ◌≡◌, ◌≢◌, ◌⊎◌, inl, inr, Bool, true, false, none, List, arith,
}

-- A call that has ended has one hangup in its transcript, one that has not has none.
abbrev pub IsOver : Call → Type 0
IsOver c = (c.session.state ≡ end_call) × (hangups c.session ≡ 1)

abbrev pub IsLive : Call → Type 0
IsLive c = (c.session.state ≢ end_call) × (hangups c.session ≡ 0)

-- How a session may end, by whether a manual hangup cancels it while it is closed.
abbrev pub EndsOnce : Bool → Outcome Done × Call → Type 0
EndsOnce stops (returned _, c) = (stops ≡ false) × IsOver c × (c.hangup_cause ≢ none)
EndsOnce stops (threw, c) = ⊥
EndsOnce false (cancelled, c) = IsLive c × (c.hangup_cause ≢ none)
EndsOnce true (cancelled, c) = (IsOver c ⊎ IsLive c) × (c.hangup_cause ≢ none)
EndsOnce stops (waiting, c) = IsLive c

module _ (env : Surroundings) {Number : Type 0} (config : Config env.re.Pattern Number) where
  -- Whatever becomes of a session, its call is in some condition of the run loop's proofs.
  Somewhere : Call → Type 0
  Somewhere c =
      (s : CallState) × (n : ℕ) × (k : Bool) × At config.pipeline.max_continuous_restructure s n k
        config.pipeline.max_continuous_restructure c

  Closed-Somewhere :
      (stops : Bool) (r : Outcome Done) (c : Call) → Closed env config stops (r, c) → Somewhere c
  unfolding Somewhere
  Closed-Somewhere false (returned _) c h = (_, _, _, h)
  Closed-Somewhere false threw c h = absurd h
  Closed-Somewhere false cancelled c (s, live, h) = (_, _, _, h)
  Closed-Somewhere false waiting c (s, live, h) = (_, _, _, h)
  Closed-Somewhere true (returned _) c h = absurd h
  Closed-Somewhere true threw c h = absurd h
  Closed-Somewhere true cancelled c (inl h) = (_, _, _, h)
  Closed-Somewhere true cancelled c (inr (s, live, h)) = (_, _, _, h)
  Closed-Somewhere true waiting c (s, live, h) = (_, _, _, h)

  run_session-Somewhere :
      (opening : Opening) (rounds : List Round)
      → Somewhere (run_session env config opening rounds (fresh new)).1
  run_session-Somewhere opening rounds =
      Closed-Somewhere opening.stopped_while_closing
        (run_session env config opening rounds (fresh new)).0
        (run_session env config opening rounds (fresh new)).1
        (run_session-Closed env config opening rounds)

  -- However a session ends, its state history is a run of the abstract life of a call, from the
  -- initial state to the state it is in: answered or not, perhaps marked for a handoff, ended.
  pub run_session-Trail :
      (opening : Opening) (rounds : List Round)
      → let c = (run_session env config opening rounds (fresh new)).1 in
        Trail init c.session.state_history c.session.state
  unfolding Somewhere
  run_session-Trail opening rounds =
      let (s, n, k, h) = run_session-Somewhere opening rounds in h.trail

  -- However a session ends, its dialog history is the conversation part of its transcript, and the
  -- transcript holds events of the known types only.
  pub run_session-IsMirrored :
      (opening : Opening) (rounds : List Round)
      → IsMirrored (run_session env config opening rounds (fresh new)).1.session
  unfolding Somewhere
  run_session-IsMirrored opening rounds =
      let (s, n, k, h) = run_session-Somewhere opening rounds in h.mirrored

  -- After any number of rounds, the restructures in a row are at most the configured number.
  pub run_session-restructures :
      (opening : Opening) (rounds : List Round)
      → (run_session env config opening rounds (fresh new)).1.consecutive_restructure_count
        ≤ config.pipeline.max_continuous_restructure
  unfolding Somewhere
  run_session-restructures opening rounds =
      let (s, n, k, h) = run_session-Somewhere opening rounds in omega (arith, h.bounded, h.within)
