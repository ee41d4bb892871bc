-- ===== src/RunLoop/Laws/Silence.antt =====
-- A caller who says nothing: the activations of the main loop, up to the hangup.
use isales_engine.RunLoop.{
  Call, Surroundings, Config, Playback, finished, Outcome, returned, Action, emit, go_to, modify,
  gets, pure, write, ◌>>=◌, silence_max_reached,
}
use isales_engine.RunLoop.Lifecycle.{
  with_event, transition_to-stay, Lifecycle, transition_to-step, hung_up,
}
use isales_engine.RunLoop.Hoare.{event_at, emit-known}
use isales_engine.RunLoop.Monitor.{hear_all}
use isales_engine.RunLoop.Playing.{play_tts, ended}
use isales_engine.RunLoop.Selection.{or_else}
use isales_engine.RunLoop.Turn.{continue, say, say_if, set_cause, hang_up, return, Directive}
use isales_engine.RunLoop.Session.{
  Round, silence_activates, silence_ends, silence_reason, run_round, act_on, main_turn_loop, next,
}
use isales_engine.RunLoop.Listening.{
  silent, UserAwait, silence_hangup, silence_activation, await_user_or_silence, silence_outcome,
}
use isales_engine.Realtime.Silence.Ladder.{evaluate_silence-main, phrase_at}
use isales_engine.Prelude.Int.{ℤ, pos, ltb_ℤ, leb_ℤ}
use isales_engine.CallSession.{CallState, in_call, is_known, end_call}
use isales_engine.StateMachine.{states_equal_iff, advance, states_equal}
use isales_engine.Prelude.{
  if◌then◌else◌, Bool-cases, length, All, nat_eq, text_eq, Text, text, Dict, ℕ, zero, suc, ◌+◌, ◌<◌,
  ◌≡◌, refl, sym, ap, ◌∙◌, subst, inl, inr, true, false, Option, none, some, List, [], ◌∷◌, ◌++◌,
  arith,
}

-- A step of a block, by what its first statement gives.
pub then_runs :
    {A B : Type 0} (m : Action A) (f : A → Action B) {c d : Call} {a : A} {r : Outcome B × Call}
    → m c ≡ (returned a, d)
    → f a d ≡ r
    → (m >>= f) c ≡ r
unfolding ◌>>=◌
then_runs m f e h = rw e h

pub stays :
    (env : Surroundings) (s : CallState) (reason : Text) (c : Call)
    → c.session.state ≡ s
    → go_to env s reason c ≡ (returned tt, c)
unfolding go_to write
stays env s reason c e =
    rw
      (transition_to-stay env.admits s (some reason) false
        (env.clock (length c.session.full_transcript)) c.session
        ((states_equal_iff s c.session.state).1 (sym e)))
      refl

abbrev pub quiet_playback : Playback
quiet_playback = record { heard = []; ending = finished }

-- The call after a playback that nobody interrupts.
abbrev pub said_to : Text → Call → Call
said_to said c = record c { spoken = c.spoken ++ said ∷ []; current_speaking_task = none }

module _ (env : Surroundings) {Number : Type 0} (config : Config env.re.Pattern Number)
    (quiet : (n : ℕ) → env.playback n ≡ quiet_playback) where
  pub says : (said : Text) (c : Call) → say env config said c ≡ (returned true, said_to said c)
  unfolding say play_tts ended hear_all pure
  says said c = rw (quiet (length c.spoken)) refl

  abbrev pub activated : Option Text → Call → Call
  activated phrase c =
      let noted : Call = record c {
        session =
            with_event
              (event_at env (text "silence_activation")
                ((text "text", or_else phrase [])
                  ∷ (text "activation_index", env.digits c.silence_activation_count)
                  ∷ [])
                c)
              c.session;
      } in
      record (said_to (or_else phrase []) noted) {
        silence_activation_count = c.silence_activation_count + 1;
      }

  pub activates :
      (phrase : Option Text) (c : Call)
      → c.session.state ≡ in_call
      → silence_activates env config phrase c ≡ (returned continue, activated phrase c)
  unfolding silence_activates modify gets pure is_known
  activates phrase c here =
      then_runs (go_to env in_call (text "silence_threshold")) _ (stays env in_call _ c here) (
        then_runs (gets (λ x. x.silence_activation_count)) _ refl (
          then_runs (emit env (text "silence_activation") _) _
            (emit-known env (text "silence_activation") _ c refl)
            (then_runs (say env config (or_else phrase [])) _ (says (or_else phrase []) _) (
              then_runs (modify _) _ refl (
                then_runs (go_to env in_call (text "activation_done")) _
                  (stays env in_call _ (activated phrase c) here) refl)))))

  goes :
      (s : CallState) (reason : Text) (c : Call)
      → Lifecycle c.session.state s
      → go_to env s reason c
        ≡ (returned tt, record c { session = advance c.session.state s (some reason) c.session })
  unfolding go_to write
  goes s reason c step =
      rw
        (transition_to-step env.admits s (some reason) false
          (env.clock (length c.session.full_transcript)) c.session step)
        refl

  -- What the hangup after the last activation leaves.
  abbrev pub HungUp : ℕ → Call → Type 0
  HungUp count d =
      (d.session.state ≡ end_call)
      × (d.hangup_cause ≡ some silence_max_reached)
      × (d.silence_activation_count ≡ count)

  says_if :
      (said : Text) (c : Call)
      → (d : Call) × (say_if env config said c ≡ (returned tt, d))
        × (d.session ≡ c.session)
        × (d.silence_activation_count ≡ c.silence_activation_count)
  unfolding say_if pure
  says_if [] c = (c, refl, refl, refl)
  says_if (x ∷ xs) c =
      (said_to (x ∷ xs) c, then_runs (say env config (x ∷ xs)) _ (says (x ∷ xs) c) refl, refl, refl)

  hangs_up :
      (phrase : Option Text) (c : Call)
      → c.session.state ≡ in_call
      → (d : Call) × (silence_ends env config phrase c ≡ (returned return, d))
        × HungUp c.silence_activation_count d
  unfolding silence_ends silence_reason set_cause hang_up modify gets pure is_known advance
  hangs_up phrase c here =
      let (c1, said, same, count) = says_if (or_else phrase []) c in
      let reason : Text = silence_reason env config c1 in
      let step : Lifecycle c1.session.state end_call =
        subst (λ s. Lifecycle s end_call) (sym (ap (λ x. x.state) same ∙ here)) hung_up in
      let c2 : Call = record c1 {
        session = advance c1.session.state end_call (some reason) c1.session;
        hangup_cause = some silence_max_reached;
      } in
      let fields : Dict Text Text =
        (text "reason", reason) ∷ (text "initiated_by", text "ai") ∷ [] in
      (
        record c2 { session = with_event (event_at env (text "hangup") fields c2) c2.session },
        then_runs (say_if env config (or_else phrase [])) _ said (
            then_runs (gets (silence_reason env config)) _ refl (
              then_runs (go_to env end_call reason) _ (goes end_call reason c1 step) (
                then_runs (modify _) _ refl (
                  then_runs (emit env (text "hangup") fields) _
                    (emit-known env (text "hangup") fields c2 refl) refl)))),
        (refl, refl, count),
      )

  module _ (m : ℕ) (limit : config.silence.max_activations ≡ pos m) where
    -- The caller stays silent past the threshold.
    abbrev pub IsSilent : Round → Type 0
    IsSilent round =
        (elapsed : ℤ) × (round.waited ≡ silent elapsed)
        × (ltb_ℤ elapsed config.silence.threshold_ms ≡ false)

    -- In conversation before the wrap-up, with so many activations.
    abbrev pub Listens : ℕ → Call → Type 0
    Listens count c =
        (c.session.state ≡ in_call) × (c.in_wrap_up ≡ false) × (c.silence_activation_count ≡ count)

    awaits_silence :
        (elapsed : ℤ) (count : ℕ) (c : Call)
        → Listens count c
        → ltb_ℤ elapsed config.silence.threshold_ms ≡ false
        → await_user_or_silence config.silence config.interruption_whitelist (silent elapsed) c ≡ (
          returned (
              if leb_ℤ config.silence.max_activations (pos count)
              then silence_hangup (some config.silence.hangup_phrase)
              else silence_activation (some (phrase_at config.silence.phrases count))),
          c,
        )
    unfolding await_user_or_silence silence_outcome pure
    awaits_silence elapsed count c (here, main, counted) past =
        rw (main, counted, evaluate_silence-main config.silence elapsed count, past)
          (elim (Bool-cases (leb_ℤ config.silence.max_activations (pos count))) [
            | inl full ↦ rw full refl
            | inr more ↦ rw more refl
          ])

    -- A round of the loop, by what it gives.
    loop_step :
        (round : Round) (rounds : List Round) (c : Call) {directive : Directive} {d : Call}
        → c.session.state ≡ in_call
        → run_round env config round c ≡ (returned directive, d)
        → main_turn_loop env config (round ∷ rounds) c
          ≡ next env config directive (main_turn_loop env config rounds) d
    unfolding main_turn_loop
    loop_step round rounds c here runs =
        let going : states_equal c.session.state end_call ≡ false =
          ap (λ x. states_equal x end_call) here in
        rw going (then_runs (run_round env config round) _ runs refl)

    full_round :
        (round : Round) (elapsed : ℤ) (count : ℕ) (c : Call) {outcome : UserAwait}
        {r : Outcome Directive × Call}
        → round.waited ≡ silent elapsed
        → await_user_or_silence config.silence config.interruption_whitelist (silent elapsed) c
          ≡ (returned outcome, c)
        → act_on env config round.turn outcome c ≡ r
        → run_round env config round c ≡ r
    unfolding run_round
    full_round round elapsed count c waits awaited acted = rw waits (
        then_runs
          (await_user_or_silence config.silence config.interruption_whitelist (silent elapsed)) _
          awaited acted)

    silent_loop :
        (rounds : List Round) (left count : ℕ) (c : Call)
        → Listens count c
        → count + left ≡ m
        → All IsSilent rounds
        → left < length rounds
        → (d : Call) × (main_turn_loop env config rounds c ≡ (returned tt, d)) × HungUp m d
    unfolding next pure act_on
    silent_loop [] left count c l total silent_all more = absurd (omega arith)
    silent_loop (r ∷ rs) zero count c l total silent_all more =
        let (elapsed, waits, past) = silent_all.0 in
        let full : leb_ℤ config.silence.max_activations (pos count) ≡ true =
          rw limit (ground (arith, total)) in
        let (d, ends, hung) = hangs_up (some config.silence.hangup_phrase) c l.0 in
        let awaited = rw full at (awaits_silence elapsed count c l past) in
        (
          d,
          loop_step r rs c l.0 (full_round r elapsed count c waits awaited ends),
          (hung.0, hung.1, hung.2 ∙ (l.2 ∙ omega (arith, total))),
        )
    silent_loop (r ∷ rs) (suc left) count c l total silent_all more =
        let (elapsed, waits, past) = silent_all.0 in
        let room : leb_ℤ config.silence.max_activations (pos count) ≡ false =
          rw limit (ground (arith, total)) in
        let phrase : Option Text = some (phrase_at config.silence.phrases count) in
        let awaited = rw room at (awaits_silence elapsed count c l past) in
        let runs = full_round r elapsed count c waits awaited (activates phrase c l.0) in
        let (d, loops, hung) =
          silent_loop rs left (count + 1) (activated phrase c) (l.0, l.1, ap (λ n. n + 1) l.2)
            (omega (arith, total)) silent_all.1 (omega (arith, more)) in
        (d, loop_step r rs c l.0 runs ∙ loops, hung)

    -- A caller who says nothing: with quiet playbacks, a limit of `m` activations, and more than `m`
    -- rounds that all pass in silence beyond the threshold, the main loop of a call that is in
    -- conversation before the wrap-up, with no activation yet, returns. The call is then in its end
    -- state, after `m` activations, with the cause of the silence.
    pub main_turn_loop-silent :
        (rounds : List Round) (c : Call)
        → Listens 0 c
        → All IsSilent rounds
        → m < length rounds
        → (d : Call) × (main_turn_loop env config rounds c ≡ (returned tt, d)) × HungUp m d
    main_turn_loop-silent rounds c listens silent_all more =
        silent_loop rounds m 0 c listens (omega arith) silent_all more
