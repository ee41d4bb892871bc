-- ===== src/RunLoop/Settles.antt =====
-- What the playback of the run loop keeps, whatever is heard during it and however it ends.
pub mod Turn
pub mod Selected
pub mod Gate
pub mod Rounds
pub mod Session
use isales_engine.RunLoop.{
  Call, Surroundings, Speaking, playing, cancel_requested, Ending, finished, failed, stopped, Heard,
  partial, final, Outcome, returned, threw, cancelled, waiting, emit, Action, Playback, terminate,
  throw, pure, manual_hangup,
}
use isales_engine.RunLoop.Hoare.{
  Held, At, Open, Post, Hoare, seq, step_emit, step_if, step_terminate, step_throw, step_pure,
  At-emit, At-relax, At-top, At-noted, At-caused,
}
use isales_engine.RunLoop.Monitor.{hear_all, hear, judge, interrupt, or_now, listens, on_verdict}
use isales_engine.Pipeline.Orchestrator.{default_reply}
use isales_engine.RunLoop.Playing.{
  Reply, StreamKind, ended, play_tts, play_sentences, play_streaming, caught, after_sentence,
  next_job, capture,
}
use isales_engine.Realtime.InterruptionRules.{Rule, evaluate_partial, Verdict, triggered, ignored}
use isales_engine.CallSession.{CallState, end_call, is_known}
use isales_engine.Prelude.Int.{pos}
use isales_engine.Prelude.{
  if◌then◌else◌, Bool-cases, length, all, nat_eq, text_eq, ◌==◌, Text, text, strip, non_empty, ℕ,
  suc, refl, ◌≢◌, inl, inr, Bool, true, false, ◌&&◌, Option, none, some, List, [], ◌∷◌, ◌++◌,
}

module _ (top : ℕ) (env : Surroundings) (rule : Rule env.re.Pattern) {s : CallState} {n : ℕ}
    {k : Bool} {b : ℕ} where
  interrupt-At : (said : Text) (c : Call) → At top s n k b c → At top s n k b (interrupt env said c)
  unfolding interrupt is_known
  interrupt-At said c h =
      At-emit top env (text "interruption") _ (record c { interruption_signaled = true }) refl refl
        h

  on_verdict-At :
      (v : Verdict) (said : Text) (c : Call)
      → At top s n k b c
      → At top s n k b (on_verdict env v said c)
  unfolding on_verdict
  on_verdict-At triggered said c h = interrupt-At said c h
  on_verdict-At ignored said c h = h

  judge-At :
      (said : Text) (now : ℕ) (c : Call)
      → At top s n k b c
      → At top s n k b (judge env rule said now c)
  unfolding judge
  judge-At said now c h =
      on_verdict-At
        (evaluate_partial env.re said (pos (or_now c.current_user_speech_started_ms now)) (pos now)
          rule).verdict
        said
        (record c {
          current_user_speech_started_ms = some (or_now c.current_user_speech_started_ms now);
        })
        h

  hear-At : (heard : Heard) (c : Call) → At top s n k b c → At top s n k b (hear env rule heard c)
  unfolding hear
  hear-At final c h = h
  hear-At (partial said now) c h = elim (Bool-cases (listens c && non_empty (strip said))) [
    | inl heeded ↦ rw heeded (judge-At (strip said) now c h)
    | inr dropped ↦ rw dropped h
  ]

  pub hear_all-At :
      (heard : List Heard) (c : Call)
      → At top s n k b c
      → At top s n k b (hear_all env rule heard c)
  unfolding hear_all
  hear_all-At [] c h = h
  hear_all-At (x ∷ xs) c h = hear_all-At xs (hear env rule x c) (hear-At x c h)

module _ (top : ℕ) (env : Surroundings) (rule : Rule env.re.Pattern) (s : CallState) (k : Bool)
    (b : ℕ) where
  -- A playback keeps the condition exactly, also where it fails; a manual hangup only records its
  -- cause.
  abbrev Kept : Outcome Bool × Call → Type 0
  Kept (returned _, c) = At top s 0 k b c
  Kept (threw, c) = At top s 0 k b c
  Kept (cancelled, c) = At top s 0 true b c
  Kept (waiting, c) = ⊥

  ended-Kept :
      (task : Option Speaking) (ending : Ending) (c : Call)
      → At top s 0 k b c
      → Kept (ended env rule task ending c)
  unfolding ended
  ended-Kept (some cancel_requested) finished c h = h
  ended-Kept (some cancel_requested) failed c h = h
  ended-Kept (some cancel_requested) stopped c h = At-noted top c manual_hangup h
  ended-Kept (some playing) finished c h = h
  ended-Kept (some playing) failed c h = h
  ended-Kept (some playing) stopped c h = At-noted top c manual_hangup h
  ended-Kept none finished c h = h
  ended-Kept none failed c h = h
  ended-Kept none stopped c h = At-noted top c manual_hangup h

  play_tts-Kept :
      (said : Text) (interruptible : Bool) (c : Call)
      → At top s 0 k b c
      → Kept (play_tts env rule said interruptible c)
  unfolding play_tts
  play_tts-Kept said interruptible c h =
      let started : Call = record c {
        spoken = c.spoken ++ said ∷ [];
        current_speaking_task = if interruptible then some playing else none;
      } in
      let heard : Call = hear_all env rule (env.playback (length c.spoken)).heard started in
      ended-Kept heard.current_speaking_task (env.playback (length c.spoken)).ending
        (record heard { current_speaking_task = none })
        (hear_all-At top env rule (env.playback (length c.spoken)).heard started h)

  capture-At :
      (kind : StreamKind) (reply : Reply) (said : Text) (rest : List Text) (c : Call)
      → At top s 0 k b c
      → At top s 0 k b (capture env rule kind reply said rest c)
  unfolding capture
  capture-At kind reply said rest c h = elim (Bool-cases kind.is_restructure) [
    | inl again ↦ rw again h
    | inr first ↦ rw first h
  ]

  caught-Kept :
      (r : Outcome Bool) (c : Call) (f : Bool → Action Bool)
      → Kept (r, c)
      → ((played : Bool) → At top s 0 k b c → Kept (f played c))
      → Kept (caught env rule (r, c) f)
  unfolding caught
  caught-Kept (returned played) c f h more = more played h
  caught-Kept threw c f h more = h
  caught-Kept cancelled c f h more = h
  caught-Kept waiting c f h more = absurd h

  after_sentence-Kept :
      (kind : StreamKind) (reply : Reply) (said : Text) (rest : List Text) (others : Action Bool)
      → ((c : Call) → At top s 0 k b c → Kept (others c))
      → (played : Bool) (c : Call) → At top s 0 k b c
      → Kept (after_sentence env rule kind reply said rest others played c)
  unfolding after_sentence
  after_sentence-Kept kind reply said rest others more true c h = more c h
  after_sentence-Kept kind reply said rest others more false c h =
      capture-At kind reply said rest c h

  next_job-Kept :
      (stop : Option ℕ) (left : ℕ) (r : Outcome Bool) (d c : Call)
      → Kept (r, d)
      → At top s 0 k b c
      → Kept (next_job env rule stop left (r, d) c)
  unfolding next_job terminate
  next_job-Kept none left r d c played h = played
  next_job-Kept (some n) left r d c played h = elim (Bool-cases (n == left)) [
    | inl here ↦ rw here (At-caused top c manual_hangup h)
    | inr later ↦ rw later played
  ]

  play_sentences-Kept :
      (kind : StreamKind) (reply : Reply) (sentences : List Text) (c : Call)
      → At top s 0 k b c
      → Kept (play_sentences env rule kind reply sentences c)
  unfolding play_sentences
  play_sentences-Kept kind reply [] c h =
      next_job-Kept reply.stopped_before 0 (returned true) c c h h
  play_sentences-Kept kind reply (said ∷ rest) c h =
      let r = play_tts env rule said true c in
      let all =
        caught env rule r (
          after_sentence env rule kind reply said rest (play_sentences env rule kind reply rest)) in
      next_job-Kept reply.stopped_before (suc (length rest)) all.0 all.1 c
        (caught-Kept r.0 r.1 _ (play_tts-Kept said true c h) (λ played.
          after_sentence-Kept kind reply said rest (play_sentences env rule kind reply rest)
            (play_sentences-Kept kind reply rest) played r.1))
        h

  Kept-Post :
      (live : s ≢ end_call) (r : Outcome Bool) (c : Call)
      → Kept (r, c)
      → Post top (λ _. At top s 0 k b) (r, c)
  Kept-Post live (returned played) c h = h
  Kept-Post live threw c h = (s, live, At-relax top c h)
  Kept-Post live cancelled c h = (s, live, At-top top c h)
  Kept-Post live waiting c h = absurd h

module _ (top : ℕ) (env : Surroundings) (rule : Rule env.re.Pattern) (s : CallState)
    (live : s ≢ end_call) {k : Bool} {b : ℕ} where
  pub step_play :
      (said : Text) (interruptible : Bool)
      → Hoare top (At top s 0 k b) (play_tts env rule said interruptible) (λ _. At top s 0 k b)
  step_play said interruptible = record {
    apply = λ c h.
        Kept-Post top env rule s k b live _ _
          (play_tts-Kept top env rule s k b said interruptible c h);
  }

  step_sentences :
      (kind : StreamKind) (reply : Reply) (sentences : List Text)
      → Hoare top
          (At top s 0 k b)
          (play_sentences env rule kind reply sentences)
          (λ _. At top s 0 k b)
  step_sentences kind reply sentences = record {
    apply = λ c h.
        Kept-Post top env rule s k b live _ _
          (play_sentences-Kept top env rule s k b kind reply sentences c h);
  }

  pub step_stream :
      (default_replies : List Text) (kind : StreamKind) (reply : Reply)
      → Hoare top
          (At top s 0 k b)
          (play_streaming env rule default_replies kind reply)
          (λ _. At top s 0 k b)
  unfolding play_streaming is_known
  step_stream default_replies kind reply =
      step_if top (non_empty (strip reply.reply_text)) (step_sentences kind reply reply.core) (
        seq top (step_emit top env (text "default_reply_used") _ refl refl)
          (λ _. step_sentences kind reply (default_reply reply.draw default_replies ∷ [])))
