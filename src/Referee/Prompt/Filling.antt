-- ===== src/Referee/Prompt/Filling.antt =====
-- What filling a prompt leaves alone, and what a referee reports when its model fails.
use isales_engine.Referee.Prompt.{
  replace, replace_behind, RefereeSpec, Asked, fill, utterance_mark, history_mark, interrupted_mark,
  reply_mark, judged, run_referee, Asking, responds, chat_cancelled, Ran, reported, ran_raised,
  ran_cancelled, referee_messages,
}
use isales_engine.Referee.{surrounding, first_token, parse_referee_output}
use isales_engine.Pipeline.PromptBuilder.{Message, answered, raised}
use isales_engine.Streaming.Types.{RefereeResult, failopen_invalid, fail_open}
use isales_engine.Prelude.{
  Bool-cases, nat_eq, text_eq, Text, strip_chars, starts_with, contains, non_empty, ℕ, ◌≡◌, refl,
  ap, ◌⊎◌, inl, inr, true, false, none, some, List, [], ◌∷◌,
}

replace_absent : (old new s : Text) → contains old s ≡ false → replace old new s ≡ s
unfolding replace replace_behind
replace_absent old new [] h = refl
replace_absent old new (c ∷ s) h = elim (Bool-cases (starts_with old (c ∷ s))) [
  | inl found ↦ let e : true ≡ false = rw found at h in cc
  | inr other ↦
      let e : contains old s ≡ false = rw other at h in
      rw other (ap (λ t. c ∷ t) (replace_absent old new s e))
]

pub record IsPlain (prompt : Text) : Type 0 where
  pub no_utterance : contains utterance_mark prompt ≡ false
  pub no_history : contains history_mark prompt ≡ false
  pub no_interrupted : contains interrupted_mark prompt ≡ false
  pub no_reply : contains reply_mark prompt ≡ false

-- A prompt that holds none of the placeholders is sent as it stands, whatever was said, shown or
-- interrupted.
pub fill-plain : (asked : Asked) (prompt : Text) → IsPlain prompt → fill asked prompt ≡ prompt
unfolding fill
fill-plain asked prompt h =
    rw
      (
        replace_absent utterance_mark asked.user_last_utterance prompt h.no_utterance,
        replace_absent history_mark _ prompt h.no_history,
        replace_absent interrupted_mark _ prompt h.no_interrupted,
        replace_absent reply_mark _ prompt h.no_reply,
      )
      refl

-- How a report looks: its label is the referee's, and it has either a category that is not empty
-- with full confidence and no reason, or no category, no confidence and the reason "invalid".
pub record IsReport (label : Text) (r : RefereeResult) : Type 0 where
  pub labelled : r.label ≡ label
  pub decided :
      ((category : Text) × (r.category ≡ some category)
        × (non_empty category ≡ true)
        × (r.confidence ≡ 1)
        × (r.failopen_reason ≡ none))
      ⊎ ((r.category ≡ none) × (r.confidence ≡ 0) × (r.failopen_reason ≡ some failopen_invalid))

-- What the task of a referee comes to.
abbrev pub IsRun : Text → Asking → Ran → Type 0
IsRun label asking (reported r) = IsReport label r
IsRun label asking (ran_raised exc) = ⊥
IsRun label asking ran_cancelled = asking ≡ chat_cancelled

judged-IsRun :
    (label : Text) (duration_ms : ℕ) (asking : Asking)
    → IsRun label asking (judged label duration_ms asking)
unfolding judged fail_open parse_referee_output
judged-IsRun label duration_ms chat_cancelled = refl
judged-IsRun label duration_ms (responds (raised _)) = record {
  labelled = refl;
  decided = inr (refl, refl, refl);
}
judged-IsRun label duration_ms (responds (answered none)) = record {
  labelled = refl;
  decided = inr (refl, refl, refl);
}
judged-IsRun label duration_ms (responds (answered (some raw))) =
    elim (Bool-cases (non_empty (strip_chars surrounding (first_token raw)))) [
      | inl found ↦ rw found (record {
        labelled = refl;
        decided = inl (strip_chars surrounding (first_token raw), refl, found, refl, refl);
      })
      | inr empty ↦ rw empty (record { labelled = refl; decided = inr (refl, refl, refl) })
    ]

-- Unless its task is cancelled, a referee reports, whatever its model answers or raises: under its
-- label, with either a category that is not empty and full confidence, or none and the reason
-- "invalid".
pub run_referee-IsRun :
    (ask : List Message → Asking) (duration_ms : ℕ) (spec : RefereeSpec) (asked : Asked)
    → IsRun spec.label (ask (referee_messages spec asked)) (run_referee ask duration_ms spec asked)
unfolding run_referee
run_referee-IsRun ask duration_ms spec asked = judged-IsRun spec.label duration_ms _
